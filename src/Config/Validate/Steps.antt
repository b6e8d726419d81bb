-- ===== src/Config/Validate/Steps.antt =====
-- When one check of `Validate` passes, and what it leaves; and when a sequence of checks does.
use goxic.Prelude.{
  ◌≡◌, ◌≢◌, ◌↔◌, refl, sym, ◌∙◌, inl, inr, Bool, true, false, Bool-cases, not, List, [], ◌∷◌,
  Option, none, some, Option-cases, Bytes, text_eq, text_eq_iff, text_eq_sound, is_empty, arith, ap,
  Elem,
}
use goxic.Prelude.Int.{ℤ, pos, ◌≤ℤ◌}
use goxic.Config.Record.{Config}
use goxic.Config.Validate.{ConfigError, Check, reject_if, ◌>=>◌, one_of, out_of_range, find_level}
use goxic.Config.Validate.Lower.{to_lower}

-- A check passes exactly under a condition, and then leaves this configuration.
abbrev pub PassesIff : Check → Config → Config → Type 0 → Type 0
PassesIff f c d P = (x : Config) → (f c ≡ (x, none)) ↔ (P × (x ≡ d))

abbrev pub InRange : ℤ → Type 0
InRange port = (pos 1024 ≤ℤ port) × (port ≤ℤ pos 65535)

>=>_ok :
    (f g : Check) (c d x : Config) → f c ≡ (d, none) → g d ≡ (x, none) → (f >=> g) c ≡ (x, none)
>=>_ok f g c d x hf hg =
    ap {B = Config × Option ConfigError} (λ r. elim (r.1) [ some e ↦ (r.0, some e) | none ↦ g r.0 ])
      hf
    ∙ hg

>=>_inv :
    (f g : Check) (c x : Config)
    → (f >=> g) c ≡ (x, none)
    → (d : Config) × (f c ≡ (d, none)) × (g d ≡ (x, none))
>=>_inv f g c x h = elim (Option-cases ((f c).1)) [
  | inl e ↦ let first : f c ≡ ((f c).0, none) = ap (λ o. ((f c).0, o)) e in ((f c).0, first, cc)
  | inr (r, e) ↦ cc
]

pub then_lem :
    (f g : Check) (c d e : Config) (P Q : Type 0)
    → PassesIff f c d P
    → PassesIff g d e Q
    → PassesIff (f >=> g) c e (P × Q)
then_lem f g c d e P Q hf hg x = (
  λ h.
      let (y, a, b) = >=>_inv f g c x h in
      let (p, at) = (hf y).0 a in let (q, here) = (hg x).0 (sym (ap g at) ∙ b) in ((p, q), here),
  λ ((p, q), here). >=>_ok f g c d x ((hf d).1 (p, refl)) ((hg x).1 (q, here)),
)

pub reject_if_lem :
    (test : Bool) (e : ConfigError) (c : Config) (P : Type 0)
    → (test ≡ false) ↔ P
    → PassesIff (reject_if test e) c c P
reject_if_lem true e c P h x = (λ g. cc, λ (p, q). absurd (cc (h.1 p)))
reject_if_lem false e c P h x = (λ g. (h.0 refl, ground arith), λ (p, q). rw q refl)

one_of_iff : (s : Bytes) (ts : List Bytes) → (one_of s ts ≡ true) ↔ Elem s ts
unfolding one_of
one_of_iff s [] = (λ h. cc, λ h. elim h [ ])
one_of_iff s (t ∷ ts) = (
  λ h. elim (Bool-cases (text_eq s t)) [
    | inl e ↦ inl (text_eq_sound s t e)
    | inr e ↦ inr ((one_of_iff s ts).0 (ground (arith, e)))
  ],
  λ m. elim m [
    | inl e ↦ ground (arith, (text_eq_iff s t).1 e)
    | inr e ↦ ground (arith, (one_of_iff s ts).1 e)
  ],
)

pub not-one_of_iff : (s : Bytes) (ts : List Bytes) → (not (one_of s ts) ≡ false) ↔ Elem s ts
not-one_of_iff s ts =
    (λ h. (one_of_iff s ts).0 (ground arith), λ h. ground (arith, (one_of_iff s ts).1 h))

pub is_empty_iff : {A : Type 0} (s : List A) → (is_empty s ≡ false) ↔ (s ≢ [])
is_empty_iff [] = (λ h. cc, λ h. absurd (h refl))
is_empty_iff (x ∷ s) = (λ h e. cc, λ h. refl)

pub out_of_range_iff : (port : ℤ) → (out_of_range port ≡ false) ↔ InRange port
out_of_range_iff port = ground arith

pub find_level-some :
    (s : Bytes) (levels : List Bytes)
    → Elem (to_lower s) levels
    → find_level s levels ≡ some (to_lower s)
unfolding find_level
find_level-some s [] h = elim h [ ]
find_level-some s (l ∷ ls) h = elim (Bool-cases (text_eq (to_lower s) l)) [
  | inl e ↦ rw (e, text_eq_sound (to_lower s) l e)
  | inr e ↦ elim h [
    | inl f ↦ absurd (cc (e, (text_eq_iff (to_lower s) l).1 f))
    | inr m ↦ rw (e, find_level-some s ls m)
  ]
]

pub find_level_sound :
    (s : Bytes) (levels : List Bytes) (l : Bytes)
    → find_level s levels ≡ some l
    → Elem (to_lower s) levels
unfolding find_level
find_level_sound s [] l h = cc
find_level_sound s (t ∷ ts) l h = elim (Bool-cases (text_eq (to_lower s) t)) [
  | inl e ↦ inl (text_eq_sound (to_lower s) t e)
  | inr e ↦ inr (find_level_sound s ts l (ground (arith, e)))
]
