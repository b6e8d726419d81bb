-- ===== src/Prelude/Text.antt =====
-- Go strings as lists of bytes, with the string functions that the sources call.
use Prim.Native.Nat.{ℕ}
use Prim.Native.Char.{code}
use Prim.Native.String.{String}
use mathlib.Core.Path.{◌≡◌, refl}
use mathlib.Core.Bool.{Bool, true, false, ◌&&◌, ◌||◌}
use mathlib.Core.Logic.{◌≢◌, ◌↔◌}
use mathlib.Core.List.{List, [], ◌∷◌, ◌++◌}
use mathlib.Core.Option.{Option, none, some}
use native.Mathlib.Omega.{arith}
use goxic.Prelude.Tests.{◌==◌, if◌then◌else◌, is_some}
use goxic.Prelude.Lists.{All}

abbrev pub Bytes : Type 0
Bytes = List ℕ

-- The bytes of an ASCII literal.
abbrev pub codes : String → Bytes
codes String.[] = []
codes (String.◌∷◌ c s) = code c ∷ codes s

-- `==` on strings.
unfoldable pub text_eq : Bytes → Bytes → Bool
text_eq [] [] = true
text_eq [] (d ∷ t) = false
text_eq (c ∷ s) [] = false
text_eq (c ∷ s) (d ∷ t) = (c == d) && text_eq s t

pub text_eq_sound : (s t : Bytes) → text_eq s t ≡ true → s ≡ t
unfolding text_eq
text_eq_sound [] [] h = refl
text_eq_sound [] (d ∷ t) h = ground arith
text_eq_sound (c ∷ s) [] h = ground arith
text_eq_sound (c ∷ s) (d ∷ t) h = ground (arith, text_eq_sound s t)

pub text_eq_refl : (s : Bytes) → text_eq s s ≡ true
unfolding text_eq
text_eq_refl [] = refl
text_eq_refl (c ∷ s) = ground (arith, text_eq_refl s)

pub text_eq_iff : (s t : Bytes) → (text_eq s t ≡ true) ↔ (s ≡ t)
text_eq_iff s t = (text_eq_sound s t, λ e. rw e (text_eq_refl t))

abbrev pub Lacks : ℕ → Bytes → Type 0
Lacks b = All (λ c. c ≢ b)

-- `strings.HasPrefix`, and the rest of the text behind the prefix.
unfoldable pub strip_prefix : Bytes → Bytes → Option Bytes
strip_prefix [] s = some s
strip_prefix (p ∷ ps) [] = none
strip_prefix (p ∷ ps) (c ∷ s) = if p == c then strip_prefix ps s else none

pub strip_prefix-append : (p s : Bytes) → strip_prefix p (p ++ s) ≡ some s
unfolding strip_prefix
strip_prefix-append [] s = refl
strip_prefix-append (c ∷ p) s = ground (arith, strip_prefix-append p s)

pub strip_prefix_sound : (p s : Bytes) {r : Bytes} → strip_prefix p s ≡ some r → s ≡ p ++ r
unfolding strip_prefix
strip_prefix_sound [] s h = ground arith
strip_prefix_sound (c ∷ p) [] h = ground arith
strip_prefix_sound (c ∷ p) (d ∷ s) {r} h = ground (arith, strip_prefix_sound p s {r = r})

-- The longest run at the front that lacks the byte, and what follows it: what a greedy `[^b]+`
-- takes.
unfoldable pub span_not : ℕ → Bytes → Bytes × Bytes
span_not b [] = ([], [])
span_not b (c ∷ s) = let rest = span_not b s in if c == b then ([], c ∷ s) else (c ∷ rest.0, rest.1)

pub append-span_not : (b : ℕ) (s : Bytes) → (span_not b s).0 ++ (span_not b s).1 ≡ s
unfolding span_not
append-span_not b [] = refl
append-span_not b (c ∷ s) = ground (arith, append-span_not b s)

pub span_not-Lacks : (b : ℕ) (s : Bytes) → Lacks b (span_not b s).0
unfolding span_not
span_not-Lacks b [] = tt
span_not-Lacks b (c ∷ s) = ground (arith, span_not-Lacks b s)

-- A run that ends at the byte, or at the end of the text, is what `span_not` finds.
pub span_not-append_byte : (b : ℕ) (s t : Bytes) → Lacks b s → span_not b (s ++ b ∷ t) ≡ (s, b ∷ t)
unfolding span_not
span_not-append_byte b [] t h = ground arith
span_not-append_byte b (c ∷ s) t h = ground (arith, span_not-append_byte b s t h.1)

pub span_not_all : (b : ℕ) (s : Bytes) → Lacks b s → span_not b s ≡ (s, [])
unfolding span_not
span_not_all b [] h = refl
span_not_all b (c ∷ s) h = ground (arith, span_not_all b s h.1)

-- `strings.Contains`.
unfoldable pub contains : Bytes → Bytes → Bool
contains [] p = is_some (strip_prefix p [])
contains (c ∷ s) p = is_some (strip_prefix p (c ∷ s)) || contains s p

-- A byte occurs in a text.
unfoldable pub has_byte : ℕ → Bytes → Bool
has_byte b [] = false
has_byte b (c ∷ s) = (c == b) || has_byte b s

pub has_byte-Lacks : (b : ℕ) (s : Bytes) → has_byte b s ≡ false → Lacks b s
unfolding has_byte
has_byte-Lacks b [] h = tt
has_byte-Lacks b (c ∷ s) h = ground (arith, has_byte-Lacks b s)

pub Lacks-has_byte : (b : ℕ) (s : Bytes) → Lacks b s → has_byte b s ≡ false
unfolding has_byte
Lacks-has_byte b [] h = refl
Lacks-has_byte b (c ∷ s) h = ground (arith, Lacks-has_byte b s h.1)

-- What is put in front of a text hides nothing in it.
pub contains-append : (q s p : Bytes) → contains s p ≡ true → contains (q ++ s) p ≡ true
unfolding contains
contains-append [] s p h = h
contains-append (c ∷ q) s p h = let rest = contains-append q s p h in ground (arith, rest)
