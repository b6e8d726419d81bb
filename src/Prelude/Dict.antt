-- ===== src/Prelude/Dict.antt =====
-- A Go map as an association list with one entry for a key, over a test of equality on the keys.
use goxic.Prelude.{
  ◌≡◌, refl, ◌↔◌, Bool, true, List, [], ◌∷◌, Option, none, some, arith, if◌then◌else◌, All,
  Bool-cases, inl, inr, subst, some-eq-some,
}

module _ {K V : Type 0} (same : K → K → Bool) where
  -- `m[k]`, with the second result `ok`.
  unfoldable pub lookup : K → List (K × V) → Option V
  lookup k [] = none
  lookup k ((j, v) ∷ m) = if same j k then some v else lookup k m

  -- `m[k] = v`.
  unfoldable pub insert : K → V → List (K × V) → List (K × V)
  insert k v [] = (k, v) ∷ []
  insert k v ((j, w) ∷ m) = if same j k then (k, v) ∷ m else (j, w) ∷ insert k v m

module _ {K V : Type 0} (same : K → K → Bool)
    (same_iff : (a b : K) → (same a b ≡ true) ↔ (a ≡ b)) where
  pub lookup-insert :
      (k j : K) (v : V) (m : List (K × V))
      → lookup same j (insert same k v m) ≡ (if same k j then some v else lookup same j m)
  unfolding lookup insert
  lookup-insert k j v [] = refl
  lookup-insert k j v ((i, w) ∷ m) =
      ground (arith, same_iff k j, same_iff i k, same_iff i j, lookup-insert k j v m)

  -- What holds of every entry.
  pub All-insert :
      (P : K × V → Type 0) (k : K) (v : V) (m : List (K × V))
      → P (k, v)
      → All P m
      → All P (insert same k v m)
  unfolding insert
  All-insert P k v [] h a = (h, tt)
  All-insert P k v ((j, w) ∷ m) h a = elim (Bool-cases (same j k)) [
    | inl e ↦ rw (e, insert) (h, a.1)
    | inr e ↦ rw (e, insert) (a.0, All-insert P k v m h a.1)
  ]

  pub All-lookup :
      (P : K × V → Type 0) (k : K) (v : V) (m : List (K × V))
      → All P m
      → lookup same k m ≡ some v
      → P (k, v)
  unfolding lookup
  All-lookup P k v [] a h = cc h
  All-lookup P k v ((j, w) ∷ m) a h = elim (Bool-cases (same j k)) [
    | inl e ↦
        let here : w ≡ v = some-eq-some (rw (e, lookup) at h) in
        subst (λ x. P (x, v)) ((same_iff j k).0 e) (subst (λ y. P (j, y)) here a.0)
    | inr e ↦ All-lookup P k v m a.1 (rw (e, lookup) at h)
  ]
