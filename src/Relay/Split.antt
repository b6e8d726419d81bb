-- ===== src/Relay/Split.antt =====
-- `strings.Split` with a separator of at least one byte, and the text that a list of parts spells.
use goxic.Prelude.{
  ℕ, zero, suc, ◌≡◌, refl, ap, List, [], ◌∷◌, ◌++◌, append-nil, arith, Bytes, if◌then◌else◌,
  Option-cases, is_some, inl, inr, length, drop, drop-append_length, All, Lacks, strip_prefix,
  strip_prefix_sound, strip_prefix-append,
}

-- The first part and the others. The number counts the bytes of a separator still to be passed.
cut : Bytes → Bytes → ℕ → Bytes × List Bytes
cut sep [] k = ([], [])
cut sep (c ∷ s) (suc k) = cut sep s k
cut sep (c ∷ s) zero =
    let here = cut sep s 0 in
    let behind = cut sep s (length (drop 1 sep)) in
    if is_some (strip_prefix sep (c ∷ s)) then ([], behind.0 ∷ behind.1) else (c ∷ here.0, here.1)

pub split : Bytes → Bytes → Bytes × List Bytes
unfolding cut
split s sep = cut sep s 0

-- Each part behind a separator.
unfoldable pub joined : Bytes → List Bytes → Bytes
joined sep [] = []
joined sep (p ∷ ps) = sep ++ (p ++ joined sep ps)

module _ (b : ℕ) (word : Bytes) where
  abbrev sep : Bytes
  sep = b ∷ word

  cut-drop : (s : Bytes) (k : ℕ) → (cut sep s k).0 ++ joined sep (cut sep s k).1 ≡ drop k s
  unfolding cut joined
  cut-drop [] zero = refl
  cut-drop [] (suc k) = refl
  cut-drop (c ∷ s) (suc k) = cut-drop s k
  cut-drop (c ∷ s) zero = elim (Option-cases (strip_prefix sep (c ∷ s))) [
    | inl e ↦ rw e (ap (◌∷◌ c) (cut-drop s 0))
    | inr (r, e) ↦
        rw (e, cut-drop s (length word))
          (cc (
            ap (drop (length sep)) (strip_prefix_sound sep (c ∷ s) e),
            drop-append_length sep r,
            strip_prefix_sound sep (c ∷ s) e,
          ))
  ]

  -- The parts spell the text, for every text.
  pub joined-split : (s : Bytes) → (split s sep).0 ++ joined sep (split s sep).1 ≡ s
  unfolding split
  joined-split s = cut-drop s 0

  cut_skip : (xs ys : Bytes) → cut sep (xs ++ ys) (length xs) ≡ cut sep ys 0
  unfolding cut
  cut_skip [] ys = refl
  cut_skip (x ∷ xs) ys = cut_skip xs ys

  cut_at_sep : (ys : Bytes) → cut sep (sep ++ ys) 0 ≡ ([], (cut sep ys 0).0 ∷ (cut sep ys 0).1)
  unfolding cut
  cut_at_sep ys = rw (strip_prefix-append sep ys, cut_skip word ys)

  cut_part :
      (p t : Bytes) → Lacks b p → cut sep (p ++ t) 0 ≡ (p ++ (cut sep t 0).0, (cut sep t 0).1)
  unfolding cut strip_prefix
  cut_part [] t h = refl
  cut_part (c ∷ p) t h = ground (arith, cut_part p t h.1)

  cut-joined :
      (p : Bytes) (ps : List Bytes)
      → Lacks b p
      → All (Lacks b) ps
      → cut sep (p ++ joined sep ps) 0 ≡ (p, ps)
  unfolding joined
  cut-joined p [] h hs = rw (cut_part p [] h) (unfold cut in rw append-nil)
  cut-joined p (q ∷ ps) h hs = rw (
    cut_part p (sep ++ (q ++ joined sep ps)) h,
    cut_at_sep (q ++ joined sep ps),
    cut-joined q ps hs.0 hs.1,
    append-nil,
  )

  -- Parts without the separator's first byte are found again in what they spell.
  pub split-joined :
      (p : Bytes) (ps : List Bytes)
      → Lacks b p
      → All (Lacks b) ps
      → split (p ++ joined sep ps) sep ≡ (p, ps)
  unfolding split
  split-joined = cut-joined
