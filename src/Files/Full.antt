-- ===== src/Files/Full.antt =====
-- What a write leaves in a new file when there is no space for all of it.
use goxic.Prelude.{
  ℕ, ◌+◌, ◌≡◌, ◌⊎◌, refl, ap, ◌∙◌, true, Bool-cases, inl, inr, [], ◌∷◌, Option, none, some, Bytes,
  take, arith,
}
use goxic.Files.{
  Location, Node, dir, file, Disk, Answer, done, missing, refused, may_write, put, enter, stat,
  found, opened, ◌>>=◌, open_path, open_in, open_file, truncate, truncate_node, write, created,
  create,
}
use goxic.Files.Frame.{put_at}
use goxic.Files.Opened.{create-IsOpen, write-IsOpen}

no_more : (n : ℕ) → n + 0 ≡ n
no_more n = omega arith

truncate_new :
    (d : Disk) (p : Location) (k : ℕ) → (truncate (put d p (file k [])) p).space ≡ d.space
unfolding truncate truncate_node
truncate_new d p k =
    ap (λ n. (truncate_node (put d p (file k [])) p n).space) (put_at d p (file k []))
    ∙ no_more d.space

module _ (d : Disk) (c : Bytes) (p : Location) where
  -- A file that was not there takes no space when it is created.
  created_new :
      (a : Answer ℕ) (n : Option Node)
      → n ≡ none
      → (created (c ∷ p) (open_in true d 438 (c ∷ p) a n)).0.space ≡ d.space
  unfolding created open_in
  created_new missing n e = refl
  created_new refused n e = refl
  created_new (done m) (some n) e = cc e
  created_new (done m) none e = elim (Bool-cases (may_write d m)) [
    | inl w ↦ rw w (truncate_new d (c ∷ p) 438)
    | inr w ↦ rw w refl
  ]

  unread_opened : (n : Node) → opened d n ≡ missing → ⊥
  unread_opened (dir m) h = ground (arith, h)
  unread_opened (file m content) h = ground (arith, h)

  unread_found : (n : Option Node) → (found n >>= opened d) ≡ missing → n ≡ none
  unread_found none h = refl
  unread_found (some n) h = absurd (unread_opened n h)

  unread :
      (a : Answer ℕ)
      → ((a >>= λ (m : ℕ). found (d.nodes (c ∷ p))) >>= opened d) ≡ missing
      → (a ≡ missing) ⊎ (d.nodes (c ∷ p) ≡ none)
  unread missing h = inl refl
  unread refused h = cc h
  unread (done m) h = inr (unread_found (d.nodes (c ∷ p)) h)

  create-space : open_path d (c ∷ p) ≡ missing → (create d (c ∷ p)).0.space ≡ d.space
  unfolding create open_file open_path stat
  create-space m = elim (unread (enter d p) m) [
    | inl e ↦ ap (λ a. (created (c ∷ p) (open_in true d 438 (c ∷ p) a (d.nodes (c ∷ p)))).0.space) e
    | inr e ↦ created_new (enter d p) (d.nodes (c ∷ p)) e
  ]

  -- What there is space for is written, and read back.
  pub open_path-write_full :
      (bytes : Bytes)
      → open_path d (c ∷ p) ≡ missing
      → (create d (c ∷ p)).1 ≡ done _
      → (k : ℕ) × (open_path (write (create d (c ∷ p)).0 (c ∷ p) bytes).0 (c ∷ p)
          ≡ done (file k (take d.space bytes)))
  open_path-write_full bytes m h =
      let (o, z) = create-IsOpen d c p h in
      (
        o.mode,
        write-IsOpen d (create d (c ∷ p)).0 c p bytes o z
            ∙ ap (λ n. done (file o.mode (take n bytes))) (create-space m),
      )
