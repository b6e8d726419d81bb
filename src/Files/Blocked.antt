-- ===== src/Files/Blocked.antt =====
-- A directory that `os.MkdirAll` makes with a mode without the execute bit.
use goxic.Prelude.{
  ℕ, ◌≡◌, ◌⊎◌, inl, inr, refl, ap, ◌∙◌, false, [], ◌∷◌, Option, none, some, Bytes, arith,
  Bool-cases,
}
use goxic.Files.{
  Location, Node, dir, file, Disk, Answer, done, missing, refused, may_write, ◌>>=◌, put, entered,
  found, enter, stat, mkdir, mkdir_all, make_in, after_parents, make_all,
}
use goxic.Files.Frame.{put_at, put-Agree, enter-Agree}

-- Nothing in it can be reached: it is not there, or it cannot be entered.
abbrev pub IsBlocked : Disk → Location → Type 0
IsBlocked d p = (stat d p ≡ missing) ⊎ (enter d p ≡ refused)

entered-found : (d : Disk) (n : Option Node) → found n ≡ missing → entered d n ≡ missing
entered-found d none h = refl
entered-found d (some n) h = ground (arith, h)

pub stat-enter : (d : Disk) (p : Location) → stat d p ≡ missing → enter d p ≡ missing
unfolding stat enter
stat-enter d [] h = entered-found d (d.nodes []) h
stat-enter d (c ∷ p) h = through (enter d p) h
  where
    through :
        (a : Answer ℕ)
        → (a >>= λ (m : ℕ). found (d.nodes (c ∷ p))) ≡ missing
        → (a >>= λ (m : ℕ). entered d (d.nodes (c ∷ p))) ≡ missing
    through (done m) h = entered-found d (d.nodes (c ∷ p)) h
    through missing h = refl
    through refused h = ground (arith, h)

entered_missing : (d : Disk) (n : Option Node) → entered d n ≡ missing → n ≡ none
entered_missing d none h = refl
entered_missing d (some (file m content)) h = ground (arith, h)
entered_missing d (some (dir m)) h = ground (arith, h)

entered_done : (d : Disk) (n : Option Node) (k : ℕ) → entered d n ≡ done k → n ≡ some (dir k)
entered_done d none k h = ground (arith, h)
entered_done d (some (file m content)) k h = ground (arith, h)
entered_done d (some (dir m)) k h = ground (arith, h)

enter-stat : (d : Disk) (p : Location) → enter d p ≡ missing → stat d p ≡ missing
unfolding stat enter
enter-stat d [] h = ap found (entered_missing d (d.nodes []) h)
enter-stat d (c ∷ p) h = through (enter d p) h
  where
    through :
        (a : Answer ℕ)
        → (a >>= λ (m : ℕ). entered d (d.nodes (c ∷ p))) ≡ missing
        → (a >>= λ (m : ℕ). found (d.nodes (c ∷ p))) ≡ missing
    through (done m) h = ap found (entered_missing d (d.nodes (c ∷ p)) h)
    through missing h = refl
    through refused h = ground (arith, h)

enter-stat_done : (d : Disk) (p : Location) (k : ℕ) → enter d p ≡ done k → stat d p ≡ done (dir k)
unfolding stat enter
enter-stat_done d [] k h = ap found (entered_done d (d.nodes []) k h)
enter-stat_done d (c ∷ p) k h = through (enter d p) h
  where
    through :
        (a : Answer ℕ)
        → (a >>= λ (m : ℕ). entered d (d.nodes (c ∷ p))) ≡ done k
        → (a >>= λ (m : ℕ). found (d.nodes (c ∷ p))) ≡ done (dir k)
    through (done m) h = ap found (entered_done d (d.nodes (c ∷ p)) k h)
    through missing h = ground (arith, h)
    through refused h = ground (arith, h)

-- What is blocked is blocked for all that is in it.
IsBlocked-enter :
    (d : Disk) (p : Location) → IsBlocked d p → (enter d p ≡ missing) ⊎ (enter d p ≡ refused)
IsBlocked-enter d p (inl s) = inl (stat-enter d p s)
IsBlocked-enter d p (inr e) = inr e

child-IsBlocked : (d : Disk) (c : Bytes) (p : Location) → IsBlocked d p → IsBlocked d (c ∷ p)
unfolding stat enter
child-IsBlocked d c p (inl s) = inl (rw (stat-enter d p s) refl)
child-IsBlocked d c p (inr e) = inr (rw e refl)

module _ (d : Disk) (user : d.is_root ≡ false) where
  -- Mode 0666 has no execute bit.
  put-IsBlocked :
      (c : Bytes) (p : Location) (m : ℕ)
      → enter d p ≡ done m
      → IsBlocked (put d (c ∷ p) (dir 438)) (c ∷ p)
  unfolding enter put
  put-IsBlocked c p m e =
      let new = put d (c ∷ p) (dir 438) in
      let reached : enter new p ≡ done m = enter-Agree new d p (put-Agree d c p (dir 438)) ∙ e in
      inr (rw (reached, put_at d (c ∷ p) (dir 438), user) refl)

  make_in-IsBlocked :
      (c : Bytes) (p : Location) (m : ℕ) (n : Option Node)
      → enter d p ≡ done m
      → d.nodes (c ∷ p) ≡ n
      → stat d (c ∷ p) ≡ missing
      → IsBlocked (make_in d 438 (c ∷ p) (done m) n).0 (c ∷ p)
  unfolding make_in
  make_in-IsBlocked c p m (some n) e f s = inl s
  make_in-IsBlocked c p m none e f s = elim (Bool-cases (may_write d m)) [
    | inl w ↦ rw w (put-IsBlocked c p m e)
    | inr w ↦ rw w (inl s)
  ]

make_in-IsBlocked_unless :
    (d : Disk) (c : Bytes) (p : Location) (a : Answer ℕ)
    → (a ≡ missing) ⊎ (a ≡ refused)
    → IsBlocked d (c ∷ p)
    → IsBlocked (make_in d 438 (c ∷ p) a (d.nodes (c ∷ p))).0 (c ∷ p)
unfolding make_in
make_in-IsBlocked_unless d c p a (inl e) b = rw e b
make_in-IsBlocked_unless d c p a (inr e) b = rw e b

-- The parents are blocked, whatever came of them.
after_parents-IsBlocked :
    (c : Bytes) (p : Location) (r : Disk × Answer Unit)
    → IsBlocked r.0 p
    → IsBlocked (after_parents 438 (c ∷ p) r).0 (c ∷ p)
unfolding after_parents mkdir
after_parents-IsBlocked c p (d, done u) b =
    make_in-IsBlocked_unless d c p (enter d p) (IsBlocked-enter d p b) (child-IsBlocked d c p b)
after_parents-IsBlocked c p (d, missing) b = child-IsBlocked d c p b
after_parents-IsBlocked c p (d, refused) b = child-IsBlocked d c p b

stat-refused :
    (d : Disk) (c : Bytes) (p : Location) → enter d p ≡ refused → stat d (c ∷ p) ≡ refused
unfolding stat
stat-refused d c p e = rw e refl

mkdir_all_there :
    (d : Disk) (mode : ℕ) (p : Location) (m : ℕ)
    → enter d p ≡ done m
    → mkdir_all d mode p ≡ (d, done _)
unfolding mkdir_all make_all
mkdir_all_there d mode [] m e = rw (enter-stat_done d [] m e) refl
mkdir_all_there d mode (c ∷ p) m e = rw (enter-stat_done d (c ∷ p) m e) refl

mkdir-IsBlocked :
    (d : Disk) (c : Bytes) (p : Location) (m : ℕ)
    → d.is_root ≡ false
    → enter d p ≡ done m
    → stat d (c ∷ p) ≡ missing
    → IsBlocked (mkdir d 438 (c ∷ p)).0 (c ∷ p)
unfolding mkdir
mkdir-IsBlocked d c p m user e s = rw e (make_in-IsBlocked d user c p m (d.nodes (c ∷ p)) e refl s)

parent-IsBlocked :
    (d : Disk) (c : Bytes) (p : Location) (a : Answer ℕ)
    → d.is_root ≡ false
    → stat d (c ∷ p) ≡ missing
    → enter d p ≡ a
    → (stat d p ≡ missing → IsBlocked (mkdir_all d 438 p).0 p)
    → IsBlocked (after_parents 438 (c ∷ p) (mkdir_all d 438 p)).0 (c ∷ p)
unfolding after_parents
parent-IsBlocked d c p missing user s e ih =
    after_parents-IsBlocked c p (mkdir_all d 438 p) (ih (enter-stat d p e))
parent-IsBlocked d c p refused user s e ih = ground (arith, s, stat-refused d c p e)
parent-IsBlocked d c p (done m) user s e ih =
    rw (mkdir_all_there d 438 p m e) (mkdir-IsBlocked d c p m user e s)

-- For a user, a directory that was missing is blocked after `os.MkdirAll` with mode 0666, however
-- many of its parents are there.
pub mkdir_all-IsBlocked :
    (d : Disk) (p : Location)
    → d.is_root ≡ false
    → stat d p ≡ missing
    → IsBlocked (mkdir_all d 438 p).0 p
unfolding mkdir_all make_all after_parents mkdir
mkdir_all-IsBlocked d [] user s = rw s (inl s)
mkdir_all-IsBlocked d (c ∷ p) user s =
    rw s (parent-IsBlocked d c p (enter d p) user s refl (mkdir_all-IsBlocked d p user))
