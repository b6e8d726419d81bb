-- ===== src/Files/Made.antt =====
-- What `os.MkdirAll` leaves as it is.
use goxic.Prelude.{ℕ, ◌<◌, ◌≡◌, refl, ◌∙◌, false, [], ◌∷◌, length, Option, none, some, arith}
use goxic.Files.{
  Location, Node, dir, file, Disk, Answer, done, missing, refused, same_path, put, enter, stat,
  mkdir, mkdir_all, make_in, after_parents, make_all,
}
use goxic.Files.Frame.{same_path_deeper}

-- The same user and the same room.
abbrev Keeps : Disk → Disk → Type 0
Keeps d e = (e.is_root ≡ d.is_root) × (e.space ≡ d.space)

make_in-Keeps :
    (d : Disk) (mode : ℕ) (p : Location) (a : Answer ℕ) (n : Option Node)
    → Keeps d (make_in d mode p a n).0
unfolding make_in put
make_in-Keeps d mode p missing n = (refl, refl)
make_in-Keeps d mode p refused n = (refl, refl)
make_in-Keeps d mode p (done m) (some n) = (refl, refl)
make_in-Keeps d mode p (done m) none = ground arith

after_parents-Keeps :
    (d : Disk) (mode : ℕ) (p : Location) (r : Disk × Answer Unit)
    → Keeps d r.0
    → Keeps d (after_parents mode p r).0
unfolding after_parents mkdir
after_parents-Keeps d mode [] (d', done u) h = h
after_parents-Keeps d mode (c ∷ p) (d', done u) h =
    let (user, room) = make_in-Keeps d' mode (c ∷ p) (enter d' p) (d'.nodes (c ∷ p)) in
    (user ∙ h.0, room ∙ h.1)
after_parents-Keeps d mode p (d', missing) h = h
after_parents-Keeps d mode p (d', refused) h = h

make_all-Keeps :
    (d : Disk) (mode : ℕ) (p : Location) (r : Disk × Answer Unit) (a : Answer Node)
    → Keeps d r.0
    → Keeps d (make_all d mode p r a).0
unfolding make_all
make_all-Keeps d mode p r (done (dir m)) h = (refl, refl)
make_all-Keeps d mode p r (done (file m content)) h = (refl, refl)
make_all-Keeps d mode p r missing h = after_parents-Keeps d mode p r h
make_all-Keeps d mode p r refused h = after_parents-Keeps d mode p r h

pub mkdir_all-Keeps : (d : Disk) (mode : ℕ) (p : Location) → Keeps d (mkdir_all d mode p).0
unfolding mkdir_all
mkdir_all-Keeps d mode [] = make_all-Keeps d mode [] (d, done _) (stat d []) (refl, refl)
mkdir_all-Keeps d mode (c ∷ p) =
    make_all-Keeps d mode (c ∷ p) (mkdir_all d mode p) (stat d (c ∷ p)) (mkdir_all-Keeps d mode p)

-- What stands at a path that is deeper than the directory.
module _ (q : Location) where
  abbrev Leaves : Disk → Disk → Type 0
  Leaves d e = e.nodes q ≡ d.nodes q

  make_in-Leaves :
      (d : Disk) (mode : ℕ) (p : Location) (a : Answer ℕ) (n : Option Node)
      → same_path p q ≡ false
      → Leaves d (make_in d mode p a n).0
  unfolding make_in put
  make_in-Leaves d mode p missing n l = refl
  make_in-Leaves d mode p refused n l = refl
  make_in-Leaves d mode p (done m) (some n) l = refl
  make_in-Leaves d mode p (done m) none l = ground (arith, l)

  after_parents-Leaves :
      (d : Disk) (mode : ℕ) (p : Location) (r : Disk × Answer Unit)
      → same_path p q ≡ false
      → Leaves d r.0
      → Leaves d (after_parents mode p r).0
  unfolding after_parents mkdir
  after_parents-Leaves d mode [] (d', done u) l h = h
  after_parents-Leaves d mode (c ∷ p) (d', done u) l h =
      make_in-Leaves d' mode (c ∷ p) (enter d' p) (d'.nodes (c ∷ p)) l ∙ h
  after_parents-Leaves d mode p (d', missing) l h = h
  after_parents-Leaves d mode p (d', refused) l h = h

  make_all-Leaves :
      (d : Disk) (mode : ℕ) (p : Location) (r : Disk × Answer Unit) (a : Answer Node)
      → same_path p q ≡ false
      → Leaves d r.0
      → Leaves d (make_all d mode p r a).0
  unfolding make_all
  make_all-Leaves d mode p r (done (dir m)) l h = refl
  make_all-Leaves d mode p r (done (file m content)) l h = refl
  make_all-Leaves d mode p r missing l h = after_parents-Leaves d mode p r l h
  make_all-Leaves d mode p r refused l h = after_parents-Leaves d mode p r l h

  pub mkdir_all-Leaves :
      (d : Disk) (mode : ℕ) (p : Location)
      → length p < length q
      → (mkdir_all d mode p).0.nodes q ≡ d.nodes q
  unfolding mkdir_all
  mkdir_all-Leaves d mode [] l =
      make_all-Leaves d mode [] (d, done _) (stat d []) (same_path_deeper [] q l) refl
  mkdir_all-Leaves d mode (c ∷ p) l =
      make_all-Leaves d mode (c ∷ p) (mkdir_all d mode p) (stat d (c ∷ p))
        (same_path_deeper (c ∷ p) q l) (mkdir_all-Leaves d mode p (omega arith))
