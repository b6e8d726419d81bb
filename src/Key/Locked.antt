-- ===== src/Key/Locked.antt =====
-- A first start without the data directory.
use goxic.Prelude.{
  ◌≡◌, ◌≢◌, ◌⊎◌, inl, inr, refl, ◌∙◌, false, List, [], ◌∷◌, Option, none, some, Bytes,
}
use goxic.Files.{
  Location, Disk, Answer, done, missing, refused, stat, open_path, mkdir_all, open_file, open_in,
  create, created,
}
use goxic.Files.Made.{mkdir_all-Keeps}
use goxic.Files.Blocked.{IsBlocked, stat-enter, mkdir_all-IsBlocked}
use goxic.Key.{
  Crypto, Outcome, fetched, key_file, store_created, store_key, store_made, save_key,
  save_marshalled, generate_key, fetch_opened, fetch_priv_key,
}

-- No file in it can be opened, or made.
IsBlocked-open_path :
    (d : Disk) (c : Bytes) (p : Location)
    → IsBlocked d p
    → ((open_path d (c ∷ p) ≡ missing) × (stat d p ≡ missing)) ⊎ (open_path d (c ∷ p) ≡ refused)
unfolding open_path stat
IsBlocked-open_path d c p (inl s) = inl (rw (stat-enter d p s) refl, s)
IsBlocked-open_path d c p (inr e) = inr (rw e refl)

IsBlocked-create :
    (d : Disk) (c : Bytes) (p : Location)
    → IsBlocked d p
    → (create d (c ∷ p) ≡ (d, missing)) ⊎ (create d (c ∷ p) ≡ (d, refused))
unfolding create open_file open_in created
IsBlocked-create d c p (inl s) = inl (rw (stat-enter d p s) refl)
IsBlocked-create d c p (inr e) = inr (rw e refl)

module _ (crypto : Crypto) where
  open crypto use {PrivKey, marshal}

  -- The directory stays blocked, and no key comes out.
  abbrev IsLocked : Location → Disk → Type 0
  IsLocked data_dir d = (d.is_root ≡ false) × IsBlocked d data_dir

  abbrev Refuses : Location → Disk × Outcome PrivKey → Type 0
  Refuses data_dir r = IsLocked data_dir r.0 × ((k : PrivKey) → r.1 ≢ fetched k)

  store_key-Refuses :
      (data_dir : Location) (bytes : Bytes) (priv : PrivKey) (d : Disk)
      → IsLocked data_dir d
      → Refuses data_dir (store_key crypto data_dir bytes priv d)
  unfolding store_key store_created
  store_key-Refuses data_dir bytes priv d l = elim (IsBlocked-create d key_file data_dir l.1) [
    | inl e ↦ rw e (l, λ k h. cc h)
    | inr e ↦ rw e (l, λ k h. cc h)
  ]

  store_made-Refuses :
      (data_dir : Location) (bytes : Bytes) (priv : PrivKey) (r : Disk × Answer Unit)
      → IsLocked data_dir r.0
      → Refuses data_dir (store_made crypto data_dir bytes priv r)
  unfolding store_made
  store_made-Refuses data_dir bytes priv (d, done u) l = store_key-Refuses data_dir bytes priv d l
  store_made-Refuses data_dir bytes priv (d, missing) l = (l, λ k h. cc h)
  store_made-Refuses data_dir bytes priv (d, refused) l = (l, λ k h. cc h)

  save_marshalled-Refuses :
      (data_dir : Location) (priv : PrivKey) (d : Disk) (m : Option Bytes)
      → IsLocked data_dir d
      → stat d data_dir ≡ missing
      → Refuses data_dir (save_marshalled crypto data_dir priv d m)
  unfolding save_marshalled save_key
  save_marshalled-Refuses data_dir priv d none l s = (l, λ k h. cc h)
  save_marshalled-Refuses data_dir priv d (some bytes) l s = rw s (
      store_made-Refuses data_dir bytes priv (mkdir_all d 438 data_dir)
        ((mkdir_all-Keeps d 438 data_dir).0 ∙ l.0, mkdir_all-IsBlocked d data_dir l.0 s))

  generate_key-Refuses :
      (data_dir : Location) (generated : Option PrivKey) (d : Disk)
      → IsLocked data_dir d
      → stat d data_dir ≡ missing
      → Refuses data_dir (generate_key crypto data_dir generated d)
  unfolding generate_key
  generate_key-Refuses data_dir none d l s = (l, λ k h. cc h)
  generate_key-Refuses data_dir (some priv) d l s =
      save_marshalled-Refuses data_dir priv d (marshal priv) l s

  fetch_priv_key-Refuses :
      (data_dir : Location) (generated : Option PrivKey) (d : Disk)
      → IsLocked data_dir d
      → Refuses data_dir (fetch_priv_key crypto data_dir generated d)
  unfolding fetch_priv_key fetch_opened
  fetch_priv_key-Refuses data_dir generated d l =
      elim (IsBlocked-open_path d key_file data_dir l.1) [
        | inl (o, s) ↦ rw o (generate_key-Refuses data_dir generated d l s)
        | inr o ↦ rw o (l, λ k h. cc h)
      ]

  -- The disk after the program was started, with a key generated at each start where one is wanted.
  abbrev pub after_starts : Location → List (Option PrivKey) → Disk → Disk
  after_starts data_dir [] d = d
  after_starts data_dir (g ∷ gs) d = after_starts data_dir gs (fetch_priv_key crypto data_dir g d).0

  after_starts-IsLocked :
      (data_dir : Location) (gs : List (Option PrivKey)) (d : Disk)
      → IsLocked data_dir d
      → IsLocked data_dir (after_starts data_dir gs d)
  after_starts-IsLocked data_dir [] d l = l
  after_starts-IsLocked data_dir (g ∷ gs) d l =
      after_starts-IsLocked data_dir gs (fetch_priv_key crypto data_dir g d).0
        (fetch_priv_key-Refuses data_dir g d l).0

  -- Where the program runs as an ordinary user and its data directory does not exist, no start gets
  -- a key, neither the first nor any later one, whichever of the directory's parents exist and
  -- whatever keys are generated.
  pub fetch_priv_key-locked :
      (data_dir : Location) (earlier : List (Option PrivKey)) (generated : Option PrivKey)
      (d : Disk)
      → d.is_root ≡ false
      → stat d data_dir ≡ missing
      → (k : PrivKey)
      → (fetch_priv_key crypto data_dir generated (after_starts data_dir earlier d)).1 ≢ fetched k
  fetch_priv_key-locked data_dir earlier generated d user s =
      (fetch_priv_key-Refuses data_dir generated (after_starts data_dir earlier d)
        (after_starts-IsLocked data_dir earlier d (user, inl s))).1
