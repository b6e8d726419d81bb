-- ===== src/Key/Cut.antt =====
-- A first start on a disk that has no space for the whole key.
use goxic.Prelude.{
  ℕ, ◌<◌, ◌≡◌, refl, sym, ap, subst, ◌∙◌, ◌∷◌, Option, none, some, Bytes, length, take,
}
use goxic.Files.{
  Location, Node, file, Disk, Answer, done, missing, refused, stat, open_path, create, write,
}
use goxic.Files.Full.{open_path-write_full}
use goxic.Key.{
  Crypto, fetched, failed, key_file, store_created, store_key, save_key, save_marshalled,
  generate_key, read_key, fetch_opened, fetch_priv_key,
}

module _ (crypto : Crypto) where
  open crypto use {PrivKey, marshal, unmarshal}

  -- The key's file cannot be read as a key, so no start gets one.
  abbrev Spoilt : Location → Disk → Type 0
  Spoilt data_dir d =
      (second : Option PrivKey) → fetch_priv_key crypto data_dir second d ≡ (d, failed)

  cut-Spoilt :
      (data_dir : Location) (k : ℕ) (bytes : Bytes) (d : Disk)
      → open_path d (key_file ∷ data_dir) ≡ done (file k bytes)
      → unmarshal bytes ≡ none
      → Spoilt data_dir d
  unfolding fetch_priv_key fetch_opened read_key
  cut-Spoilt data_dir k bytes d o u second = rw (o, u) refl

  store_created-Spoilt :
      (data_dir : Location) (bytes cut : Bytes) (priv : PrivKey) (r : Disk × Answer Unit)
      → (r.1 ≡ done _
          → (k : ℕ) × (open_path (write r.0 (key_file ∷ data_dir) bytes).0 (key_file ∷ data_dir)
              ≡ done (file k cut)))
      → unmarshal cut ≡ none
      → (store_created crypto (key_file ∷ data_dir) bytes priv r).1 ≡ fetched priv
      → Spoilt data_dir (store_created crypto (key_file ∷ data_dir) bytes priv r).0
  unfolding store_created
  store_created-Spoilt data_dir bytes cut priv (d, done u) w n h =
      let (k, o) = w refl in cut-Spoilt data_dir k cut _ o n
  store_created-Spoilt data_dir bytes cut priv (d, missing) w n h = cc h
  store_created-Spoilt data_dir bytes cut priv (d, refused) w n h = cc h

  -- What is called where there is no key yet, and the data directory is there.
  fetch_first :
      (data_dir : Location) (node : Node) (priv : PrivKey) (bytes : Bytes) (d : Disk)
      → open_path d (key_file ∷ data_dir) ≡ missing
      → stat d data_dir ≡ done node
      → marshal priv ≡ some bytes
      → fetch_priv_key crypto data_dir (some priv) d
        ≡ store_created crypto (key_file ∷ data_dir) bytes priv (create d (key_file ∷ data_dir))
  unfolding fetch_priv_key fetch_opened generate_key save_marshalled save_key store_key
  fetch_first data_dir node priv bytes d o s m = rw (o, m, s) refl

  -- The bug: where the data directory has no key yet, and the disk has less space than the key
  -- takes, and no proper part from the front of a marshalled key is read as a key: when the first
  -- start gets its key all the same, each later start fails, whatever is generated then, and leaves
  -- the disk as it is.
  pub fetch_priv_key-cut :
      (data_dir : Location) (node : Node) (priv : PrivKey) (bytes : Bytes) (second : Option PrivKey)
      (d : Disk)
      → open_path d (key_file ∷ data_dir) ≡ missing
      → stat d data_dir ≡ done node
      → marshal priv ≡ some bytes
      → d.space < length bytes
      → ((n : ℕ) → n < length bytes → unmarshal (take n bytes) ≡ none)
      → (fetch_priv_key crypto data_dir (some priv) d).1 ≡ fetched priv
      → let d' = (fetch_priv_key crypto data_dir (some priv) d).0 in
        fetch_priv_key crypto data_dir second d' ≡ (d', failed)
  fetch_priv_key-cut data_dir node priv bytes second d o s m l cut h =
      let path = key_file ∷ data_dir in
      let first = fetch_first data_dir node priv bytes d o s m in
      subst (λ r. Spoilt data_dir r.0) (sym first)
        (store_created-Spoilt data_dir bytes (take d.space bytes) priv (create d path)
          (open_path-write_full d key_file data_dir bytes o) (cut d.space l)
          (sym (ap (λ r. r.1) first) ∙ h))
        second
