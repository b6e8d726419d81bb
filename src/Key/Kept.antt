-- ===== src/Key/Kept.antt =====
-- A key that was fetched once is fetched again.
use goxic.Prelude.{ℕ, ◌≤◌, ◌≡◌, refl, ap, ◌∙◌, ◌∷◌, Option, none, some, Bytes, length, arith}
use goxic.Files.{
  Location, Node, file, Disk, Answer, done, missing, refused, stat, open_path, read_all, mkdir_all,
  create, write,
}
use goxic.Files.Opened.{open_path-write}
use goxic.Files.Made.{mkdir_all-Keeps}
use goxic.Key.{
  Crypto, Outcome, fetched, key_file, get_data_path, store_created, store_key, store_made, save_key,
  save_marshalled, generate_key, read_key, fetch_opened, fetch_priv_key,
}

module _ (crypto : Crypto) where
  open crypto use {PrivKey, marshal, unmarshal}

  -- The key is in its file, in a form that `UnmarshalPrivateKey` reads.
  abbrev Holds : Location → PrivKey → Disk → Type 0
  Holds data_dir priv d =
      (node : Node) × (open_path d (get_data_path data_dir key_file) ≡ done node)
      × (read_key crypto (read_all node) ≡ fetched priv)

  Holds-fetch :
      (data_dir : Location) (generated : Option PrivKey) (priv : PrivKey) (d : Disk)
      → Holds data_dir priv d
      → fetch_priv_key crypto data_dir generated d ≡ (d, fetched priv)
  unfolding fetch_priv_key fetch_opened
  Holds-fetch data_dir generated priv d (node, o, r) = rw (o, r) refl

  -- The key that is returned, and that its file holds.
  abbrev Stored : Location → PrivKey → PrivKey → Disk × Outcome PrivKey → Type 0
  Stored data_dir priv q r = r.1 ≡ fetched q → (priv ≡ q) × Holds data_dir priv r.0

  store_created-Stored :
      (data_dir : Location) (bytes : Bytes) (priv q : PrivKey) (r : Disk × Answer Unit)
      → unmarshal bytes ≡ some priv
      → (r.1 ≡ done _
          → (k : ℕ) × (open_path (write r.0 (key_file ∷ data_dir) bytes).0 (key_file ∷ data_dir)
              ≡ done (file k bytes)))
      → Stored data_dir priv q (store_created crypto (key_file ∷ data_dir) bytes priv r)
  unfolding store_created read_key
  store_created-Stored data_dir bytes priv q (d, done u) e w h =
      let (k, o) = w refl in (cc h, (file k bytes, o, rw e refl))
  store_created-Stored data_dir bytes priv q (d, missing) e w h = ground (arith, h)
  store_created-Stored data_dir bytes priv q (d, refused) e w h = ground (arith, h)

  store_key-Stored :
      (data_dir : Location) (bytes : Bytes) (priv q : PrivKey) (d : Disk)
      → unmarshal bytes ≡ some priv
      → length bytes ≤ d.space
      → Stored data_dir priv q (store_key crypto data_dir bytes priv d)
  unfolding store_key
  store_key-Stored data_dir bytes priv q d e l =
      store_created-Stored data_dir bytes priv q (create d (key_file ∷ data_dir)) e
        (open_path-write d key_file data_dir bytes l)

  store_made-Stored :
      (data_dir : Location) (bytes : Bytes) (priv q : PrivKey) (r : Disk × Answer Unit)
      → unmarshal bytes ≡ some priv
      → length bytes ≤ r.0.space
      → Stored data_dir priv q (store_made crypto data_dir bytes priv r)
  unfolding store_made
  store_made-Stored data_dir bytes priv q (d, done u) e l h =
      store_key-Stored data_dir bytes priv q d e l h
  store_made-Stored data_dir bytes priv q (d, missing) e l h = ground (arith, h)
  store_made-Stored data_dir bytes priv q (d, refused) e l h = ground (arith, h)

  save_key-Stored :
      (data_dir : Location) (bytes : Bytes) (priv q : PrivKey) (d : Disk) (a : Answer Node)
      → unmarshal bytes ≡ some priv
      → length bytes ≤ d.space
      → Stored data_dir priv q (save_key crypto data_dir bytes priv d a)
  unfolding save_key
  save_key-Stored data_dir bytes priv q d missing e l =
      store_made-Stored data_dir bytes priv q (mkdir_all d 438 data_dir) e
        (omega (arith, (mkdir_all-Keeps d 438 data_dir).1))
  save_key-Stored data_dir bytes priv q d refused e l = store_key-Stored data_dir bytes priv q d e l
  save_key-Stored data_dir bytes priv q d (done n) e l =
      store_key-Stored data_dir bytes priv q d e l

  module _
      (unmarshal-marshal : (priv : PrivKey) (bytes : Bytes)
        → marshal priv ≡ some bytes
        → unmarshal bytes ≡ some priv) where
    save_marshalled-Holds :
        (data_dir : Location) (priv q : PrivKey) (d : Disk) (m : Option Bytes)
        → marshal priv ≡ m
        → ((bytes : Bytes) → marshal priv ≡ some bytes → length bytes ≤ d.space)
        → (save_marshalled crypto data_dir priv d m).1 ≡ fetched q
        → Holds data_dir q (save_marshalled crypto data_dir priv d m).0
    unfolding save_marshalled
    save_marshalled-Holds data_dir priv q d none m l h = ground (arith, h)
    save_marshalled-Holds data_dir priv q d (some bytes) m l h =
        let (same, (node, o, r)) =
          save_key-Stored data_dir bytes priv q d (stat d data_dir) (unmarshal-marshal priv bytes m)
            (l bytes m) h in
        (node, o, r ∙ ap fetched same)

    generate_key-Holds :
        (data_dir : Location) (generated : Option PrivKey) (q : PrivKey) (d : Disk)
        → ((priv : PrivKey) (bytes : Bytes)
            → generated ≡ some priv
            → marshal priv ≡ some bytes
            → length bytes ≤ d.space)
        → (generate_key crypto data_dir generated d).1 ≡ fetched q
        → Holds data_dir q (generate_key crypto data_dir generated d).0
    unfolding generate_key
    generate_key-Holds data_dir none q d l h = ground (arith, h)
    generate_key-Holds data_dir (some priv) q d l h =
        save_marshalled-Holds data_dir priv q d (marshal priv) refl (λ bytes m. l priv bytes refl m)
          h

    fetch_opened-Holds :
        (data_dir : Location) (generated : Option PrivKey) (q : PrivKey) (d : Disk)
        (a : Answer Node)
        → open_path d (key_file ∷ data_dir) ≡ a
        → ((priv : PrivKey) (bytes : Bytes)
            → generated ≡ some priv
            → marshal priv ≡ some bytes
            → length bytes ≤ d.space)
        → (fetch_opened crypto data_dir generated d a).1 ≡ fetched q
        → Holds data_dir q (fetch_opened crypto data_dir generated d a).0
    unfolding fetch_opened
    fetch_opened-Holds data_dir generated q d refused o l h = ground (arith, h)
    fetch_opened-Holds data_dir generated q d (done node) o l h = (node, o, h)
    fetch_opened-Holds data_dir generated q d missing o l h =
        generate_key-Holds data_dir generated q d l h

    -- Where `UnmarshalPrivateKey` reads what `MarshalPrivateKey` wrote, and the disk has space for
    -- the key that is generated: when a start gets a key, from its file or as a new one, the next
    -- start gets the same key, whatever is generated then, and leaves the disk as it is.
    pub fetch_priv_key_again :
        (data_dir : Location) (first second : Option PrivKey) (priv : PrivKey) (d : Disk)
        → ((k : PrivKey) (bytes : Bytes)
            → first ≡ some k
            → marshal k ≡ some bytes
            → length bytes ≤ d.space)
        → (fetch_priv_key crypto data_dir first d).1 ≡ fetched priv
        → let d' = (fetch_priv_key crypto data_dir first d).0 in
          fetch_priv_key crypto data_dir second d' ≡ (d', fetched priv)
    unfolding fetch_priv_key
    fetch_priv_key_again data_dir first second priv d l h =
        Holds-fetch data_dir second priv _
          (fetch_opened-Holds data_dir first priv d (open_path d (key_file ∷ data_dir)) refl l h)
