-- ===== src/Tests/Key.antt =====
-- `FetchPrivKey` on small disks, and its theorems there.
use goxic.Prelude.{
  ℕ, zero, suc, ◌<◌, take, ◌≤◌, ◌≡◌, ◌≢◌, refl, false, [], ◌∷◌, Option, none, some, Bytes, codes,
  length, arith, text_eq, some-eq-some, subst,
}
use goxic.Files.{Location, dir, Disk, done, missing, stat, put, enter, open_path, create}
use goxic.Key.{Crypto, fetched, failed, fetch_priv_key}
use goxic.Key.Cut.{fetch_priv_key-cut}
use goxic.Key.Kept.{fetch_priv_key_again}
use goxic.Key.Locked.{after_starts, fetch_priv_key-locked}

-- Keys are numbers, written as three bytes.
abbrev plain_unmarshal : Bytes → Option ℕ
plain_unmarshal (a ∷ b ∷ c ∷ []) = some a
plain_unmarshal other = none

abbrev plain : Crypto
plain = record { PrivKey = ℕ; marshal = λ k. some (k ∷ 0 ∷ 0 ∷ []); unmarshal = plain_unmarshal }

plain_lem : (k : ℕ) (bytes : Bytes) → plain.marshal k ≡ some bytes → plain.unmarshal bytes ≡ some k
plain_lem k bytes h = subst (λ (b : Bytes). plain_unmarshal b ≡ some k) (some-eq-some h) refl

short :
    (k : ℕ) (bytes : Bytes) → some 7 ≡ some k → plain.marshal k ≡ some bytes → length bytes ≤ 100
short k bytes e h = subst (λ (b : Bytes). length b ≤ 100) (some-eq-some h) (omega arith)

-- A home directory, and the data directory in it.
abbrev home : Location
home = codes "home" ∷ []

abbrev goxic_dir : Location
goxic_dir = codes ".goxic" ∷ home

abbrev bare : ℕ → Disk
bare space = record { is_root = false; nodes = λ p. none; space = space }

abbrev with_home : ℕ → Disk
with_home space = put (put (bare space) [] (dir 493)) home (dir 493)

abbrev with_dir : ℕ → Disk
with_dir space = put (with_home space) goxic_dir (dir 448)

first_start : (fetch_priv_key plain goxic_dir (some 7) (with_dir 100)).1 ≡ fetched 7
unfolding fetch_priv_key open_path stat enter put text_eq create
first_start = refl

fetch_priv_key_again_example :
    let d' = (fetch_priv_key plain goxic_dir (some 7) (with_dir 100)).0 in
    fetch_priv_key plain goxic_dir (some 8) d' ≡ (d', fetched 7)
unfolding put
fetch_priv_key_again_example =
    fetch_priv_key_again plain plain_lem goxic_dir (some 7) (some 8) 7 (with_dir 100) short
      first_start

no_directory : stat (with_home 100) goxic_dir ≡ missing
unfolding stat enter put text_eq
no_directory = refl

fetch_priv_key-locked_example :
    (fetch_priv_key plain goxic_dir
      (some 8)
      (after_starts plain goxic_dir (some 7 ∷ []) (with_home 100))).1
    ≢ fetched 8
unfolding put
fetch_priv_key-locked_example =
    fetch_priv_key-locked plain goxic_dir (some 7 ∷ []) (some 8) (with_home 100) refl no_directory 8

-- Two of three bytes.
no_key : open_path (with_dir 2) (codes "priv.key" ∷ goxic_dir) ≡ missing
unfolding open_path stat enter put text_eq
no_key = refl

there : stat (with_dir 2) goxic_dir ≡ done (dir 448)
unfolding stat enter put text_eq
there = refl

cut_key : (n : ℕ) → n < 3 → plain.unmarshal (take n (7 ∷ 0 ∷ 0 ∷ [])) ≡ none
cut_key zero l = refl
cut_key (suc zero) l = refl
cut_key (suc (suc zero)) l = refl
cut_key (suc (suc (suc n))) l = absurd (omega (arith, l))

full_start : (fetch_priv_key plain goxic_dir (some 7) (with_dir 2)).1 ≡ fetched 7
unfolding fetch_priv_key open_path stat enter put text_eq create
full_start = refl

fetch_priv_key-cut_example :
    let d' = (fetch_priv_key plain goxic_dir (some 7) (with_dir 2)).0 in
    fetch_priv_key plain goxic_dir (some 8) d' ≡ (d', failed)
unfolding put
fetch_priv_key-cut_example =
    fetch_priv_key-cut plain goxic_dir (dir 448) 7 (7 ∷ 0 ∷ 0 ∷ []) (some 8) (with_dir 2) no_key
      there refl (omega arith) cut_key full_start
