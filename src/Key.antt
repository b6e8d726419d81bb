-- ===== src/Key.antt =====
-- `FetchPrivKey` of server/utils/key.go. What libp2p's crypto package does with keys is a parameter.
pub mod Kept
pub mod Locked
pub mod Cut
use goxic.Prelude.{ℕ, Bool, List, [], ◌∷◌, Option, none, some, Bytes, codes}
use goxic.Files.{
  Location, Node, Disk, Answer, done, missing, refused, stat, open_path, read_all, mkdir_all,
  create, write,
}

-- `crypto.MarshalPrivateKey`, which may fail, and `crypto.UnmarshalPrivateKey`.
pub record Crypto : Type 1 where
  pub PrivKey : Type 0
  pub marshal : PrivKey → Option Bytes
  pub unmarshal : Bytes → Option PrivKey

-- A panic comes from a method of a nil key.
pub data Outcome (K : Type 0) : Type 0 where
  fetched : K → Outcome K
  failed : Outcome K
  panics : Outcome K

abbrev pub key_file : Bytes
key_file = codes "priv.key"

-- `GetDataPath` of server/model/config.go, for a data directory that is absolute and clean.
abbrev pub get_data_path : Location → Bytes → Location
get_data_path data_dir filename = filename ∷ data_dir

module _ (crypto : Crypto) where
  open crypto use {PrivKey, marshal, unmarshal}

  -- The result of `Write` is not looked at.
  unfoldable pub store_created :
      Location → Bytes → PrivKey → Disk × Answer Unit → Disk × Outcome PrivKey
  store_created path bytes priv (d, done u) = ((write d path bytes).0, fetched priv)
  store_created path bytes priv (d, missing) = (d, failed)
  store_created path bytes priv (d, refused) = (d, failed)

  unfoldable pub store_key : Location → Bytes → PrivKey → Disk → Disk × Outcome PrivKey
  unfolding store_created
  store_key data_dir bytes priv d =
      let path = get_data_path data_dir key_file in store_created path bytes priv (create d path)

  unfoldable pub store_made :
      Location → Bytes → PrivKey → Disk × Answer Unit → Disk × Outcome PrivKey
  unfolding store_key
  store_made data_dir bytes priv (d, done u) = store_key data_dir bytes priv d
  store_made data_dir bytes priv (d, missing) = (d, failed)
  store_made data_dir bytes priv (d, refused) = (d, failed)

  -- The directory is made where `os.Stat` says that it does not exist.
  unfoldable pub save_key : Location → Bytes → PrivKey → Disk → Answer Node → Disk × Outcome PrivKey
  unfolding store_made store_key
  save_key data_dir bytes priv d missing = store_made data_dir bytes priv (mkdir_all d 438 data_dir)
  save_key data_dir bytes priv d refused = store_key data_dir bytes priv d
  save_key data_dir bytes priv d (done n) = store_key data_dir bytes priv d

  unfoldable pub save_marshalled : Location → PrivKey → Disk → Option Bytes → Disk × Outcome PrivKey
  unfolding save_key
  save_marshalled data_dir priv d none = (d, failed)
  save_marshalled data_dir priv d (some bytes) = save_key data_dir bytes priv d (stat d data_dir)

  -- `MarshalPrivateKey` calls a method of the key.
  unfoldable pub generate_key : Location → Option PrivKey → Disk → Disk × Outcome PrivKey
  unfolding save_marshalled
  generate_key data_dir none d = (d, panics)
  generate_key data_dir (some priv) d = save_marshalled data_dir priv d (marshal priv)

  unfoldable pub read_key : Option Bytes → Outcome PrivKey
  read_key none = failed
  read_key (some bytes) = elim (unmarshal bytes) [ none ↦ failed | some priv ↦ fetched priv ]

  unfoldable pub fetch_opened :
      Location → Option PrivKey → Disk → Answer Node → Disk × Outcome PrivKey
  unfolding generate_key read_key
  fetch_opened data_dir generated d refused = (d, failed)
  fetch_opened data_dir generated d (done node) = (d, read_key (read_all node))
  fetch_opened data_dir generated d missing = generate_key data_dir generated d

  -- `generated` is the key of `crypto.GenerateKeyPair`, none for its nil; its error is not looked at.
  unfoldable pub fetch_priv_key : Location → Option PrivKey → Disk → Disk × Outcome PrivKey
  unfolding fetch_opened
  fetch_priv_key data_dir generated d =
      fetch_opened data_dir generated d (open_path d (get_data_path data_dir key_file))
