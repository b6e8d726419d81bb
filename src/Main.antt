-- ===== src/Main.antt =====
-- The command line of main.go: its flags, the generated configuration, the log file, and the start.
pub mod Generated
use goxic.Prelude.{
  ℕ, Bool, true, false, ◌⊎◌, inl, inr, List, [], ◌∷◌, Option, none, some, Bytes, codes, is_empty,
  if◌then◌else◌,
}
use goxic.Files.{
  Location, Node, Disk, Answer, done, missing, refused, open_path, read_all, open_file,
}
use goxic.Config.Record.{Config, NetworkConfig, new_default_config, default_network}
use goxic.Config.Validate.{System}
use goxic.Config.Load.{LoadError, load_config, override_mode}
use goxic.Config.Save.{FilePath, place, make_parent, SaveError, no_directory, save_config}
use goxic.Node.Setup.{NodeType, node_type}

pub record Flags : Type 0 where
  pub config : FilePath
  pub mode : Bytes
  pub generate_config : Bool
  pub version : Bool
  pub help : Bool

-- How the program goes on: it ends with status 0 or by `log.Fatalf`, or it sets up a node, with its
-- log on standard error or in a file.
pub data Start : Type 0 where
  shows_version : Start
  shows_help : Start
  generated : Start
  not_generated : SaveError → Start
  not_loaded : LoadError → Start
  invalid_mode : Start
  no_log : Start
  sets_up : Config → NodeType → Option Location → Start

abbrev default_nodes : List Bytes
default_nodes =
    codes "/dnsaddr/bootstrap.libp2p.io/p2p/QmNnooDu7bfjPFoTZYxMNLWUQJyrVwtbZg5gBMjTezGAJN"
    ∷ codes "/dnsaddr/bootstrap.libp2p.io/p2p/QmQCU2EcMqAqQPR2i9bChDtGNJchTbq5TbXJJ16u19uLTa"
    ∷ codes "/dnsaddr/bootstrap.libp2p.io/p2p/QmbLHAnMoJPWSCR5Zhtx6BHJX9KiKNN6tpvbUcqanj75Nb"
    ∷ codes "/dnsaddr/bootstrap.libp2p.io/p2p/QmcZf59bWwK5XFi76CZX8cbJ4BhTzzA3gU1ZjYZcYW3dwt"
    ∷ codes "/ip4/104.131.131.82/tcp/4001/p2p/QmaCpDMGvV2BGHeYERUEnRQAwe3N8SzbUtfsmvsqQLuvuJ"
    ∷ []

abbrev pub generated_config : Config
generated_config = record new_default_config {
  network = record default_network { boostrap_nodes = default_nodes };
}

-- `LoadConfig` reads the file by `os.Open` and `io.ReadAll`.
unfoldable pub read_opened : Answer Node → Option Bytes
read_opened (done node) = read_all node
read_opened missing = none
read_opened refused = none

unfoldable pub read_file : Disk → Location → Option Bytes
unfolding read_opened
read_file d p = read_opened (open_path d p)

module _ (marshal : Config → Option Bytes) (cwd : Location) where
  -- Its own `MkdirAll` comes before that of `SaveConfig`.
  unfoldable pub save_generated : FilePath → Disk × Answer Unit → Disk × Option SaveError
  save_generated path (d, done u) = save_config marshal cwd path generated_config d
  save_generated path (d, missing) = (d, some no_directory)
  save_generated path (d, refused) = (d, some no_directory)

  unfoldable pub generate_default_config : FilePath → Disk → Disk × Option SaveError
  unfolding save_generated
  generate_default_config path d = save_generated path (make_parent path.parent d)

unfoldable pub start_generated : Disk × Option SaveError → Disk × Start
start_generated (d, none) = (d, generated)
start_generated (d, some e) = (d, not_generated e)

unfoldable opened_log : Location → Disk × Answer Unit → Disk × Option (Option Location)
opened_log path (d, done u) = (d, some (some path))
opened_log path (d, missing) = (d, none)
opened_log path (d, refused) = (d, none)

-- The flags of the log file are `O_CREATE`, `O_WRONLY` and `O_APPEND`.
unfoldable open_log : Location → Disk × Answer Unit → Disk × Option (Option Location)
unfolding opened_log
open_log path (d, done u) = opened_log path (open_file false d 420 path)
open_log path (d, missing) = (d, none)
open_log path (d, refused) = (d, none)

unfoldable pub start_logged : Config → Disk × Option (Option Location) → Disk × Start
start_logged c (d, none) = (d, no_log)
start_logged c (d, some log) = (d, sets_up c (node_type c) log)

module _ (to_path : Bytes → FilePath) (cwd : Location) where
  -- None for an error, else where the log goes.
  unfoldable pub initialize_logging : Bytes → Disk → Disk × Option (Option Location)
  unfolding open_log
  initialize_logging output_file d =
      if is_empty output_file
      then (d, some none)
      else open_log (place cwd (to_path output_file)) (make_parent (to_path output_file).parent d)

  unfoldable pub start_overridden : Option Config → Disk → Disk × Start
  unfolding start_logged
  start_overridden none d = (d, invalid_mode)
  start_overridden (some c) d = start_logged c (initialize_logging c.logging.output_file d)

  unfoldable pub start_loaded : Bytes → LoadError ⊎ Config → Disk → Disk × Start
  unfolding start_overridden
  start_loaded mode (inl e) d = (d, not_loaded e)
  start_loaded mode (inr c) d = start_overridden (override_mode mode c) d

module _ (sys : System) (marshal : Config → Option Bytes) (unmarshal : Bytes → Option Config)
    (to_path : Bytes → FilePath) (cwd : Location) where
  -- `main`, up to `SetupNode`.
  unfoldable pub start : Flags → Disk → Disk × Start
  unfolding start_generated start_loaded read_file
  start flags d =
      if flags.version
      then (d, shows_version)
      else if flags.help
      then (d, shows_help)
      else if flags.generate_config
      then start_generated (generate_default_config marshal cwd flags.config d)
      else start_loaded to_path cwd flags.mode
          (load_config sys unmarshal (read_file d (place cwd flags.config))) d
