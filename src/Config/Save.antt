-- ===== src/Config/Save.antt =====
-- `SaveConfig` of server/model/config.go. `json.MarshalIndent` is a parameter.
use goxic.Prelude.{◌∷◌, Option, none, some, Bytes}
use goxic.Files.{Location, Disk, Answer, done, missing, refused, mkdir_all, write_file}
use goxic.Config.Record.{Config}

-- The path of a file as the program is given it: its directory, none where `filepath.Dir` is ".",
-- and its name.
pub record FilePath : Type 0 where
  pub parent : Option Location
  pub name : Bytes

abbrev pub directory : Location → Option Location → Location
directory cwd none = cwd
directory cwd (some p) = p

-- Where it is, for the directory that the program runs in.
abbrev pub place : Location → FilePath → Location
place cwd path = path.name ∷ directory cwd path.parent

-- `if dir := filepath.Dir(path); dir != "." { os.MkdirAll(dir, 0755) }`.
unfoldable pub make_parent : Option Location → Disk → Disk × Answer Unit
make_parent none d = (d, done _)
make_parent (some p) d = mkdir_all d 493 p

pub data SaveError : Type 0 where
  no_directory : SaveError
  not_marshalled : SaveError
  not_written : SaveError

unfoldable pub save_result : Disk × Answer Unit → Disk × Option SaveError
save_result (d, done u) = (d, none)
save_result (d, missing) = (d, some not_written)
save_result (d, refused) = (d, some not_written)

-- Modes are 0755 and 0644.
unfoldable pub save_bytes : Location → Option Bytes → Disk × Answer Unit → Disk × Option SaveError
unfolding save_result
save_bytes path none (d, done u) = (d, some not_marshalled)
save_bytes path (some bytes) (d, done u) = save_result (write_file d 420 path bytes)
save_bytes path file (d, missing) = (d, some no_directory)
save_bytes path file (d, refused) = (d, some no_directory)

module _ (marshal : Config → Option Bytes) (cwd : Location) where
  unfoldable pub save_config : FilePath → Config → Disk → Disk × Option SaveError
  unfolding save_bytes make_parent
  save_config path c d = save_bytes (place cwd path) (marshal c) (make_parent path.parent d)
