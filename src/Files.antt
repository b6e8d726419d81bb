-- ===== src/Files.antt =====
-- The files that the program works on: the calls of Go's os package that it makes, on a disk. A path
-- is absolute and clean; its innermost name comes first, so that the directory of `c ∷ p` is `p`.
pub mod Frame
pub mod Blocked
pub mod Opened
pub mod Full
pub mod Made
use goxic.Prelude.{
  ℕ, ◌+◌, ◌-◌, ◌++◌, ◌/◌, ◌%◌, Bool, true, false, not, ◌&&◌, ◌||◌, List, [], ◌∷◌, Option, none,
  some, Bytes, ◌==◌, if◌then◌else◌, length, take, ltb, text_eq,
}

abbrev pub Location : Type 0
Location = List Bytes

-- A directory with its mode, or a file with its mode and content.
pub data Node : Type 0 where
  dir : ℕ → Node
  file : ℕ → Bytes → Node

-- Modes are read by the owner's bits, and the superuser passes every test of them. `space` is the
-- number of bytes that can still be written.
pub record Disk : Type 0 where
  pub is_root : Bool
  pub nodes : Location → Option Node
  pub space : ℕ

-- What a call comes to: nil, `os.ErrNotExist`, or another error.
pub data Answer (A : Type 0) : Type 0 where
  done : A → Answer A
  missing : Answer A
  refused : Answer A

infixl 5 ◌>>=◌
abbrev pub ◌>>=◌ : {A B : Type 0} → Answer A → (A → Answer B) → Answer B
done a >>= f = f a
missing >>= f = missing
refused >>= f = refused

abbrev pub may_read : Disk → ℕ → Bool
may_read d m = d.is_root || (m / 256 % 2 == 1)

abbrev pub may_write : Disk → ℕ → Bool
may_write d m = d.is_root || (m / 128 % 2 == 1)

abbrev may_enter : Disk → ℕ → Bool
may_enter d m = d.is_root || (m / 64 % 2 == 1)

pub same_path : Location → Location → Bool
same_path [] [] = true
same_path [] (c ∷ q) = false
same_path (c ∷ p) [] = false
same_path (c ∷ p) (e ∷ q) = text_eq c e && same_path p q

-- The disk with a node put at a path.
unfoldable pub put : Disk → Location → Node → Disk
unfolding same_path
put d p n = record d { nodes = λ q. if same_path p q then some n else d.nodes q }

-- A name is looked up in a directory that can be entered.
abbrev pub entered : Disk → Option Node → Answer ℕ
entered d none = missing
entered d (some (file m content)) = refused
entered d (some (dir m)) = if may_enter d m then done m else refused

abbrev pub found : Option Node → Answer Node
found none = missing
found (some n) = done n

-- The mode of a directory, if it can be reached and entered.
unfoldable pub enter : Disk → Location → Answer ℕ
enter d [] = entered d (d.nodes [])
enter d (c ∷ p) = enter d p >>= λ (m : ℕ). entered d (d.nodes (c ∷ p))

-- `os.Stat`.
unfoldable pub stat : Disk → Location → Answer Node
stat d [] = found (d.nodes [])
stat d (c ∷ p) = enter d p >>= λ (m : ℕ). found (d.nodes (c ∷ p))

abbrev pub opened : Disk → Node → Answer Node
opened d (dir m) = if may_read d m then done (dir m) else refused
opened d (file m content) = if may_read d m then done (file m content) else refused

-- `os.Open`, which opens a directory too.
unfoldable pub open_path : Disk → Location → Answer Node
open_path d p = stat d p >>= opened d

-- `io.ReadAll`.
abbrev pub read_all : Node → Option Bytes
read_all (dir m) = none
read_all (file m content) = some content

-- A new directory, given the one it is made in and what stands at its path.
unfoldable pub make_in : Disk → ℕ → Location → Answer ℕ → Option Node → Disk × Answer Unit
unfolding put
make_in d mode path missing n = (d, missing)
make_in d mode path refused n = (d, refused)
make_in d mode path (done m) (some n) = (d, refused)
make_in d mode path (done m) none =
    if may_write d m then (put d path (dir mode), done _) else (d, refused)

-- `os.Mkdir`.
unfoldable pub mkdir : Disk → ℕ → Location → Disk × Answer Unit
unfolding make_in
mkdir d mode [] = (d, refused)
mkdir d mode (c ∷ p) = make_in d mode (c ∷ p) (enter d p) (d.nodes (c ∷ p))

unfoldable pub after_parents : ℕ → Location → Disk × Answer Unit → Disk × Answer Unit
unfolding mkdir
after_parents mode path (d, done u) = mkdir d mode path
after_parents mode path (d, missing) = (d, missing)
after_parents mode path (d, refused) = (d, refused)

-- Nothing is done where the directory exists; else its parents are made first.
unfoldable pub make_all :
    Disk → ℕ → Location → Disk × Answer Unit → Answer Node → Disk × Answer Unit
unfolding after_parents
make_all d mode path parents (done (dir m)) = (d, done _)
make_all d mode path parents (done (file m content)) = (d, refused)
make_all d mode path parents missing = after_parents mode path parents
make_all d mode path parents refused = after_parents mode path parents

-- `os.MkdirAll`.
unfoldable pub mkdir_all : Disk → ℕ → Location → Disk × Answer Unit
unfolding make_all stat
mkdir_all d mode [] = make_all d mode [] (d, done _) (stat d [])
mkdir_all d mode (c ∷ p) = make_all d mode (c ∷ p) (mkdir_all d mode p) (stat d (c ∷ p))

-- The file that is there, or a new one, given the directory and what stands at the path.
unfoldable pub open_in : Bool → Disk → ℕ → Location → Answer ℕ → Option Node → Disk × Answer Unit
unfolding put
open_in both d mode path missing n = (d, missing)
open_in both d mode path refused n = (d, refused)
open_in both d mode path (done m) (some (dir k)) = (d, refused)
open_in both d mode path (done m) (some (file k content)) =
    (d, if may_write d k && (not both || may_read d k) then done _ else refused)
open_in both d mode path (done m) none =
    if may_write d m then (put d path (file mode []), done _) else (d, refused)

-- `os.OpenFile` with `O_CREATE`; `both` says whether the file is opened for reading too.
unfoldable pub open_file : Bool → Disk → ℕ → Location → Disk × Answer Unit
unfolding open_in
open_file both d mode [] = (d, refused)
open_file both d mode (c ∷ p) = open_in both d mode (c ∷ p) (enter d p) (d.nodes (c ∷ p))

unfoldable pub truncate_node : Disk → Location → Option Node → Disk
unfolding put
truncate_node d p (some (file m content)) = record (put d p (file m [])) {
  space = d.space + length content;
}
truncate_node d p (some (dir m)) = d
truncate_node d p none = d

-- The flag `O_TRUNC` at a file that is open.
unfoldable pub truncate : Disk → Location → Disk
unfolding truncate_node
truncate d p = truncate_node d p (d.nodes p)

unfoldable pub write_node : Disk → Location → Bytes → Option Node → Disk × Answer Unit
unfolding put
write_node d p bytes (some (file m content)) = (
  record (put d p (file m (content ++ take d.space bytes))) { space = d.space - length bytes },
  if ltb d.space (length bytes) then refused else done _,
)
write_node d p bytes (some (dir m)) = (d, refused)
write_node d p bytes none = (d, refused)

-- `Write` at the end of a file that is open: what there is space for.
unfoldable pub write : Disk → Location → Bytes → Disk × Answer Unit
unfolding write_node
write d p bytes = write_node d p bytes (d.nodes p)

unfoldable pub created : Location → Disk × Answer Unit → Disk × Answer Unit
unfolding truncate
created p (d, done u) = (truncate d p, done _)
created p (d, missing) = (d, missing)
created p (d, refused) = (d, refused)

-- `os.Create`.
unfoldable pub create : Disk → Location → Disk × Answer Unit
unfolding open_file created
create d p = created p (open_file true d 438 p)

unfoldable pub write_opened : Location → Bytes → Disk × Answer Unit → Disk × Answer Unit
unfolding truncate write
write_opened p bytes (d, done u) = write (truncate d p) p bytes
write_opened p bytes (d, missing) = (d, missing)
write_opened p bytes (d, refused) = (d, refused)

-- `os.WriteFile`.
unfoldable pub write_file : Disk → ℕ → Location → Bytes → Disk × Answer Unit
unfolding open_file write_opened
write_file d mode p bytes = write_opened p bytes (open_file false d mode p)
