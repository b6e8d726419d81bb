-- ===== src/Tests/Main.antt =====
-- The start of the program at concrete inputs.
use goxic.Prelude.{◌≡◌, refl, false, [], ◌∷◌, Option, none, some, Bytes, codes, text_eq}
use goxic.Files.{Location, dir, Disk, put, enter, mkdir_all, write_file}
use goxic.Config.Record.{Config, client_mode}
use goxic.Config.Load.Usable.{IsUsable}
use goxic.Config.Save.{FilePath, place, make_parent, save_config}
use goxic.Node.Setup.{node_type_client}
use goxic.Main.{generated, generated_config, sets_up, start, generate_default_config}
use goxic.Main.Generated.{generating, plainly, start-generated}
use goxic.Tests.Config.{unix, unix-is_abs}

-- A parser and a printer that know one text.
abbrev braces : Bytes
braces = codes "{}"

abbrev pub printed : Config → Option Bytes
printed c = some braces

abbrev parsed : Bytes → Option Config
parsed bytes = some generated_config

abbrev pub to_path : Bytes → FilePath
to_path name = record { parent = none; name = name }

abbrev pub srv : Location
srv = codes "srv" ∷ []

-- In a directory that is not there yet.
abbrev conf : FilePath
conf = record { parent = some (codes "conf" ∷ srv); name = codes "goxic.json" }

abbrev pub srv_disk : Disk
srv_disk =
    put (put (record { is_root = false; nodes = λ p. none; space = 9 }) [] (dir 493)) srv (dir 493)

generates : (start unix printed parsed to_path srv (generating conf) srv_disk).1 ≡ generated
unfolding start generate_default_config make_parent mkdir_all enter text_eq save_config write_file
generates = refl

nothing_there : srv_disk.nodes (place srv conf) ≡ none
unfolding put text_eq
nothing_there = refl

start-generated_example :
    let d' = (start unix printed parsed to_path srv (generating conf) srv_disk).0 in
    (c : Config) × (start unix printed parsed to_path srv (plainly conf) d'
      ≡ (d', sets_up c node_type_client none))
    × IsUsable c
    × (c.mode ≡ client_mode)
start-generated_example =
    start-generated unix unix-is_abs refl (refl, refl) (λ e. cc e) printed parsed to_path srv
      (λ bytes e. refl) conf srv_disk nothing_there generates
