-- ===== src/Config/Load.antt =====
-- `LoadConfig` of server/model/config.go, and the `-mode` flag of main.go. Reading the file and
-- parsing JSON are parameters.
pub mod Usable
use goxic.Prelude.{
  ◌⊎◌, inl, inr, Bool, not, List, [], ◌∷◌, Option, none, some, Bytes, is_empty, if◌then◌else◌,
}
use goxic.Config.Record.{Config}
use goxic.Config.Defaults.{apply_defaults}
use goxic.Config.Validate.{System, ConfigError, validate, one_of, modes}

pub data LoadError : Type 0 where
  unreadable : LoadError
  not_json : LoadError
  not_valid : ConfigError → LoadError

module _ (sys : System) where
  unfoldable pub validated : Config → LoadError ⊎ Config
  validated c = elim ((validate sys c).1) [
    | some e ↦ inl (not_valid e)
    | none ↦ inr ((validate sys c).0)
  ]

  -- `LoadConfig`, with the file's bytes, if it can be read, and the parser.
  unfoldable pub load_config : (Bytes → Option Config) → Option Bytes → LoadError ⊎ Config
  unfolding validated
  load_config unmarshal none = inl unreadable
  load_config unmarshal (some file) = elim (unmarshal file) [
    | none ↦ inl not_json
    | some c ↦ validated (apply_defaults c)
  ]

-- The flag, which is empty where it was not given; another mode ends the program.
unfoldable pub override_mode : Bytes → Config → Option Config
override_mode mode c =
    if is_empty mode
    then some c
    else if not (one_of mode modes)
    then none
    else some (record c { mode = mode })
