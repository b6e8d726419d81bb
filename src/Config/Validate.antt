-- ===== src/Config/Validate.antt =====
-- `Validate` of server/model/config.go: its checks in the order of the code, each with its error. The
-- check changes the configuration that it is called on: the data directory is made absolute, and the
-- log level gets the case of the known one. `net` and `filepath.Abs` are a parameter.
pub mod Lower
pub mod Steps
pub mod Checks
pub mod Consistent
use goxic.Prelude.{
  Bool, true, false, not, ◌&&◌, ◌||◌, List, [], ◌∷◌, Option, none, some, Bytes, codes, text_eq,
  is_empty, if◌then◌else◌, ◌==◌, ◌^◌,
}
use goxic.Prelude.Int.{ℤ, pos, ltb_ℤ}
use goxic.Discovery.Select.{
  selection_first, selection_random, selection_load_balance, selection_preferred,
}
use goxic.Config.Record.{Config, DiscoveryConfig, client_mode, server_mode, bootstrap_mode}
use goxic.Config.Validate.Lower.{to_lower}

-- `filepath.Abs` under the directory that the program runs in, where it succeeds; whether
-- `net.ParseIP` and `net.ParseCIDR` accept a text.
pub record System : Type 0 where
  pub abs : Bytes → Option Bytes
  pub parse_ip : Bytes → Bool
  pub parse_cidr : Bytes → Bool

pub data ConfigError : Type 0 where
  invalid_mode : ConfigError
  boostrap_nodes_required : ConfigError
  name_required : ConfigError
  network_port_range : ConfigError
  socks5_port_range : ConfigError
  min_above_max_connections : ConfigError
  invalid_data_dir : ConfigError
  invalid_bind_address : ConfigError
  invalid_allowed_network : Bytes → ConfigError
  invalid_level : ConfigError
  invalid_format : ConfigError
  invalid_selection_strategy : ConfigError
  preferred_exit_nodes_required : ConfigError

-- A check: the configuration after it, and its error.
abbrev pub Check : Type 0
Check = Config → Config × Option ConfigError

abbrev pub passes : Check
passes c = (c, none)

-- `if test { return error }`.
abbrev pub reject_if : Bool → ConfigError → Check
reject_if test e c = (c, if test then some e else none)

-- The next check, unless the first has returned.
infixr 5 ◌>=>◌
abbrev pub ◌>=>◌ : Check → Check → Check
(f >=> g) c = elim ((f c).1) [ some e ↦ ((f c).0, some e) | none ↦ g (f c).0 ]

unfoldable pub one_of : Bytes → List Bytes → Bool
one_of s [] = false
one_of s (t ∷ ts) = text_eq s t || one_of s ts

-- `filepath.IsAbs` on Unix.
abbrev pub is_abs : Bytes → Bool
is_abs [] = false
is_abs (b ∷ s) = b == b'/'

abbrev pub out_of_range : ℤ → Bool
out_of_range port = ltb_ℤ port (pos 1024) || ltb_ℤ (pos 65535) port

-- A nil slice has length 0.
abbrev pub nodes_of : Option (List Bytes) → List Bytes
nodes_of none = []
nodes_of (some nodes) = nodes

abbrev pub modes : List Bytes
modes = client_mode ∷ server_mode ∷ bootstrap_mode ∷ []

abbrev pub valid_log_levels : List Bytes
valid_log_levels = codes "debug" ∷ codes "info" ∷ codes "warn" ∷ codes "error" ∷ []

abbrev pub formats : List Bytes
formats = codes "text" ∷ codes "json" ∷ []

abbrev pub valid_strategies : List Bytes
valid_strategies =
    selection_first ∷ selection_random ∷ selection_load_balance ∷ selection_preferred ∷ []

-- The mode, the required fields, the ports and the limits.
pub check_mode : Check
unfolding one_of
check_mode c = reject_if (not (one_of c.mode modes)) invalid_mode c

pub check_nodes : Check
check_nodes c = reject_if (is_empty c.network.boostrap_nodes) boostrap_nodes_required c

pub check_name : Check
check_name c = reject_if (is_empty c.network.name) name_required c

pub check_port : Check
check_port c = reject_if (out_of_range c.network.port) network_port_range c

pub check_socks5_port : Check
check_socks5_port c = reject_if (c.socks5.enabled && out_of_range c.socks5.port) socks5_port_range c

pub check_limits : Check
check_limits c =
    reject_if (ltb_ℤ c.network.max_connections c.network.min_connections) min_above_max_connections
      c

-- The loop over the log levels: the first that is the text in lower case.
pub find_level : Bytes → List Bytes → Option Bytes
find_level s [] = none
find_level s (level ∷ levels) =
    let rest = find_level s levels in if text_eq (to_lower s) level then some level else rest

-- Normalize the case, or return the error.
set_level : Config → Option Bytes → Config × Option ConfigError
set_level c (some level) = (record c { logging = record (c.logging) { level = level } }, none)
set_level c none = (c, some invalid_level)

pub check_level : Check
unfolding find_level set_level
check_level c = set_level c (find_level c.logging.level valid_log_levels)

pub check_format : Check
unfolding one_of
check_format c = reject_if (not (one_of c.logging.format formats)) invalid_format c

pub check_strategy : Check
unfolding one_of
check_strategy c =
    reject_if (not (one_of c.discovery.selection_strategy valid_strategies))
      invalid_selection_strategy c

pub check_preferred : Check
check_preferred c =
    reject_if
      (text_eq c.discovery.selection_strategy selection_preferred
        && is_empty (nodes_of c.discovery.preferred_exit_nodes))
      preferred_exit_nodes_required c

module _ (sys : System) where
  pub check_data_dir : Check
  check_data_dir c = if is_abs c.data_dir then (c, none) else elim (sys.abs c.data_dir) [
    | some abs ↦ (record c { data_dir = abs }, none)
    | none ↦ (c, some invalid_data_dir)
  ]

  pub check_networks : List Bytes → Check
  check_networks [] = passes
  check_networks (n ∷ ns) =
      reject_if (not (sys.parse_cidr n)) (invalid_allowed_network n) >=> check_networks ns

  pub check_socks5 : Check
  unfolding check_networks
  check_socks5 c =
      if c.socks5.enabled
      then (reject_if (not (sys.parse_ip c.socks5.bind_address)) invalid_bind_address
            >=> check_networks c.socks5.allowed_networks)
          c
      else passes c

  -- `Validate`.
  unfoldable pub validate : Check
  unfolding check_mode check_nodes check_name check_port check_socks5_port check_limits
      check_data_dir check_socks5 check_level check_format check_strategy check_preferred
  validate =
      check_mode >=> check_nodes >=> check_name >=> check_port >=> check_socks5_port
      >=> check_limits >=> check_data_dir >=> check_socks5 >=> check_level >=> check_format
      >=> check_strategy >=> check_preferred
