-- ===== src/Config/Record.antt =====
-- The records of server/model/config.go, the default configuration, and the tests of the mode.
-- Strings are their bytes, and `int` is a signed integer.
use goxic.Prelude.{Bool, true, List, [], ◌∷◌, Option, some, Bytes, codes, text_eq, ◌*◌}
use goxic.Prelude.Int.{ℤ, pos}
use goxic.Discovery.Select.{selection_load_balance}

pub record NetworkConfig : Type 0 where
  pub port : ℤ
  pub boostrap_nodes : List Bytes
  pub name : Bytes
  pub max_connections : ℤ
  pub min_connections : ℤ
  pub connection_timeout : ℤ
  pub dial_timeout : ℤ
  pub enable_ipv6 : Bool
  pub enable_auto_relay : Bool
  pub enable_hole_punching : Bool

pub record Socks5Config : Type 0 where
  pub enabled : Bool
  pub port : ℤ
  pub bind_address : Bytes
  pub allowed_networks : List Bytes
  pub max_connections : ℤ
  pub connection_timeout : ℤ

pub record RelayConfig : Type 0 where
  pub enabled : Bool
  pub max_hops : ℤ
  pub bandwidth_limit_mb : ℤ
  pub buffer_size : ℤ

-- The preferred exit nodes may be nil, which is `none`.
pub record DiscoveryConfig : Type 0 where
  pub update_interval_sec : ℤ
  pub advertise_interval_sec : ℤ
  pub query_timeout_sec : ℤ
  pub cache_validity_min : ℤ
  pub max_servers : ℤ
  pub selection_strategy : Bytes
  pub preferred_exit_nodes : Option (List Bytes)

pub record LoggingConfig : Type 0 where
  pub level : Bytes
  pub format : Bytes
  pub output_file : Bytes
  pub max_size_mb : ℤ
  pub max_backups : ℤ

pub record Config : Type 0 where
  pub mode : Bytes
  pub data_dir : Bytes
  pub config_dir : Bytes
  pub network : NetworkConfig
  pub socks5 : Socks5Config
  pub relay : RelayConfig
  pub discovery : DiscoveryConfig
  pub logging : LoggingConfig

abbrev pub client_mode : Bytes
client_mode = codes "client"

abbrev pub server_mode : Bytes
server_mode = codes "server"

abbrev pub bootstrap_mode : Bytes
bootstrap_mode = codes "bootstrap"

abbrev pub default_network : NetworkConfig
default_network = record {
  port = pos 4001;
  boostrap_nodes = [];
  name = codes "goxic-proxy";
  max_connections = pos 400;
  min_connections = pos 100;
  connection_timeout = pos 30;
  dial_timeout = pos 10;
  enable_ipv6 = true;
  enable_auto_relay = true;
  enable_hole_punching = true;
}

abbrev pub default_socks5 : Socks5Config
default_socks5 = record {
  enabled = true;
  port = pos 1080;
  bind_address = codes "127.0.0.1";
  allowed_networks = codes "127.0.0.0/8" ∷ codes "::1/128" ∷ [];
  max_connections = pos 100;
  connection_timeout = pos 30;
}

abbrev pub default_relay : RelayConfig
default_relay = record {
  enabled = true;
  max_hops = pos 3;
  bandwidth_limit_mb = pos 0;
  buffer_size = pos (64 * 1024);
}

abbrev pub default_discovery : DiscoveryConfig
default_discovery = record {
  update_interval_sec = pos 30;
  advertise_interval_sec = pos 60;
  query_timeout_sec = pos 10;
  cache_validity_min = pos 10;
  max_servers = pos 50;
  selection_strategy = selection_load_balance;
  preferred_exit_nodes = some [];
}

abbrev pub default_logging : LoggingConfig
default_logging = record {
  level = codes "info";
  format = codes "text";
  output_file = [];
  max_size_mb = pos 100;
  max_backups = pos 5;
}

-- `NewDefaultConfig`.
abbrev pub new_default_config : Config
new_default_config = record {
  mode = client_mode;
  data_dir = codes "./data";
  config_dir = codes "./config";
  network = default_network;
  socks5 = default_socks5;
  relay = default_relay;
  discovery = default_discovery;
  logging = default_logging;
}

unfoldable pub is_client_mode : Config → Bool
is_client_mode c = text_eq c.mode client_mode

unfoldable pub is_server_mode : Config → Bool
is_server_mode c = text_eq c.mode server_mode

unfoldable pub is_bootstrap_mode : Config → Bool
is_bootstrap_mode c = text_eq c.mode bootstrap_mode
