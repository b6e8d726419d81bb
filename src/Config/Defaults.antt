-- ===== src/Config/Defaults.antt =====
-- `ApplyDefaults` of server/model/config.go, one function for each part of the configuration.
pub mod Parts
pub mod Complete
use goxic.Prelude.{
  Bool, true, false, List, [], Option, none, some, Bytes, text_eq, is_empty, if◌then◌else◌,
}
use goxic.Prelude.Int.{ℤ, pos, eqb_ℤ}
use goxic.Config.Record.{
  NetworkConfig, Socks5Config, RelayConfig, DiscoveryConfig, LoggingConfig, Config, client_mode,
  server_mode, default_network, default_socks5, default_relay, default_discovery, default_logging,
  new_default_config,
}

-- `if n == 0 { n = d }`, `if s == "" { s = d }` or `if len(s) == 0 { s = d }`, `if s == nil { s = d }`.
int_or : ℤ → ℤ → ℤ
int_or n d = if eqb_ℤ n (pos 0) then d else n

pub list_or : {A : Type 0} → List A → List A → List A
list_or s d = if is_empty s then d else s

slice_or : {A : Type 0} → Option A → Option A → Option A
slice_or none d = d
slice_or (some a) d = some a

pub network_defaults : NetworkConfig → NetworkConfig
unfolding int_or list_or
network_defaults n = record n {
  port = int_or n.port default_network.port;
  name = list_or n.name default_network.name;
  max_connections = int_or n.max_connections default_network.max_connections;
  min_connections = int_or n.min_connections default_network.min_connections;
  connection_timeout = int_or n.connection_timeout default_network.connection_timeout;
  dial_timeout = int_or n.dial_timeout default_network.dial_timeout;
}

pub socks5_defaults : Socks5Config → Socks5Config
unfolding int_or list_or
socks5_defaults s = record s {
  port = int_or s.port default_socks5.port;
  bind_address = list_or s.bind_address default_socks5.bind_address;
  allowed_networks = list_or s.allowed_networks default_socks5.allowed_networks;
  max_connections = int_or s.max_connections default_socks5.max_connections;
  connection_timeout = int_or s.connection_timeout default_socks5.connection_timeout;
}

pub relay_defaults : RelayConfig → RelayConfig
unfolding int_or
relay_defaults r = record r {
  max_hops = int_or r.max_hops default_relay.max_hops;
  buffer_size = int_or r.buffer_size default_relay.buffer_size;
}

pub discovery_defaults : DiscoveryConfig → DiscoveryConfig
unfolding int_or list_or slice_or
discovery_defaults d = record d {
  update_interval_sec = int_or d.update_interval_sec default_discovery.update_interval_sec;
  advertise_interval_sec = int_or d.advertise_interval_sec default_discovery.advertise_interval_sec;
  query_timeout_sec = int_or d.query_timeout_sec default_discovery.query_timeout_sec;
  cache_validity_min = int_or d.cache_validity_min default_discovery.cache_validity_min;
  max_servers = int_or d.max_servers default_discovery.max_servers;
  selection_strategy = list_or d.selection_strategy default_discovery.selection_strategy;
  preferred_exit_nodes = slice_or d.preferred_exit_nodes default_discovery.preferred_exit_nodes;
}

pub logging_defaults : LoggingConfig → LoggingConfig
unfolding int_or list_or
logging_defaults l = record l {
  level = list_or l.level default_logging.level;
  format = list_or l.format default_logging.format;
  max_size_mb = int_or l.max_size_mb default_logging.max_size_mb;
  max_backups = int_or l.max_backups default_logging.max_backups;
}

-- "Adjust settings based on mode": servers run no SOCKS5 proxy, and clients do.
socks5_by_mode : Bytes → Bool → Bool
socks5_by_mode mode enabled =
    if text_eq mode server_mode then false else if text_eq mode client_mode then true else enabled

fill_defaults : Config → Config
unfolding network_defaults socks5_defaults relay_defaults discovery_defaults logging_defaults
    list_or
fill_defaults c = record c {
  mode = list_or c.mode new_default_config.mode;
  data_dir = list_or c.data_dir new_default_config.data_dir;
  config_dir = list_or c.config_dir new_default_config.config_dir;
  network = network_defaults c.network;
  socks5 = socks5_defaults c.socks5;
  relay = relay_defaults c.relay;
  discovery = discovery_defaults c.discovery;
  logging = logging_defaults c.logging;
}

adjust_mode : Config → Config
unfolding socks5_by_mode
adjust_mode c = record c {
  socks5 = record (c.socks5) { enabled = socks5_by_mode c.mode c.socks5.enabled };
}

-- `ApplyDefaults`; its error is always nil.
unfoldable pub apply_defaults : Config → Config
unfolding fill_defaults adjust_mode
apply_defaults c = adjust_mode (fill_defaults c)
