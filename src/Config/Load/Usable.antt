-- ===== src/Config/Load/Usable.antt =====
-- What the rest of the program may rely on in a configuration that was loaded.
use goxic.Prelude.{
  ◌≡◌, ◌≢◌, refl, sym, subst, inl, inr, true, false, Bool-cases, [], Option, none, some,
  Option-cases, Bytes, ap, Elem, text_eq, arith,
}
use goxic.Prelude.Int.{pos, ◌≤ℤ◌}
use goxic.Discovery.Select.{selection_preferred}
use goxic.Config.Record.{Config, client_mode, server_mode}
use goxic.Config.Defaults.{apply_defaults}
use goxic.Config.Defaults.Parts.{
  IsCompleteNetwork, IsCompleteSocks5, IsCompleteRelay, IsCompleteDiscovery,
}
use goxic.Config.Defaults.Complete.{IsComplete, apply_defaults-IsComplete}
use goxic.Config.Validate.{
  System, validate, is_abs, modes, valid_log_levels, valid_strategies, nodes_of, one_of,
}
use goxic.Config.Validate.Steps.{InRange}
use goxic.Config.Validate.Checks.{normalised}
use goxic.Config.Validate.Consistent.{IsConsistent, validate_iff}
use goxic.Config.Load.{validated, load_config, override_mode}

-- What the rest of the program relies on.
pub record IsUsable (c : Config) : Type 0 where
  pub mode : Elem c.mode modes
  pub server_socks5 : c.mode ≡ server_mode → c.socks5.enabled ≡ false
  pub client_socks5 : c.mode ≡ client_mode → c.socks5.enabled ≡ true
  pub boostrap_nodes : c.network.boostrap_nodes ≢ []
  pub port : InRange c.network.port
  pub socks5_port : c.socks5.enabled ≡ true → InRange c.socks5.port
  pub connections : c.network.min_connections ≤ℤ c.network.max_connections
  pub data_dir : is_abs c.data_dir ≡ true
  pub level : Elem c.logging.level valid_log_levels
  pub network : IsCompleteNetwork c.network
  pub socks5 : IsCompleteSocks5 c.socks5
  pub relay : IsCompleteRelay c.relay
  pub discovery : IsCompleteDiscovery c.discovery
  pub log_size : c.logging.max_size_mb ≢ pos 0
  pub log_backups : c.logging.max_backups ≢ pos 0
  pub selection_strategy : Elem c.discovery.selection_strategy valid_strategies
  pub preferred_exit_nodes :
      c.discovery.selection_strategy ≡ selection_preferred
      → nodes_of c.discovery.preferred_exit_nodes ≢ []

validated_inv : (sys : System) (c d : Config) → validated sys c ≡ inr d → validate sys c ≡ (d, none)
unfolding validated
validated_inv sys c d h = elim (Option-cases ((validate sys c).1)) [
  | inl e ↦
      let result : validate sys c ≡ ((validate sys c).0, none) =
        ap (λ o. ((validate sys c).0, o)) e in
      cc
  | inr (r, e) ↦ cc
]

-- A file that is read is loaded exactly if `Validate` accepts it with its defaults.
pub load_config_inv :
    (sys : System) (unmarshal : Bytes → Option Config) (file : Bytes) (c d : Config)
    → unmarshal file ≡ some c
    → load_config sys unmarshal (some file) ≡ inr d
    → validate sys (apply_defaults c) ≡ (d, none)
unfolding load_config
load_config_inv sys unmarshal file c d u h =
    validated_inv sys (apply_defaults c) d (ground (arith, u, h))

pub load_config_lem :
    (sys : System) (unmarshal : Bytes → Option Config) (file : Bytes) (c d : Config)
    → unmarshal file ≡ some c
    → validate sys (apply_defaults c) ≡ (d, none)
    → load_config sys unmarshal (some file) ≡ inr d
unfolding load_config validated
load_config_lem sys unmarshal file c d u v = ground (arith, u, v)

module _ (sys : System) (abs-is_abs : (s t : Bytes) → sys.abs s ≡ some t → is_abs t ≡ true) where
  absolute_lem :
      (c : Config)
      → (is_abs c.data_dir ≡ false → sys.abs c.data_dir ≢ none)
      → is_abs ((normalised sys c).data_dir) ≡ true
  absolute_lem c h = elim (Bool-cases (is_abs c.data_dir)) [
    | inl e ↦ rw (e, e) refl
    | inr e ↦ elim (Option-cases (sys.abs c.data_dir)) [
      | inl f ↦ absurd (h e f)
      | inr (t, f) ↦ rw (e, f) (abs-is_abs c.data_dir t f)
    ]
  ]

  normalised-IsUsable :
      (c : Config) → IsComplete c → IsConsistent sys c → IsUsable (normalised sys c)
  normalised-IsUsable c complete k = record {
    mode = k.mode;
    server_socks5 = complete.server_socks5;
    client_socks5 = complete.client_socks5;
    boostrap_nodes = k.boostrap_nodes;
    port = k.port;
    socks5_port = k.socks5_port;
    connections = k.connections;
    data_dir = absolute_lem c k.data_dir;
    level = k.level;
    network = complete.network;
    socks5 = complete.socks5;
    relay = complete.relay;
    discovery = complete.discovery;
    log_size = complete.logging.max_size_mb;
    log_backups = complete.logging.max_backups;
    selection_strategy = k.selection_strategy;
    preferred_exit_nodes = k.preferred_exit_nodes;
  }

  -- Where `filepath.Abs` gives absolute paths, a configuration that `LoadConfig` returns is usable: it
  -- has a known mode with SOCKS5 off for a server and on for a client, bootstrap nodes, ports in
  -- range, an absolute data directory, a known log level, and a known strategy with the nodes that
  -- it needs; and in its network, SOCKS5, relay, discovery and logging parts no number that has a
  -- default is zero, and in the first four no text or list that has one is missing.
  pub load_config-IsUsable :
      (unmarshal : Bytes → Option Config) (file : Option Bytes) (c : Config)
      → load_config sys unmarshal file ≡ inr c
      → IsUsable c
  unfolding load_config
  load_config-IsUsable unmarshal none c h = cc
  load_config-IsUsable unmarshal (some file) c h = elim (Option-cases (unmarshal file)) [
    | inl e ↦ cc
    | inr (d, e) ↦
        let accepted = validated_inv sys (apply_defaults d) c cc in
        let (k, q) = (validate_iff sys (apply_defaults d) c).0 accepted in
        subst IsUsable (sym q)
          (normalised-IsUsable (apply_defaults d) (apply_defaults-IsComplete d) k)
  ]

  -- The bug: the configuration of a server that `LoadConfig` returned is accepted with `-mode client`,
  -- and the client that it then describes has SOCKS5 off. `filepath.Abs` gives absolute paths.
  pub override_mode-server_config :
      (unmarshal : Bytes → Option Config) (file : Option Bytes) (c : Config)
      → load_config sys unmarshal file ≡ inr c
      → c.mode ≡ server_mode
      → (d : Config) × (override_mode client_mode c ≡ some d)
        × (d.mode ≡ client_mode)
        × (d.socks5.enabled ≡ false)
  unfolding override_mode one_of text_eq
  override_mode-server_config unmarshal file c h server = (
    record c { mode = client_mode },
    refl,
    refl,
    (load_config-IsUsable unmarshal file c h).server_socks5 server,
  )
