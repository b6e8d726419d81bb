-- ===== src/Node/Setup.antt =====
-- server/node/setup.go, with the choice of the node's type in main.go.
pub mod Wiring
pub mod Started
pub mod Ticking
use goxic.Prelude.{
  Bool, true, false, List, [], ◌∷◌, ◌++◌, Option, none, some, Bytes, codes, if◌then◌else◌, ◌||◌,
}
use goxic.Prelude.Int.{ℤ, pos, ltb_ℤ}
use goxic.Relay.Protocol.{relay_prefix, relay_version, protocol_match}
use goxic.Config.Record.{Config, is_server_mode, is_bootstrap_mode}
use goxic.Node.Registry.{
  Pattern, Registry, new_registry, register_stream_handler, register_node_handler, until_error,
}

pub data NodeType : Type 0 where
  node_type_client : NodeType
  node_type_server : NodeType

-- The handlers that the program has.
pub data StreamHandler : Type 0 where
  relay_handler : StreamHandler

pub data NodeHandler : Type 0 where
  socks5_handler : NodeHandler
  server_discovery : NodeHandler

-- `RelayHandler.Protocol`.
abbrev pub protocol : StreamHandler → Bytes
protocol relay_handler = relay_prefix ++ relay_version

abbrev pub Handlers : Type 0
Handlers = Registry StreamHandler NodeHandler

-- The choice of main.go.
unfoldable pub node_type : Config → NodeType
unfolding is_server_mode is_bootstrap_mode
node_type c =
    if is_server_mode c
    then node_type_server
    else if is_bootstrap_mode c
    then node_type_server
    else node_type_client

module _ (compile : Bytes → Option Pattern) where
  -- The error of `RegisterStreamHandler` is at most logged.
  register_relay : Bool → Handlers → Handlers
  unfolding register_stream_handler
  register_relay enabled r =
      if enabled then (register_stream_handler protocol compile relay_handler r).0 else r

  register_if : Bool → NodeHandler → Handlers → Handlers
  unfolding register_node_handler
  register_if test h r = if test then register_node_handler h r else r

  pub setup_client_handlers : Config → Handlers → Handlers
  unfolding register_relay register_if
  setup_client_handlers c r =
      register_relay c.relay.enabled (register_if c.socks5.enabled socks5_handler r)

  pub setup_server_handlers : Config → Handlers → Handlers
  unfolding register_relay register_if
  setup_server_handlers c r =
      register_if (ltb_ℤ (pos 0) c.discovery.update_interval_sec) server_discovery
        (register_relay c.relay.enabled r)

  -- The registry that `SetupNode` fills.
  pub setup_handlers : Config → NodeType → Handlers
  unfolding setup_client_handlers setup_server_handlers is_bootstrap_mode
  setup_handlers c type = if is_bootstrap_mode c then new_registry else elim type [
    | node_type_client ↦ setup_client_handlers c new_registry
    | node_type_server ↦ setup_server_handlers c new_registry
  ]

  -- `SetupNode` behind `Run`: what it leaves, and the registry unless a handler did not start. A
  -- bootstrap node starts no handler.
  unfoldable pub setup_node :
      {W : Type 0} → (NodeHandler → W → W × Bool) → Config → NodeType → W → W × Option Handlers
  unfolding setup_handlers until_error
  setup_node start c type w =
      let r = setup_handlers c type in
      let (w', failed) = until_error start r.node_handlers w in
      if is_bootstrap_mode c then (w, some r) else (w', if failed then none else some r)

-- `SetupStreamHandlers`: the streams that the host hands to some handler. The relay handler is
-- registered with its own test.
pub accepts : List (Bytes × StreamHandler) → Bytes → Bool
accepts [] name = false
accepts ((registered, relay_handler) ∷ hs) name = protocol_match name || accepts hs name
