-- ===== src/Tests/Node.antt =====
-- The theorems about the set-up of a node at concrete configurations.
use goxic.Prelude.{
  ℕ, ◌+◌, ◌≡◌, ◌↔◌, inr, refl, Bool, true, [], Option, none, some, Bytes, codes, text_eq,
}
use goxic.Relay.Protocol.{SubMatches}
use goxic.Relay.Protocol.Language.{Matches}
use goxic.Config.Record.{server_mode}
use goxic.Config.Defaults.{apply_defaults}
use goxic.Config.Load.Usable.{IsUsable, load_config-IsUsable}
use goxic.Node.Registry.{Pattern}
use goxic.Node.Setup.{NodeHandler, node_type, node_type_server, setup_handlers, setup_node, accepts}
use goxic.Node.Setup.Wiring.{setup_handlers-accepts}
use goxic.Tests.Config.{unix, unix-is_abs, parse, loaded, loads}

abbrev pub compile : Bytes → Option Pattern
compile pattern = some (text_eq pattern)

loaded-IsUsable : IsUsable loaded
loaded-IsUsable = load_config-IsUsable unix unix-is_abs parse (some []) loaded loads

loaded-server : loaded.mode ≡ server_mode
unfolding apply_defaults
loaded-server = refl

setup_handlers-accepts_example :
    (accepts
        ((setup_handlers compile loaded (node_type loaded)).stream_handlers)
        (codes "/goxic-proxy/relay/1.0.0/proxy/a")
      ≡ true)
    ↔ ((loaded.relay.enabled ≡ true)
        × ((m : SubMatches) × Matches (codes "/goxic-proxy/relay/1.0.0/proxy/a") m))
setup_handlers-accepts_example =
    setup_handlers-accepts compile loaded (codes "/goxic-proxy/relay/1.0.0/proxy/a")
      (inr loaded-server)

-- Every handler fails to start.
abbrev start : NodeHandler → ℕ → ℕ × Bool
start h w = (w + 1, true)

setup_node_fails : setup_node compile start loaded node_type_server 0 ≡ (1, none)
unfolding setup_node text_eq apply_defaults
setup_node_fails = refl
