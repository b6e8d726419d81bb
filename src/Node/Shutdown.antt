-- ===== src/Node/Shutdown.antt =====
-- `ShutdownNode` of server/node/setup.go. A node's registry, host and store may be missing.
pub mod Order
use goxic.Prelude.{Bool, true, false, List, [], ◌∷◌, ◌++◌, Option, none, some, if◌then◌else◌}
use goxic.Node.Registry.{until_error}

-- What is closed, each with an effect and maybe an error.
pub record Closing (N W : Type 0) : Type 0 where
  pub stop : N → W → W × Bool
  pub close_host : W → W × Bool
  pub close_store : W → W × Bool

-- The parts of a node: the handlers of its registry, and whether it has a host and a store.
pub record Parts (N : Type 0) : Type 0 where
  pub registry : Option (List N)
  pub has_host : Bool
  pub has_store : Bool

module _ {N W : Type 0} (closing : Closing N W) where
  shutdown_store : Bool → W → W × Bool
  shutdown_store has_store w = if has_store then closing.close_store w else (w, false)

  shutdown_host : Bool → Bool → W → W × Bool
  unfolding shutdown_store
  shutdown_host has_host has_store w =
      let (w', failed) = if has_host then closing.close_host w else (w, false) in
      let rest = shutdown_store has_store w' in if failed then (w', true) else rest

  stop_node_handlers : Option (List N) → W → W × Bool
  unfolding until_error
  stop_node_handlers none w = (w, false)
  stop_node_handlers (some handlers) w = until_error closing.stop handlers w

  -- `ShutdownNode`, with whether it failed.
  unfoldable pub shutdown_node : Parts N → W → W × Bool
  unfolding shutdown_host stop_node_handlers
  shutdown_node parts w =
      let (w', failed) = stop_node_handlers parts.registry w in
      let rest = shutdown_host parts.has_host parts.has_store w' in
      if failed then (w', true) else rest
