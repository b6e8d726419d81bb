-- ===== src/Node/Setup/Started.antt =====
-- What `SetupNode` leaves where a handler does not start.
use goxic.Prelude.{◌≡◌, refl, ap, Bool, true, false, [], Option, none, some, Bytes, if◌then◌else◌}
use goxic.Config.Record.{Config, is_bootstrap_mode}
use goxic.Node.Registry.{Pattern, new_registry, until_error}
use goxic.Node.Registry.Found.{FailsAt, until_error-FailsAt}
use goxic.Node.Setup.{
  NodeType, node_type_client, node_type_server, NodeHandler, Handlers, setup_client_handlers,
  setup_server_handlers, setup_handlers, setup_node,
}

failed_start :
    {W : Type 0} (r : Handlers) (bootstrap failed : Bool) (w v w' : W)
    → ◌≡◌ {A = W × Option Handlers}
        (if bootstrap then (w, some r) else (v, if failed then none else some r))
        (w', none)
    → (failed ≡ true) × (v ≡ w')
failed_start r true failed w v w' h = cc
failed_start r false true w v w' h = (refl, ap (λ x. x.0) h)
failed_start r false false w v w' h = cc

-- Where `SetupNode` fails behind `Run`, one of the handlers did not start: those before it have been
-- started and are left running, and those behind it have not been started.
setup_node-FailsAt :
    {W : Type 0} (compile : Bytes → Option Pattern) (start : NodeHandler → W → W × Bool)
    (c : Config) (type : NodeType) (w w' : W)
    → setup_node compile start c type w ≡ (w', none)
    → FailsAt start ((setup_handlers compile c type).node_handlers) w w'
unfolding setup_node
setup_node-FailsAt compile start c type w w' h =
    let r = setup_handlers compile c type in
    let (v, failed) = until_error start r.node_handlers w in
    let (f, e) = failed_start r (is_bootstrap_mode c) failed w v w' h in
    until_error-FailsAt start r.node_handlers w w' (cc (f, e))

returned :
    {W : Type 0} (P : W × Option Handlers → Type 0) (r : Handlers) (bootstrap failed : Bool)
    (w v : W)
    → (bootstrap ≡ true → P (w, some r))
    → (failed ≡ false → P (v, some r))
    → (failed ≡ true → P (v, none))
    → P (if bootstrap then (w, some r) else (v, if failed then none else some r))
returned P r true failed w v b s f = b refl
returned P r false true w v b s f = f refl
returned P r false false w v b s f = s refl

-- What `SetupNode` returns behind `Run`, by how the handlers start.
pub setup_node-Returns :
    {W : Type 0} (compile : Bytes → Option Pattern) (start : NodeHandler → W → W × Bool)
    (P : W × Option Handlers → Type 0) (c : Config) (type : NodeType) (w : W)
    → let r = setup_handlers compile c type in
      (r.node_handlers ≡ [] → P (w, some r))
      → ((v : W) → until_error start r.node_handlers w ≡ (v, false) → P (v, some r))
      → ((v : W) → until_error start r.node_handlers w ≡ (v, true) → P (v, none))
      → P (setup_node compile start c type w)
unfolding setup_node setup_handlers
setup_node-Returns compile start P c type w none_run all one_failed =
    let r = setup_handlers compile c type in
    let v = (until_error start r.node_handlers w).0 in
    returned P r (is_bootstrap_mode c) (until_error start r.node_handlers w).1 w v
      (λ e. none_run (
        ap
          (λ b.
            (if b then new_registry else elim type [
              | node_type_client ↦ setup_client_handlers compile c new_registry
              | node_type_server ↦ setup_server_handlers compile c new_registry
            ]).node_handlers)
          e))
      (λ e. all v (ap (λ b. (v, b)) e)) (λ e. one_failed v (ap (λ b. (v, b)) e))
