-- ===== src/Life.antt =====
-- The life of the program, from `SetupNode` in main.go to its end: `Run`, the handlers of
-- server/node/setup.go and server/handlers/registry.go, the wait for a signal, and `ShutdownNode`.
pub mod Opened
pub mod Assembled
pub mod Rounds
pub mod Closed
pub mod Served
pub mod Announced
use goxic.Prelude.{
  Bool, true, false, not, List, [], ◌∷◌, ◌++◌, Option, none, some, Bytes, map, if◌then◌else◌,
}
use goxic.Prelude.Int.{ℤ}
use goxic.Config.Record.{Config, is_client_mode, is_server_mode, is_bootstrap_mode}
use goxic.Node.Registry.{Pattern}
use goxic.Node.Run.{
  Peers, Call, close_host, close_store, Environment, Ended, runs, fails, panics, run,
}
use goxic.Node.Setup.{NodeType, StreamHandler, NodeHandler, Handlers, setup_handlers, setup_node}
use goxic.Node.Shutdown.{Closing, Parts, shutdown_node}
use goxic.Main.{
  Start, shows_version, shows_help, generated, not_generated, not_loaded, invalid_mode, no_log,
  sets_up,
}

-- The end of the program: `os.Exit(0)` or the end of `main`, with whether `ShutdownNode` failed,
-- which is logged only; `log.Fatalf`; a panic; or it waits for a signal that has not come.
pub data Exit : Type 0 where
  exits : Exit
  fatal : Exit
  panicked : Exit
  serving : Exit
  finished : Bool → Exit

-- What `main` says when the node has been set up: where the proxy listens; "Server node ready to
-- handle proxy traffic"; and "Bootstrap node ready", without proxy traffic.
pub data Notice : Type 0 where
  socks5_listening : Bytes → ℤ → Notice
  ready_for_proxy_traffic : Notice
  ready_for_discovery : Notice

unfoldable pub announce : Config → List Notice
unfolding is_client_mode is_server_mode is_bootstrap_mode
announce c =
    if is_client_mode c
    then (if c.socks5.enabled
        then socks5_listening c.socks5.bind_address c.socks5.port ∷ []
        else [])
    else if is_server_mode c
    then ready_for_proxy_traffic ∷ []
    else if is_bootstrap_mode c
    then ready_for_discovery ∷ []
    else []

module _ (peers : Peers) where
  -- What is called on the way, `SetupStreamHandlers` with what it registers, and `cancel`.
  pub data Event : Type 0 where
    made : Call peers → Event
    serves : List (Bytes × StreamHandler) → Event
    starts : NodeHandler → Event
    stops : NodeHandler → Event
    cancels : Event

  -- Whether a call succeeds after these.
  abbrev pub Doing : Type 0
  Doing = List Event → Event → Bool

  -- A call, with whether it fails.
  abbrev pub perform : Doing → Event → List Event → List Event × Bool
  perform doing e done = (done ++ (e ∷ []), not (doing done e))

  abbrev pub run_env : Doing → Environment peers
  run_env doing calls call = doing (map made calls) (made call)

  abbrev pub shutdown_calls : Doing → Closing NodeHandler (List Event)
  shutdown_calls doing = record {
    stop = λ h. perform doing (stops h);
    close_host = perform doing (made close_host);
    close_store = perform doing (made close_store);
  }

  -- The node that `SetupNode` returns has all three.
  abbrev pub node_parts : Handlers → Parts NodeHandler
  node_parts r = record { registry = some r.node_handlers; has_host = true; has_store = true }

  module _ (compile : Bytes → Option Pattern) (doing : Doing) (signalled : Bool) where
    -- `cancel` is deferred.
    unfoldable pub after_shutdown : List Event × Bool → List Event × Exit
    after_shutdown (done, failed) = (done ++ (cancels ∷ []), finished failed)

    unfoldable pub after_setup : List Event × Option Handlers → List Event × Exit
    unfolding after_shutdown
    after_setup (done, none) = (done, fatal)
    after_setup (done, some r) =
        if signalled
        then after_shutdown (shutdown_node (shutdown_calls doing) (node_parts r) done)
        else (done, serving)

    -- `SetupNode` behind `Run`: the streams are registered before the handlers are started.
    unfoldable pub set_up : Config → NodeType → List Event → List Event × Option Handlers
    set_up c type done =
        setup_node compile (λ h. perform doing (starts h)) c type
          (done ++ (serves ((setup_handlers compile c type).stream_handlers) ∷ []))

    -- A panic runs what is deferred, and `log.Fatalf` does not.
    unfoldable pub after_run : Config → NodeType → Ended peers → List Event → List Event × Exit
    unfolding after_setup set_up
    after_run c type runs done = after_setup (set_up c type done)
    after_run c type fails done = (done, fatal)
    after_run c type panics done = (done ++ (cancels ∷ []), panicked)

    unfoldable pub live : Config → NodeType → List Event × Exit
    unfolding after_run
    live c type =
        let (calls, ended) = run peers (run_env doing) c in after_run c type ended (map made calls)

    -- `main`, from what `start` comes to.
    unfoldable pub main : Start → List Event × Exit
    unfolding live
    main shows_version = ([], exits)
    main shows_help = ([], exits)
    main generated = ([], exits)
    main (not_generated e) = ([], fatal)
    main (not_loaded e) = ([], fatal)
    main invalid_mode = ([], fatal)
    main no_log = ([], fatal)
    main (sets_up c type log) = live c type
