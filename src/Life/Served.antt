-- ===== src/Life/Served.antt =====
-- What streams the host hands over in a program that serves.
use goxic.Prelude.{
  ◌≡◌, refl, subst, Bool, List, [], ◌∷◌, ◌++◌, Option, none, some, Bytes, Elem, inl,
}
use goxic.Config.Record.{Config}
use goxic.Node.Registry.{Pattern, until_error}
use goxic.Node.Registry.Found.{until_error-keeps}
use goxic.Node.Run.{Peers, Ended, runs, fails, panics}
use goxic.Node.Run.Outcome.{Elem-append_left, Elem-append_right}
use goxic.Node.Setup.{NodeType, NodeHandler, Handlers, setup_handlers}
use goxic.Node.Setup.Started.{setup_node-Returns}
use goxic.Node.Shutdown.{shutdown_node}
use goxic.Life.Closed.{if_either}
use goxic.Life.{
  Event, serves, starts, Exit, serving, Doing, perform, shutdown_calls, node_parts, after_shutdown,
  after_setup, set_up, after_run, live,
}

module _ (peers : Peers) (compile : Bytes → Option Pattern) (doing : Doing peers) (signalled : Bool)
    (c : Config) (type : NodeType) where
  abbrev registered : Event peers
  registered = serves (setup_handlers compile c type).stream_handlers

  abbrev IsRegistered : List (Event peers) → Type 0
  IsRegistered es = Elem registered es

  set_up-IsRegistered :
      (done : List (Event peers))
      → IsRegistered (set_up peers compile doing signalled c type done).0
  unfolding set_up
  set_up-IsRegistered done =
      let start = λ (h : NodeHandler). perform peers doing (starts h) in
      let here = Elem-append_right registered done (registered ∷ []) (inl refl) in
      let r = setup_handlers compile c type in
      let es = done ++ (registered ∷ []) in
      let started : IsRegistered (until_error start r.node_handlers es).0 =
        until_error-keeps start IsRegistered
          (λ h w k. Elem-append_left registered w (starts h ∷ []) k) r.node_handlers es here in
      setup_node-Returns compile start (λ s. IsRegistered s.0) c type es (λ n. here)
        (λ v e. subst (λ x. IsRegistered x.0) e started)
        (λ v e. subst (λ x. IsRegistered x.0) e started)

  after_setup-IsRegistered :
      (r : List (Event peers) × Option Handlers)
      → IsRegistered r.0
      → (after_setup peers compile doing signalled r).1 ≡ serving
      → IsRegistered (after_setup peers compile doing signalled r).0
  unfolding after_setup after_shutdown
  after_setup-IsRegistered (done, none) k = λ h. cc h
  after_setup-IsRegistered (done, some r) k =
      let stopped = shutdown_node (shutdown_calls peers doing) (node_parts peers r) done in
      if_either (λ (x : List (Event peers) × Exit). x.1 ≡ serving → IsRegistered x.0) signalled
        (after_shutdown peers compile doing signalled stopped) (done, serving) (λ h. cc h) (λ h. k)

  after_run-IsRegistered :
      (ran : Ended peers) (done : List (Event peers))
      → (after_run peers compile doing signalled c type ran done).1 ≡ serving
      → IsRegistered (after_run peers compile doing signalled c type ran done).0
  unfolding after_run
  after_run-IsRegistered runs done h =
      after_setup-IsRegistered (set_up peers compile doing signalled c type done)
        (set_up-IsRegistered done) h
  after_run-IsRegistered fails done h = cc h
  after_run-IsRegistered panics done h = cc h

  -- Its streams were registered with the host.
  pub live-serves :
      (live peers compile doing signalled c type).1 ≡ serving
      → IsRegistered (live peers compile doing signalled c type).0
  unfolding live
  live-serves h = after_run-IsRegistered _ _ h
