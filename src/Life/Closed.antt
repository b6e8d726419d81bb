-- ===== src/Life/Closed.antt =====
-- What is open while the node serves and when the program has ended, and at each moment before.
use goxic.Prelude.{
  ◌≡◌, refl, sym, ap, subst, ◌∙◌, Bool, true, false, List, [], ◌∷◌, ◌++◌, Option, none, some, Bytes,
  map, if◌then◌else◌,
}
use goxic.Config.Record.{Config}
use goxic.Node.Registry.{Pattern, until_error}
use goxic.Node.Run.{Peers, Ended, runs, fails, panics, run}
use goxic.Node.Setup.{NodeType, NodeHandler, Handlers, setup_handlers}
use goxic.Node.Setup.Started.{setup_node-Returns}
use goxic.Node.Shutdown.{shutdown_node}
use goxic.Node.Shutdown.Order.{shutdown_node_lem}
use goxic.Main.{
  Start, shows_version, shows_help, generated, not_generated, not_loaded, invalid_mode, no_log,
  sets_up,
}
use goxic.Life.{
  Exit, fatal, serving, finished, Event, made, serves, starts, cancels, Doing, perform, run_env,
  shutdown_calls, node_parts, after_shutdown, after_setup, set_up, after_run, live, main,
}
use goxic.Life.Opened.{
  Opened, nothing_open, IsSafe, nothing_open-IsSafe, effect_if, opened, Safely, Safely-prefix, At,
  At-IsSafe, At-append,
}
use goxic.Life.Rounds.{running, running-IsSafe, Round, Started, Shut, starts-Started, closes-Shut}
use goxic.Life.Assembled.{node_open, run-Assembles}

pub if_either :
    {A : Type 0} (P : A → Type 0) (test : Bool) (x y : A) → P x → P y → P (if test then x else y)
if_either P true x y p q = p
if_either P false x y p q = q

module _ (peers : Peers) (doing : Doing peers) where
  module _ (compile : Bytes → Option Pattern) (signalled : Bool) (c : Config)
      (type : NodeType) where
    abbrev handlers_of : Handlers
    handlers_of = setup_handlers compile c type

    -- What is open, by how the program goes on.
    pub record Ends (ran : Ended peers) (es : List (Event peers)) (exit : Exit) : Type 0 where
      pub while_serving : exit ≡ serving → opened peers doing es ≡ running handlers_of.node_handlers
      when_finished : exit ≡ finished false → opened peers doing es ≡ nothing_open
      when_failed : exit ≡ finished true → (opened peers doing es).store ≡ true
      when_fatal :
          exit ≡ fatal
          → ran ≡ runs
          → ((opened peers doing es).host ≡ true) × ((opened peers doing es).store ≡ true)

    abbrev Lives : Ended peers → List (Event peers) × Exit → Type 0
    Lives ran r = Safely peers doing r.0 × Ends ran r.0 r.1

    idle_cancels : (o : Opened) (b : Bool) → effect_if peers b cancels o ≡ o
    idle_cancels o true = refl
    idle_cancels o false = refl

    idle_serves :
        (b : Bool) → effect_if peers b (serves handlers_of.stream_handlers) node_open ≡ node_open
    idle_serves true = refl
    idle_serves false = refl

    cancelled :
        (o : Opened) (es : List (Event peers))
        → At peers doing o es
        → At peers doing o (es ++ (cancels ∷ []))
    cancelled o es a =
        At-append peers doing es cancels a (idle_cancels o (doing es cancels))
          (At-IsSafe peers doing es a)

    after_shutdown-Lives :
        (ran : Ended peers) (r : Round peers doing)
        → Shut peers doing r
        → Lives ran (after_shutdown peers compile doing signalled r)
    unfolding after_shutdown
    after_shutdown-Lives ran (es, failed) (s, clean, left) =
        let (s', same) = cancelled (opened peers doing es) es (s, refl) in
        (
          s',
          record {
            while_serving = λ e. cc e;
            when_finished = λ e. same ∙ clean (cc e);
            when_failed = λ e. ap (λ o. o.store) same ∙ left (cc e);
            when_fatal = λ e. cc e;
          },
        )

    serving-Lives :
        (es : List (Event peers))
        → At peers doing (running handlers_of.node_handlers) es
        → Lives runs (es, serving)
    serving-Lives es a = (
      a.0,
      record {
        while_serving = λ e. a.1;
        when_finished = λ e. cc e;
        when_failed = λ e. cc e;
        when_fatal = λ e. cc e;
      },
    )

    after_setup-Lives :
        (es : List (Event peers))
        → At peers doing (running handlers_of.node_handlers) es
        → Lives runs (after_setup peers compile doing signalled (es, some handlers_of))
    unfolding after_setup
    after_setup-Lives es a =
        let stopped =
          shutdown_node (shutdown_calls peers doing) (node_parts peers handlers_of) es in
        let shut : Shut peers doing stopped =
          subst (Shut peers doing)
            (sym (shutdown_node_lem (shutdown_calls peers doing) (node_parts peers handlers_of) es))
            (closes-Shut peers doing handlers_of.node_handlers es a) in
        if_either (Lives runs) signalled (after_shutdown peers compile doing signalled stopped)
          (es, serving) (after_shutdown-Lives runs stopped shut) (serving-Lives es a)

    not_set_up :
        (r : Round peers doing) (hs : List NodeHandler)
        → r.1 ≡ true
        → Started peers doing hs r
        → Lives runs (after_setup peers compile doing signalled (r.0, none))
    unfolding after_setup
    not_set_up r hs e (s, all, left) = (
      s,
      record {
        while_serving = λ x. cc x;
        when_finished = λ x. cc x;
        when_failed = λ x. cc x;
        when_fatal = λ x y. left e;
      },
    )

    set_up-Lives :
        (es : List (Event peers))
        → At peers doing node_open es
        → Lives runs (
            after_setup peers compile doing signalled
              (set_up peers compile doing signalled c type es))
    unfolding set_up
    set_up-Lives es a =
        let before = es ++ (serves handlers_of.stream_handlers ∷ []) in
        let start = λ (h : NodeHandler). perform peers doing (starts h) in
        let served : At peers doing (running []) before =
          At-append peers doing es (serves handlers_of.stream_handlers) a
            (idle_serves (doing es (serves handlers_of.stream_handlers))) (running-IsSafe []) in
        let loop : Started peers doing handlers_of.node_handlers
            (until_error start handlers_of.node_handlers before) =
          starts-Started peers doing [] handlers_of.node_handlers before served in
        setup_node-Returns compile start
          (λ r. Lives runs (after_setup peers compile doing signalled r)) c type before
          (λ e.
            after_setup-Lives before
              (subst (λ hs. At peers doing (running hs) before) (sym e) served))
          (λ v e.
            let done = subst (Started peers doing handlers_of.node_handlers) e loop in
            after_setup-Lives v (done.0, done.1 refl))
          (λ v e.
            not_set_up (v, true) handlers_of.node_handlers refl
              (subst (Started peers doing handlers_of.node_handlers) e loop))

    after_run-Lives :
        (ran : Ended peers) (es : List (Event peers))
        → Safely peers doing es × (ran ≡ runs → opened peers doing es ≡ node_open)
        → Lives ran (after_run peers compile doing signalled c type ran es)
    unfolding after_run
    after_run-Lives runs es (s, o) = set_up-Lives es (s, o refl)
    after_run-Lives fails es (s, o) = (
      s,
      record {
        while_serving = λ x. cc x;
        when_finished = λ x. cc x;
        when_failed = λ x. cc x;
        when_fatal = λ x y. cc y;
      },
    )
    after_run-Lives panics es (s, o) = (
      (cancelled (opened peers doing es) es (s, refl)).0,
      record {
        while_serving = λ x. cc x;
        when_finished = λ x. cc x;
        when_failed = λ x. cc x;
        when_fatal = λ x y. cc x;
      },
    )

    live-Lives :
        Lives (run peers (run_env peers doing) c).1 (live peers compile doing signalled c type)
    unfolding live
    live-Lives =
        let r = run peers (run_env peers doing) c in
        after_run-Lives r.1 (map made r.0) (run-Assembles peers doing c)

    -- What is open when the program waits for a signal or has ended, whatever its configuration and
    -- whichever calls fail: while it serves, the host, the store and all handlers of its
    -- configuration; when it was shut down without an error, nothing; when `ShutdownNode` failed, the
    -- store at least; and after `log.Fatalf` behind a `Run` that returned a node, the host and the
    -- store.
    pub live-Ends :
        let r = live peers compile doing signalled c type in
        Ends (run peers (run_env peers doing) c).1 r.0 r.1
    live-Ends = live-Lives.1

  main-Safely :
      (compile : Bytes → Option Pattern) (signalled : Bool) (start : Start)
      → Safely peers doing (main peers compile doing signalled start).0
  unfolding main
  main-Safely compile signalled shows_version = nothing_open-IsSafe
  main-Safely compile signalled shows_help = nothing_open-IsSafe
  main-Safely compile signalled generated = nothing_open-IsSafe
  main-Safely compile signalled (not_generated e) = nothing_open-IsSafe
  main-Safely compile signalled (not_loaded e) = nothing_open-IsSafe
  main-Safely compile signalled invalid_mode = nothing_open-IsSafe
  main-Safely compile signalled no_log = nothing_open-IsSafe
  main-Safely compile signalled (sets_up c type log) = (live-Lives compile signalled c type).0

  -- At each moment of the program's life, whichever calls fail before it, a handler runs only on an
  -- open host, and the host is open only on an open store. It holds for each way in which `main`
  -- goes on behind its flags, and whether or not a signal comes.
  pub main-IsSafe :
      (compile : Bytes → Option Pattern) (signalled : Bool) (start : Start)
      (before after : List (Event peers))
      → (main peers compile doing signalled start).0 ≡ before ++ after
      → IsSafe (opened peers doing before)
  main-IsSafe compile signalled start before after e =
      Safely-prefix peers doing before after
        (subst (Safely peers doing) e (main-Safely compile signalled start))
