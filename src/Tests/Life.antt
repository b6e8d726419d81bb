-- ===== src/Tests/Life.antt =====
-- The life of the program at concrete inputs.
use goxic.Prelude.{
  ◌≡◌, refl, sym, true, false, List, [], ◌∷◌, none, codes, text_eq, take, drop, take-append-drop,
}
use goxic.Files.{Location, file, Disk, put}
use goxic.Config.Defaults.{apply_defaults}
use goxic.Node.Run.{run, str2_peers, close_store}
use goxic.Node.Setup.{node_type_server, setup_node}
use goxic.Main.{Start, sets_up}
use goxic.Node.Shutdown.{shutdown_node}
use goxic.Life.{Exit, finished, Event, made, Doing, run_env, live, main}
use goxic.Life.Opened.{IsSafe, opened}
use goxic.Life.Closed.{Ends, live-Ends, main-IsSafe}
use goxic.Tests.Main.{srv, srv_disk}
use goxic.Tests.Run.{counted}
use goxic.Tests.Node.{compile}
use goxic.Tests.Config.{loaded}

-- Every call succeeds, but not the close of the store.
abbrev doing : Doing counted
doing done (made close_store) = false
doing done other = true

abbrev life : List (Event counted) × Exit
life = live counted compile doing true loaded node_type_server

shutdown_fails : life.1 ≡ finished true
unfolding live run str2_peers apply_defaults text_eq shutdown_node setup_node
shutdown_fails = refl

live-Ends_example :
    Ends counted doing compile true loaded node_type_server
      (run counted (run_env counted doing) loaded).1
      life.0
      life.1
live-Ends_example = live-Ends counted doing compile true loaded node_type_server

abbrev starting : Start
starting = sets_up loaded node_type_server none

abbrev whole : List (Event counted)
whole = (main counted compile doing true starting).0

-- At the twelfth moment.
main-IsSafe_example : IsSafe (opened counted doing (take 12 whole))
main-IsSafe_example =
    main-IsSafe counted doing compile true starting (take 12 whole) (drop 12 whole)
      (sym (take-append-drop 12 whole))

-- With the configuration in its file.
abbrev at : Location
at = codes "goxic.json" ∷ srv

abbrev configured : Disk
configured = put srv_disk at (file 420 [])
