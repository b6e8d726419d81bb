-- ===== src/Tests/Run.antt =====
-- The assembly of a node at concrete inputs.
use goxic.Prelude.{
  ℕ, arith, ◌≡◌, refl, true, false, inr, [], ◌∷◌, Option, none, some, Bytes, text_eq, codes, length,
  ◌==◌,
}
use goxic.Prelude.Int.{negsuc, seconds}
use goxic.Discovery.Periodic.{ticked, done}
use goxic.Config.Defaults.{apply_defaults}
use goxic.Config.Load.{load_config}
use goxic.Config.Validate.{validate, one_of}
use goxic.Config.Validate.Lower.{to_lower}
use goxic.Config.Record.{Config, new_default_config, default_network}
use goxic.Node.Run.{Peers, new_id_service, Environment, fails, run, str2_peers}
use goxic.Node.Run.Advertise.{start_advertising, with_interval, load_config-start_advertising}
use goxic.Node.Run.Outcome.{Ends, run-Ends}
use goxic.Tests.Config.{unix, in_file, loaded}

-- Peers are numbers, and every text is the address of its length.
abbrev pub counted : Peers
counted = record {
  AddrInfo = ℕ;
  addr_info_from_string = λ s. some (length s);
  PeerId = ℕ;
  id = λ n. n;
  same = λ a b. a == b;
  shown = λ port. codes "4001";
}

-- Every call succeeds but that of the identify service.
abbrev no_identify : Environment counted
no_identify before new_id_service = false
no_identify before other = true

abbrev one_node : Config
one_node = record new_default_config {
  network = record default_network { boostrap_nodes = codes "/dnsaddr/example.org" ∷ [] };
}

fails_late : (run counted no_identify one_node).1 ≡ fails
unfolding run str2_peers
fails_late = refl

run-Ends_example : Ends counted no_identify (run counted no_identify one_node)
run-Ends_example = run-Ends counted no_identify one_node

-- The empty file is that of a server, and every other one differs in the interval.
abbrev two_files : Bytes → Option Config
two_files [] = some in_file
two_files (b ∷ bs) = some (with_interval (negsuc 4) in_file)

first_loads : load_config unix two_files (some []) ≡ inr loaded
unfolding load_config apply_defaults validate text_eq one_of to_lower
first_loads = refl

load_config-start_advertising_example :
    (load_config unix two_files (some (1 ∷ [])) ≡ inr (with_interval (negsuc 4) loaded))
    × (start_advertising (with_interval (negsuc 4) loaded) (ticked ∷ []) ≡ none)
load_config-start_advertising_example =
    load_config-start_advertising unix two_files [] (1 ∷ []) (negsuc 4) in_file loaded (ticked ∷ [])
      refl refl first_loads (omega arith)

-- At the default interval, two ticks before the context is done.
advertises_twice : start_advertising loaded (ticked ∷ ticked ∷ done ∷ ticked ∷ []) ≡ some 2
unfolding start_advertising seconds apply_defaults
advertises_twice = refl
