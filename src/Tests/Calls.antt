-- ===== src/Tests/Calls.antt =====
-- A server's discovery that is started, refreshed, selects, and is stopped.
use goxic.Prelude.{ℕ, List, [], ◌∷◌}
use goxic.Prelude.Int.{pos, IsInt64}
use goxic.Discovery.State.{new_server_discovery}
use goxic.Discovery.Loads.{current_load}
use goxic.Discovery.Calls.{
  Call, starts, stops, refreshes, gets_available, selects, tracks, releases, network, run_calls,
}
use goxic.Discovery.Calls.WellFormed.{IsWellFormed, new_server_discovery-IsWellFormed}
use goxic.Tests.Sample.{Name, bob, carol, three, calm, settings}

abbrev calls : List (Call Name ℕ)
calls =
    starts
    ∷ refreshes
    ∷ selects (λ n. 0)
    ∷ tracks bob
    ∷ releases carol
    ∷ network 90
    ∷ gets_available
    ∷ releases bob
    ∷ stops
    ∷ []

new_server_discovery-IsWellFormed_example :
    let st = run_calls three calm settings calls (7, new_server_discovery (pos 30)) in
    IsWellFormed three calm settings st.1 × ((p : Name) → IsInt64 (current_load three st.1 p))
new_server_discovery-IsWellFormed_example =
    new_server_discovery-IsWellFormed three calm settings calls 7 (pos 30)
