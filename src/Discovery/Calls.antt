-- ===== src/Discovery/Calls.antt =====
-- The calls that the rest of the program makes on one discovery, in any order, with the refreshes of
-- its goroutine and what the network does between them.
pub mod WellFormed
use goxic.Prelude.{ℕ, List, [], ◌∷◌, Option, none, some}
use goxic.Peer.{PeerIds}
use goxic.Discovery.State.{ServerDiscovery, Host, DiscoverySettings}
use goxic.Discovery.Loads.{track_connection, release_connection}
use goxic.Discovery.Refresh.{State, refresh_server_list}
use goxic.Discovery.Available.{
  StartResult, already_started, panicked, started_well, get_available_servers,
  select_available_server, start, stop,
}

-- `SelectServer` comes with what `rand.Intn` would give.
pub data Call (PeerId World : Type 0) : Type 0 where
  starts : Call PeerId World
  stops : Call PeerId World
  refreshes : Call PeerId World
  gets_available : Call PeerId World
  selects : (ℕ → ℕ) → Call PeerId World
  tracks : PeerId → Call PeerId World
  releases : PeerId → Call PeerId World
  network : World → Call PeerId World

module _ (peers : PeerIds) (host : Host peers.PeerId) (cfg : DiscoverySettings) where
  open peers use {PeerId}
  open host use {World, now}

  -- A second `Start` fails and leaves discovery as it is.
  started : StartResult PeerId → ServerDiscovery PeerId → ServerDiscovery PeerId
  started already_started sd = sd
  started (panicked sd') sd = sd'
  started (started_well sd') sd = sd'

  pub call : Call PeerId World → State peers host → State peers host
  unfolding started
  call starts (w, sd) = (w, started (start sd) sd)
  call stops (w, sd) = (w, stop sd)
  call refreshes st = (refresh_server_list peers host cfg st).0
  call gets_available st = (get_available_servers peers host cfg st).0
  call (selects rand_intn) st = (select_available_server peers host cfg rand_intn st).0
  call (tracks p) (w, sd) = (w, track_connection peers (now w) p sd)
  call (releases p) (w, sd) = (w, release_connection peers p sd)
  call (network w) (_, sd) = (w, sd)

  pub run_calls : List (Call PeerId World) → State peers host → State peers host
  run_calls [] st = st
  run_calls (c ∷ cs) st = run_calls cs (call c st)
