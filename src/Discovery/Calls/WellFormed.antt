-- ===== src/Discovery/Calls/WellFormed.antt =====
-- The invariant of a discovery, and that every call keeps it.
use goxic.Prelude.{
  ℕ, ◌≤◌, ◌≡◌, sym, subst, inl, inr, Bool, true, false, List, [], ◌∷◌, All, length, arith,
}
use goxic.Prelude.Int.{ℤ, IsInt64, pos_part}
use goxic.Peer.{PeerIds}
use goxic.Discovery.State.{AddrInfo, ServerDiscovery, Host, DiscoverySettings, new_server_discovery}
use goxic.Discovery.Loads.{current_load, track_connection}
use goxic.Discovery.Loads.Entries.{
  HasIntLoads, DiffersInLoads, track_connection-DiffersInLoads, release_connection-DiffersInLoads,
  track_connection-HasIntLoads, release_connection-HasIntLoads, current_load-IsInt64,
}
use goxic.Discovery.Failures.Entries.{
  HasNamedFailures, is_blacklisted-HasNamedFailures, failure-HasNamedFailures,
  success-HasNamedFailures,
}
use goxic.Discovery.Refresh.{Visit, State, refresh_server_list, refresh_server_list_for_client}
use goxic.Discovery.Refresh.Kept.{IsKept, refresh_server_list-keeps, refresh_for_client-keeps}
use goxic.Discovery.Refresh.Collected.{
  Rounds, ended, passing, appending, Refreshed, refresh_server_list-Refreshed,
  refresh_for_client-Refreshed,
}
use goxic.Discovery.Refresh.Apart.{refresh_server_list-loads, refresh_for_client-loads}
use goxic.Discovery.Available.{refreshed}
use goxic.Discovery.Available.Kept.{
  refreshed-keeps, get_available_servers-keeps, select_available_server-keeps, start-cases,
  stop-cases,
}
use goxic.Discovery.Calls.{
  Call, starts, stops, refreshes, gets_available, selects, tracks, releases, network, call,
  run_calls, started,
}

module _ (peers : PeerIds) (host : Host peers.PeerId) (cfg : DiscoverySettings) where
  open peers use {PeerId, same}
  open host use {World, self}

  abbrev IsOther : AddrInfo PeerId → Type 0
  IsOther s = same s.id self ≡ false

  -- No more servers than `MaxServers`, and none of them this node; and the two maps name the peers
  -- that they are about, and count connections by 64-bit integers.
  pub record IsWellFormed (sd : ServerDiscovery PeerId) : Type 0 where
    servers_fit : length sd.server_peers ≤ pos_part cfg.max_servers
    servers_other : All IsOther sd.server_peers
    pub loads : HasIntLoads peers sd
    pub failures : HasNamedFailures peers sd

  Rounds-IsOther :
      {S : Type 0} {visit : AddrInfo PeerId → ℕ → S → Visit S}
      {P : S → AddrInfo PeerId → S → Type 0} {st end : S} {found : List (AddrInfo PeerId)}
      → ((s s' : S) (p : AddrInfo PeerId) → P s p s' → IsOther p)
      → Rounds visit P st found end
      → All IsOther found
  Rounds-IsOther other ended = tt
  Rounds-IsOther other (passing e rounds) = Rounds-IsOther other rounds
  Rounds-IsOther other (appending good rounds) = (other _ _ _ good, Rounds-IsOther other rounds)

  failures-IsKept : IsKept peers (HasNamedFailures peers)
  failures-IsKept = record {
    asked = is_blacklisted-HasNamedFailures peers;
    failed = failure-HasNamedFailures peers;
    succeeded = success-HasNamedFailures peers;
    stored = λ servers time sd k. k;
  }

  Refreshed-IsWellFormed :
      (visit : AddrInfo PeerId → ℕ → State peers host → Visit (State peers host))
      (P : State peers host → AddrInfo PeerId → State peers host → Type 0) (st : State peers host)
      (r : State peers host × Bool)
      → ((s s' : State peers host) (p : AddrInfo PeerId) → P s p s' → IsOther p)
      → Refreshed peers host visit P cfg st r
      → r.0.1.server_loads ≡ st.1.server_loads
      → HasNamedFailures peers r.0.1
      → IsWellFormed st.1
      → IsWellFormed r.0.1
  Refreshed-IsWellFormed visit P st r other (inl (_, e, _)) l f h = subst IsWellFormed (sym e) h
  Refreshed-IsWellFormed visit P st r other (inr (_, _, _, _, fits, (_, rounds, _))) l f h =
      record {
        servers_fit = fits;
        servers_other = Rounds-IsOther other rounds;
        loads = rw l h.loads;
        failures = f;
      }

  refresh_server_list-IsWellFormed :
      (st : State peers host)
      → IsWellFormed st.1
      → IsWellFormed (refresh_server_list peers host cfg st).0.1
  refresh_server_list-IsWellFormed st h =
      Refreshed-IsWellFormed _ _ st _ (λ s s' p good. good.other)
        (refresh_server_list-Refreshed peers host cfg st)
        (refresh_server_list-loads peers host cfg st)
        (refresh_server_list-keeps peers host (HasNamedFailures peers) failures-IsKept cfg st
          h.failures)
        h

  refresh_for_client-IsWellFormed :
      (st : State peers host)
      → IsWellFormed st.1
      → IsWellFormed (refresh_server_list_for_client peers host cfg st).0.1
  refresh_for_client-IsWellFormed st h =
      Refreshed-IsWellFormed _ _ st _ (λ s s' p good. good.other)
        (refresh_for_client-Refreshed peers host cfg st)
        (refresh_for_client-loads peers host cfg st)
        (refresh_for_client-keeps peers host (HasNamedFailures peers) failures-IsKept cfg st
          h.failures)
        h

  refreshed-IsWellFormed :
      (st : State peers host) → IsWellFormed st.1 → IsWellFormed (refreshed peers host cfg st).1
  refreshed-IsWellFormed st h =
      refreshed-keeps peers host cfg (λ s. IsWellFormed s.1) st h
        (refresh_for_client-IsWellFormed st h) (refresh_server_list-IsWellFormed st h)

  with_loads-IsWellFormed :
      (sd sd' : ServerDiscovery PeerId)
      → DiffersInLoads peers sd sd'
      → HasIntLoads peers sd'
      → IsWellFormed sd
      → IsWellFormed sd'
  with_loads-IsWellFormed sd sd' e l h = subst IsWellFormed (sym e) (record {
    servers_fit = h.servers_fit;
    servers_other = h.servers_other;
    loads = l;
    failures = h.failures;
  })

  track-IsWellFormed :
      (now : ℕ) (p : PeerId) (sd : ServerDiscovery PeerId)
      → IsWellFormed sd
      → IsWellFormed (track_connection peers now p sd)
  track-IsWellFormed now p sd h =
      with_loads-IsWellFormed sd _ (track_connection-DiffersInLoads peers now p sd)
        (track_connection-HasIntLoads peers now p sd h.loads) h

  started-IsWellFormed :
      (b : Bool) (sd : ServerDiscovery PeerId)
      → IsWellFormed sd
      → IsWellFormed (record sd { started = b })
  started-IsWellFormed b sd h = record {
    servers_fit = h.servers_fit;
    servers_other = h.servers_other;
    loads = h.loads;
    failures = h.failures;
  }

  call-IsWellFormed :
      (c : Call PeerId World) (st : State peers host)
      → IsWellFormed st.1
      → IsWellFormed (call peers host cfg c st).1
  unfolding call started
  call-IsWellFormed starts (w, sd) h = elim (start-cases sd) [
    | inl e ↦ rw e h
    | inr (inl e) ↦ rw e (started-IsWellFormed true sd h)
    | inr (inr e) ↦ rw e (started-IsWellFormed true sd h)
  ]
  call-IsWellFormed stops (w, sd) h = elim (stop-cases sd) [
    | inl e ↦ rw e h
    | inr e ↦ rw e (started-IsWellFormed false sd h)
  ]
  call-IsWellFormed refreshes st h = refresh_server_list-IsWellFormed st h
  call-IsWellFormed gets_available st h =
      get_available_servers-keeps peers host cfg IsWellFormed track-IsWellFormed st
        (refreshed-IsWellFormed st h)
  call-IsWellFormed (selects rand_intn) st h =
      select_available_server-keeps peers host cfg IsWellFormed track-IsWellFormed rand_intn st
        (refreshed-IsWellFormed st h)
  call-IsWellFormed (tracks p) (w, sd) h = track-IsWellFormed _ p sd h
  call-IsWellFormed (releases p) (w, sd) h =
      with_loads-IsWellFormed sd _ (release_connection-DiffersInLoads peers p sd)
        (release_connection-HasIntLoads peers p sd h.loads) h
  call-IsWellFormed (network w) (_, sd) h = h

  run_calls-IsWellFormed :
      (cs : List (Call PeerId World)) (st : State peers host)
      → IsWellFormed st.1
      → IsWellFormed (run_calls peers host cfg cs st).1
  unfolding run_calls
  run_calls-IsWellFormed [] st h = h
  run_calls-IsWellFormed (c ∷ cs) st h =
      run_calls-IsWellFormed cs (call peers host cfg c st) (call-IsWellFormed c st h)

  -- Whatever is called on a new discovery, in any order, and whatever the network does between the
  -- calls: it stores no more servers than `MaxServers` and never this node itself, each entry of its
  -- two maps names the peer that it is stored under, and every load is a 64-bit integer,
  -- from -2^63 up to the largest one.
  pub new_server_discovery-IsWellFormed :
      (cs : List (Call PeerId World)) (w : World) (update_interval_sec : ℤ)
      → let st = run_calls peers host cfg cs (w, new_server_discovery update_interval_sec) in
        IsWellFormed st.1 × ((p : PeerId) → IsInt64 (current_load peers st.1 p))
  unfolding new_server_discovery
  new_server_discovery-IsWellFormed cs w update_interval_sec =
      let h =
        run_calls-IsWellFormed cs (w, new_server_discovery update_interval_sec)
          (record { servers_fit = omega arith; servers_other = tt; loads = tt; failures = tt }) in
      (h, current_load-IsInt64 peers _ h.loads)
