-- ===== src/Discovery/Available.antt =====
-- `GetAvailableServers`, `GetConnectedServerCount`, `Start`, `Stop`, and `SelectServer` as a whole.
pub mod Offered
pub mod Kept
pub mod Tracked
use goxic.Prelude.{
  ℕ, suc, Bool, true, false, not, ◌&&◌, List, [], ◌∷◌, Option, none, some, Bytes, ◌==◌,
  if◌then◌else◌,
}
use goxic.Prelude.Int.{ℤ, ltb_ℤ, time_sub}
use goxic.Peer.{PeerIds}
use goxic.Discovery.State.{AddrInfo, ServerDiscovery, Host, DiscoverySettings}
use goxic.Discovery.Refresh.{
  State, is_exit_capable_server, refresh_server_list, refresh_server_list_for_client,
}
use goxic.Discovery.Select.{select_server}
use goxic.Discovery.Periodic.{ticker_starts}

module _ (peers : PeerIds) (host : Host peers.PeerId) where
  open peers use {PeerId, same}
  open host use {World, self, connectedness, now}

  -- `time.Since(sd.lastUpdate) > sd.updateInterval`.
  pub is_stale : State peers host → Bool
  is_stale (w, sd) = ltb_ℤ sd.update_interval (time_sub (now w) sd.last_update)

  -- The refresh of a stale list; its error is only logged.
  pub refreshed : DiscoverySettings → State peers host → State peers host
  unfolding is_stale
  refreshed cfg (w, sd) =
      if is_stale (w, sd)
      then if not sd.started
        then (refresh_server_list_for_client peers host cfg (w, sd)).0
        else (refresh_server_list peers host cfg (w, sd)).0
      else (w, sd)

  -- The conditions of the loop of `GetAvailableServers`, each of which skips a server.
  pub is_available : Bool → World → AddrInfo PeerId → Bool
  is_available started w s =
      if same s.id self
      then false
      else if not (connectedness w s.id == 1)
      then false
      else if started
      then is_exit_capable_server peers host w s.id
      else true

  pub available : Bool → World → List (AddrInfo PeerId) → List (AddrInfo PeerId)
  unfolding is_available
  available started w [] = []
  available started w (s ∷ ss) =
      let rest = available started w ss in if is_available started w s then s ∷ rest else rest

  -- `GetAvailableServers`: its error is always nil.
  pub get_available_servers :
      DiscoverySettings → State peers host → State peers host × List (AddrInfo PeerId)
  unfolding refreshed available
  get_available_servers cfg st =
      let st' = refreshed cfg st in (st', available st'.1.started st'.0 st'.1.server_peers)

  -- `SelectServer`: the selected server, or none with an error.
  unfoldable pub select_available_server :
      DiscoverySettings → (ℕ → ℕ) → State peers host → State peers host × Option (AddrInfo PeerId)
  unfolding get_available_servers select_server
  select_available_server cfg rand_intn st =
      let (st', servers) = get_available_servers cfg st in
      elim (select_server peers cfg.selection_strategy cfg.preferred_exit_nodes rand_intn
        (now st'.0) st'.1 servers) [ none ↦ (st', none) | some (s, sd) ↦ ((st'.0, sd), some s) ]

  get_connected_server_count : World → List (AddrInfo PeerId) → ℕ
  get_connected_server_count w [] = 0
  get_connected_server_count w (s ∷ ss) =
      let rest = get_connected_server_count w ss in
      if not (same s.id self) && (connectedness w s.id == 1) then suc rest else rest

-- What `Start` comes to: the error of a second start; the panic of `time.NewTicker` in
-- `StartPeriodicDiscovery`, with `started` set already; or a discovery whose goroutine runs.
pub data StartResult (PeerId : Type 0) : Type 0 where
  already_started : StartResult PeerId
  panicked : ServerDiscovery PeerId → StartResult PeerId
  started_well : ServerDiscovery PeerId → StartResult PeerId

module _ {PeerId : Type 0} where
  pub start : ServerDiscovery PeerId → StartResult PeerId
  start sd =
      if sd.started
      then already_started
      else if ticker_starts sd.update_interval
      then started_well (record sd { started = true })
      else panicked (record sd { started = true })

  pub stop : ServerDiscovery PeerId → ServerDiscovery PeerId
  stop sd = if not sd.started then sd else record sd { started = false }
