-- ===== src/Discovery/Refresh.antt =====
-- `refreshServerList`, `refreshServerListForClient` and `isExitCapableServer`.
pub mod Collected
pub mod Kept
pub mod Apart
use goxic.Prelude.{
  ℕ, suc, ◌*◌, ◌^◌, Bool, true, false, not, List, [], ◌∷◌, Option, none, some, Bytes, ◌==◌,
  if◌then◌else◌, ◌||◌, is_some, strip_prefix,
}
use goxic.Prelude.Int.{ℤ, pos, ltb_ℤ, seconds}
use goxic.Peer.{PeerIds}
use goxic.Relay.Protocol.{relay_prefix}
use goxic.Discovery.State.{AddrInfo, ServerDiscovery, Host, DiscoverySettings}
use goxic.Discovery.Failures.{is_blacklisted, record_connection_failure, record_connection_success}

-- What a round of one of the loops does with a peer that the channel delivers: `break`, `continue`,
-- or append it to the new servers.
pub data Visit (S : Type 0) : Type 0 where
  full : Visit S
  passed : S → Visit S
  kept : S → Visit S

-- The loop over the channel, given its round, `peerCount` and the state.
pub collect : {A S : Type 0} → (A → ℕ → S → Visit S) → List A → ℕ → S → S × List A
collect visit [] n st = (st, [])
collect visit (p ∷ ps) n st = elim (visit p n st) [
  | full ↦ (st, [])
  | passed st' ↦ collect visit ps n st'
  | kept st' ↦ let r = collect visit ps (suc n) st' in (r.0, p ∷ r.1)
]

any_relay : List Bytes → Bool
any_relay [] = false
any_relay (proto ∷ protos) = is_some (strip_prefix relay_prefix proto) || any_relay protos

module _ (peers : PeerIds) (host : Host peers.PeerId) where
  open peers use {PeerId, same}
  open host use {World, self, connectedness, connect, close_peer, protocols, find_peers, sleep, now}

  -- The network and the discovery's own state.
  abbrev pub State : Type 0
  State = World × ServerDiscovery PeerId

  pub is_exit_capable_server : World → PeerId → Bool
  is_exit_capable_server w p = elim (protocols w p) [
    | none ↦ false
    | some protos ↦ any_relay protos
  ]

  -- A peer that is connected, maybe just now, is kept if it offers the relay protocol.
  verify_server : Bool → AddrInfo PeerId → State → Visit State
  unfolding is_exit_capable_server
  verify_server just_connected p (w, sd) =
      let w' = sleep w (100 * 10 ^ 6) in
      if not (is_exit_capable_server w' p.id)
      then passed (if just_connected then close_peer w' p.id else w', sd)
      else kept (w', sd)

  connect_server : AddrInfo PeerId → State → Visit State
  unfolding verify_server
  connect_server p (w, sd) =
      let (w', succeeded) = connect w (seconds (pos 5)) p in
      if not succeeded
      then passed (w', record_connection_failure peers (now w') p.id sd)
      else verify_server true p (w', record_connection_success peers (now w') p.id sd)

  -- The round of `refreshServerList`.
  pub visit_server : ℤ → AddrInfo PeerId → ℕ → State → Visit State
  unfolding connect_server verify_server
  visit_server max_servers p peer_count (w, sd) =
      if same p.id self
      then passed (w, sd)
      else if not (ltb_ℤ (pos peer_count) max_servers)
      then full
      else let asked = is_blacklisted peers (now w) p.id sd in
        if asked.0
        then passed (w, asked.1)
        else if connectedness w p.id == 0
        then connect_server p (w, asked.1)
        else verify_server false p (w, asked.1)

  connect_client : ℤ → AddrInfo PeerId → State → Visit State
  connect_client timeout p (w, sd) =
      let (w', succeeded) = connect w (seconds timeout) p in
      if not succeeded then passed (w', sd) else kept (w', sd)

  -- The round of `refreshServerListForClient`.
  pub visit_client : ℤ → ℤ → AddrInfo PeerId → ℕ → State → Visit State
  unfolding connect_client
  visit_client max_servers timeout p peer_count (w, sd) =
      if same p.id self
      then passed (w, sd)
      else if not (ltb_ℤ (pos peer_count) max_servers)
      then full
      else if connectedness w p.id == 0
      then connect_client timeout p (w, sd)
      else kept (w, sd)

  -- A refresh with a loop: the new state, and whether it failed.
  refresh_with :
      (AddrInfo PeerId → ℕ → State → Visit State) → DiscoverySettings → State → State × Bool
  unfolding collect
  refresh_with visit cfg (w, sd) =
      let (w', found) = find_peers w (seconds cfg.query_timeout_sec) cfg.network_name in
      elim found [
        | none ↦ ((w', sd), true)
        | some delivered ↦
            let r = collect visit delivered 0 (w', sd) in
            ((r.0.0, record (r.0.1) { server_peers = r.1; last_update = now r.0.0 }), false)
      ]

  pub refresh_server_list : DiscoverySettings → State → State × Bool
  unfolding refresh_with visit_server
  refresh_server_list cfg = refresh_with (visit_server cfg.max_servers) cfg

  pub refresh_server_list_for_client : DiscoverySettings → State → State × Bool
  unfolding refresh_with visit_client
  refresh_server_list_for_client cfg =
      refresh_with (visit_client cfg.max_servers cfg.connection_timeout) cfg
