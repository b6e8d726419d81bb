-- ===== src/Discovery/Loads.antt =====
-- `TrackConnection`, `ReleaseConnection` and `GetServerLoad`.
pub mod Count
pub mod Entries
use goxic.Prelude.{ℕ, ◌+◌, Bool, Option, none, some, if◌then◌else◌}
use goxic.Prelude.Int.{ℤ, pos, ltb_ℤ, inc_int, dec_int}
use goxic.Prelude.Dict.{lookup, insert}
use goxic.Peer.{PeerIds}
use goxic.Discovery.State.{ServerLoadInfo, ServerDiscovery}

-- The safety check of `ReleaseConnection`.
pub at_least_zero : ℤ → ℤ
at_least_zero n = if ltb_ℤ n (pos 0) then pos 0 else n

module _ (peers : PeerIds) where
  open peers use {PeerId, same}

  load_of : PeerId → ServerDiscovery PeerId → Option (ServerLoadInfo PeerId)
  load_of p sd = lookup same p sd.server_loads

  put_load : PeerId → ServerLoadInfo PeerId → ServerDiscovery PeerId → ServerDiscovery PeerId
  put_load p info sd = record sd { server_loads = insert same p info sd.server_loads }

  -- The entry of a peer with one more connection; a new entry starts at one.
  tracked : ℕ → PeerId → Option (ServerLoadInfo PeerId) → ServerLoadInfo PeerId
  tracked now p (some info) = record info {
    active_conns = inc_int info.active_conns;
    total_conns = inc_int info.total_conns;
    last_used = now;
  }
  tracked now p none = record {
    peer_id = p;
    active_conns = pos 1;
    total_conns = pos 1;
    last_used = now;
  }

  -- `TrackConnection` at a time.
  pub track_connection : ℕ → PeerId → ServerDiscovery PeerId → ServerDiscovery PeerId
  unfolding load_of put_load tracked
  track_connection now p sd = put_load p (tracked now p (load_of p sd)) sd

  pub release_connection : PeerId → ServerDiscovery PeerId → ServerDiscovery PeerId
  unfolding load_of put_load at_least_zero
  release_connection p sd = elim (load_of p sd) [
    | some info ↦
        put_load p (record info { active_conns = at_least_zero (dec_int info.active_conns) }) sd
    | none ↦ sd
  ]

  get_server_load : PeerId → ServerDiscovery PeerId → Option (ServerLoadInfo PeerId)
  unfolding load_of
  get_server_load p sd = elim (load_of p sd) [
    | some info ↦ some (record {
      peer_id = info.peer_id;
      active_conns = info.active_conns;
      total_conns = info.total_conns;
      last_used = info.last_used;
    })
    | none ↦ none
  ]

  -- The number of active connections that `selectLoadBalancedServer` reads.
  pub current_load : ServerDiscovery PeerId → PeerId → ℤ
  unfolding load_of
  current_load sd p = elim (load_of p sd) [ some info ↦ info.active_conns | none ↦ pos 0 ]
