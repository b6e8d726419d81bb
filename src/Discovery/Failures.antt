-- ===== src/Discovery/Failures.antt =====
-- `isBlacklisted`, `recordConnectionFailure` and `recordConnectionSuccess`.
pub mod Blacklist
pub mod Apart
pub mod Entries
use goxic.Prelude.{ℕ, Bool, true, false, not, Option, none, some, if◌then◌else◌}
use goxic.Prelude.Int.{ℤ, pos, ltb_ℤ, inc_int, time_sub}
use goxic.Prelude.Dict.{lookup, insert}
use goxic.Peer.{PeerIds}
use goxic.Discovery.State.{PeerFailureInfo, ServerDiscovery}

module _ (peers : PeerIds) where
  open peers use {PeerId, same}

  failure_of : PeerId → ServerDiscovery PeerId → Option (PeerFailureInfo PeerId)
  failure_of p sd = lookup same p sd.peer_failures

  put_failure : PeerId → PeerFailureInfo PeerId → ServerDiscovery PeerId → ServerDiscovery PeerId
  put_failure p info sd = record sd { peer_failures = insert same p info sd.peer_failures }

  -- The entry of a peer, or a new one that holds nothing but the peer.
  entry : PeerId → Option (PeerFailureInfo PeerId) → PeerFailureInfo PeerId
  entry p (some info) = info
  entry p none = record { peer_id = p; failure_count = pos 0; last_failure = 0; last_success = 0 }

  -- The answer of `isBlacklisted` at a time. An entry whose time is over is reset.
  pub is_blacklisted : ℕ → PeerId → ServerDiscovery PeerId → Bool × ServerDiscovery PeerId
  unfolding failure_of put_failure
  is_blacklisted now p sd = elim (failure_of p sd) [
    | none ↦ (false, sd)
    | some info ↦
        if not (ltb_ℤ info.failure_count sd.max_failures)
        then if ltb_ℤ (time_sub now info.last_failure) sd.blacklist_time
          then (true, sd)
          else (false, put_failure p (record info { failure_count = pos 0 }) sd)
        else (false, sd)
  ]

  failed : ℕ → PeerFailureInfo PeerId → PeerFailureInfo PeerId
  failed now info = record info { failure_count = inc_int info.failure_count; last_failure = now }

  pub record_connection_failure : ℕ → PeerId → ServerDiscovery PeerId → ServerDiscovery PeerId
  unfolding failure_of put_failure entry failed
  record_connection_failure now p sd = put_failure p (failed now (entry p (failure_of p sd))) sd

  pub record_connection_success : ℕ → PeerId → ServerDiscovery PeerId → ServerDiscovery PeerId
  unfolding failure_of put_failure entry
  record_connection_success now p sd =
      let info = entry p (failure_of p sd) in
      put_failure p (record info { failure_count = pos 0; last_success = now }) sd
