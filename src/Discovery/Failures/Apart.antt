-- ===== src/Discovery/Failures/Apart.antt =====
-- The records of failures are kept apart from the loads.
use goxic.Prelude.{◌≡◌, refl, ℕ, arith, Option-cases, inl, inr}
use goxic.Peer.{PeerIds}
use goxic.Discovery.State.{ServerDiscovery}
use goxic.Discovery.Failures.{
  failure_of, put_failure, is_blacklisted, record_connection_failure, record_connection_success,
}

module _ (peers : PeerIds) where
  open peers use {PeerId}

  pub is_blacklisted-server_loads :
      (now : ℕ) (p : PeerId) (sd : ServerDiscovery PeerId)
      → (is_blacklisted peers now p sd).1.server_loads ≡ sd.server_loads
  unfolding is_blacklisted put_failure
  is_blacklisted-server_loads now p sd = elim (Option-cases (failure_of peers p sd)) [
    | inl e ↦ ground (arith, e)
    | inr (info, e) ↦ ground (arith, e)
  ]

  pub record_connection_failure-server_loads :
      (now : ℕ) (p : PeerId) (sd : ServerDiscovery PeerId)
      → (record_connection_failure peers now p sd).server_loads ≡ sd.server_loads
  unfolding record_connection_failure put_failure
  record_connection_failure-server_loads now p sd = refl

  pub record_connection_success-server_loads :
      (now : ℕ) (p : PeerId) (sd : ServerDiscovery PeerId)
      → (record_connection_success peers now p sd).server_loads ≡ sd.server_loads
  unfolding record_connection_success put_failure
  record_connection_success-server_loads now p sd = refl
