-- ===== src/Discovery/Refresh/Apart.antt =====
-- A refresh leaves the loads alone.
use goxic.Prelude.{◌≡◌, refl, ◌∙◌}
use goxic.Peer.{PeerIds}
use goxic.Discovery.State.{ServerDiscovery, Host, DiscoverySettings}
use goxic.Discovery.Failures.Apart.{
  is_blacklisted-server_loads, record_connection_failure-server_loads,
  record_connection_success-server_loads,
}
use goxic.Discovery.Refresh.{State, refresh_server_list, refresh_server_list_for_client}
use goxic.Discovery.Refresh.Kept.{IsKept, refresh_server_list-keeps, refresh_for_client-keeps}

module _ (peers : PeerIds) (host : Host peers.PeerId) where
  open peers use {PeerId}

  abbrev HasLoadsOf : ServerDiscovery PeerId → ServerDiscovery PeerId → Type 0
  HasLoadsOf old sd = sd.server_loads ≡ old.server_loads

  loads-IsKept : (old : ServerDiscovery PeerId) → IsKept peers (HasLoadsOf old)
  loads-IsKept old = record {
    asked = λ now p sd h. is_blacklisted-server_loads peers now p sd ∙ h;
    failed = λ now p sd h. record_connection_failure-server_loads peers now p sd ∙ h;
    succeeded = λ now p sd h. record_connection_success-server_loads peers now p sd ∙ h;
    stored = λ servers time sd h. h;
  }

  pub refresh_server_list-loads :
      (cfg : DiscoverySettings) (st : State peers host)
      → (refresh_server_list peers host cfg st).0.1.server_loads ≡ st.1.server_loads
  refresh_server_list-loads cfg st =
      refresh_server_list-keeps peers host (HasLoadsOf st.1) (loads-IsKept st.1) cfg st refl

  pub refresh_for_client-loads :
      (cfg : DiscoverySettings) (st : State peers host)
      → (refresh_server_list_for_client peers host cfg st).0.1.server_loads ≡ st.1.server_loads
  refresh_for_client-loads cfg st =
      refresh_for_client-keeps peers host (HasLoadsOf st.1) (loads-IsKept st.1) cfg st refl
