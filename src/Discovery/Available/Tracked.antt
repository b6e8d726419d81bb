-- ===== src/Discovery/Available/Tracked.antt =====
-- What a selection does to the loads.
use goxic.Prelude.{ℕ, ◌<◌, ◌≡◌, ◌⊎◌, refl, ap, ◌∙◌, inl, inr, Option, none, some, arith}
use goxic.Prelude.Int.{pos_part, neg_part, max_int}
use goxic.Peer.{PeerIds}
use goxic.Discovery.State.{AddrInfo, ServerDiscovery, Host, DiscoverySettings}
use goxic.Discovery.Loads.Count.{current_load-same}
use goxic.Discovery.Refresh.{State}
use goxic.Discovery.Refresh.Apart.{refresh_server_list-loads, refresh_for_client-loads}
use goxic.Discovery.Select.Strategy.{HasInt64Loads, select_server-Selects}
use goxic.Discovery.Select.Shared.Even.{HasLoads, with_more, HasLoads-track}
use goxic.Discovery.Available.Kept.{refreshed-keeps}
use goxic.Discovery.Available.{refreshed, available, get_available_servers, select_available_server}

module _ (peers : PeerIds) (host : Host peers.PeerId) (cfg : DiscoverySettings) where
  open peers use {PeerId}
  open host use {now}

  refreshed-loads :
      (st : State peers host) → (refreshed peers host cfg st).1.server_loads ≡ st.1.server_loads
  refreshed-loads st =
      refreshed-keeps peers host cfg (λ st'. st'.1.server_loads ≡ st.1.server_loads) st refl
        (refresh_for_client-loads peers host cfg st) (refresh_server_list-loads peers host cfg st)

  HasInt64Loads-natural :
      (sd : ServerDiscovery PeerId) (f : PeerId → ℕ)
      → HasLoads peers sd f
      → ((p : PeerId) → f p < max_int)
      → HasInt64Loads peers sd
  HasInt64Loads-natural sd f h l p = omega (arith, l p, ap pos_part (h p), ap neg_part (h p))

  -- With no server the loads are as before, and else the selected server has one connection more.
  abbrev pub Counts : (PeerId → ℕ) → State peers host × Option (AddrInfo PeerId) → Type 0
  Counts f r =
      ((r.1 ≡ none) × HasLoads peers r.0.1 f)
      ⊎ ((t : AddrInfo PeerId) × (r.1 ≡ some t) × HasLoads peers r.0.1 (with_more peers t.id 1 f))

  pub select_available_server-Counts :
      (rand_intn : ℕ → ℕ) (st : State peers host) (f : PeerId → ℕ)
      → ((n : ℕ) → 0 < n → rand_intn n < n)
      → HasLoads peers st.1 f
      → ((p : PeerId) → f p < max_int)
      → Counts f (select_available_server peers host cfg rand_intn st)
  unfolding select_available_server get_available_servers
  select_available_server-Counts rand_intn st f r h l =
      let (w, sd) = refreshed peers host cfg st in
      let servers = available peers host sd.started w sd.server_peers in
      let k : HasLoads peers sd f =
        λ p. current_load-same peers sd st.1 p (refreshed-loads st) ∙ h p in
      elim (select_server-Selects peers cfg.selection_strategy cfg.preferred_exit_nodes rand_intn
        (now w) sd servers (HasInt64Loads-natural sd f k l) r) [
          | inl (e, n) ↦ rw (n, select_available_server) (inl (refl, k))
          | inr (t, e, m) ↦
              rw (e, select_available_server)
                (inr (t, refl, HasLoads-track peers sd f (now w) t.id k l))
        ]
