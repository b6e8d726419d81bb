-- ===== src/Discovery/Available/Kept.antt =====
-- What the calls of the rest of the program keep of the state.
use goxic.Prelude.{
  ◌≡◌, ◌⊎◌, refl, inl, inr, Bool-cases, ℕ, Bool, true, false, not, Option, none, some,
  if◌then◌else◌,
}
use goxic.Peer.{PeerIds}
use goxic.Discovery.State.{AddrInfo, ServerDiscovery, Host, DiscoverySettings}
use goxic.Discovery.Loads.{track_connection}
use goxic.Discovery.Refresh.{State, refresh_server_list, refresh_server_list_for_client}
use goxic.Discovery.Select.{Selection, select_server}
use goxic.Discovery.Select.Kept.{behind, select_server-keeps}
use goxic.Discovery.Periodic.{ticker_starts}
use goxic.Discovery.Available.{
  is_stale, refreshed, available, get_available_servers, select_available_server, already_started,
  panicked, started_well, start, stop,
}

module _ (peers : PeerIds) (host : Host peers.PeerId) (cfg : DiscoverySettings) where
  open peers use {PeerId}
  open host use {World, now}

  module _ (K : State peers host → Type 0) where
    if-keeps :
        (b c : Bool) (st x y : State peers host)
        → K st
        → K x
        → K y
        → K (if b then if c then x else y else st)
    if-keeps true true st x y h hx hy = hx
    if-keeps true false st x y h hx hy = hy
    if-keeps false c st x y h hx hy = h

    pub refreshed-keeps :
        (st : State peers host)
        → K st
        → K (refresh_server_list_for_client peers host cfg st).0
        → K (refresh_server_list peers host cfg st).0
        → K (refreshed peers host cfg st)
    unfolding refreshed
    refreshed-keeps (w, sd) = if-keeps (is_stale peers host (w, sd)) (not sd.started) (w, sd) _ _

  module _ (K : ServerDiscovery PeerId → Type 0)
      (tracks : (now : ℕ) (p : PeerId) (sd : ServerDiscovery PeerId)
        → K sd
        → K (track_connection peers now p sd)) where
    pub get_available_servers-keeps :
        (st : State peers host)
        → K (refreshed peers host cfg st).1
        → K (get_available_servers peers host cfg st).0.1
    unfolding get_available_servers
    get_available_servers-keeps st h = h

    behind-keeps :
        (st : State peers host) (r : Selection peers)
        → K (behind peers st.1 r)
        → K
            (elim r as (λ x. State peers host × Option (AddrInfo PeerId)) [
              | none ↦ (st, none)
              | some (s, sd) ↦ ((st.0, sd), some s)
            ]).0.1
    unfolding behind
    behind-keeps st none h = h
    behind-keeps st (some (s, sd)) h = h

    pub select_available_server-keeps :
        (rand_intn : ℕ → ℕ) (st : State peers host)
        → K (refreshed peers host cfg st).1
        → K (select_available_server peers host cfg rand_intn st).0.1
    unfolding select_available_server get_available_servers
    select_available_server-keeps rand_intn st h =
        let (w, sd) = refreshed peers host cfg st in
        let servers = available peers host sd.started w sd.server_peers in
        behind-keeps (w, sd)
          (select_server peers cfg.selection_strategy cfg.preferred_exit_nodes rand_intn (now w) sd
            servers)
          (select_server-keeps peers K tracks (now w) sd h cfg.selection_strategy
            cfg.preferred_exit_nodes rand_intn servers)

module _ {PeerId : Type 0} where
  pub start-cases :
      (sd : ServerDiscovery PeerId)
      → (start sd ≡ already_started)
        ⊎ ((start sd ≡ started_well (record sd { started = true }))
            ⊎ (start sd ≡ panicked (record sd { started = true })))
  unfolding start
  start-cases sd = elim (Bool-cases sd.started) [
    | inl e ↦ inl (rw e refl)
    | inr e ↦ elim (Bool-cases (ticker_starts sd.update_interval)) [
      | inl t ↦ inr (inl (rw (e, t) refl))
      | inr t ↦ inr (inr (rw (e, t) refl))
    ]
  ]

  pub stop-cases :
      (sd : ServerDiscovery PeerId) → (stop sd ≡ sd) ⊎ (stop sd ≡ record sd { started = false })
  unfolding stop
  stop-cases sd = elim (Bool-cases sd.started) [ inl e ↦ inr (rw e refl) | inr e ↦ inl (rw e refl) ]
