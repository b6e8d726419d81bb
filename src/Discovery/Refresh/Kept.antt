-- ===== src/Discovery/Refresh/Kept.antt =====
-- What a refresh keeps: a property of discovery that its calls on the records of failures and the
-- store of a new list keep.
use goxic.Prelude.{
  ◌≡◌, refl, ℕ, suc, Bool, true, false, not, List, [], ◌∷◌, if◌then◌else◌, ◌==◌, Option-cases, inl,
  inr,
}
use goxic.Prelude.Int.{ℤ, pos, ltb_ℤ, seconds}
use goxic.Peer.{PeerIds}
use goxic.Discovery.State.{AddrInfo, ServerDiscovery, Host, DiscoverySettings}
use goxic.Discovery.Failures.{is_blacklisted, record_connection_failure, record_connection_success}
use goxic.Discovery.Refresh.{
  Visit, full, passed, kept, collect, State, verify_server, connect_server, visit_server,
  connect_client, visit_client, refresh_with, refresh_server_list, refresh_server_list_for_client,
}

module _ (peers : PeerIds) where
  open peers use {PeerId}

  pub record IsKept (K : ServerDiscovery PeerId → Type 0) : Type 0 where
    pub asked :
        (now : ℕ) (p : PeerId) (sd : ServerDiscovery PeerId)
        → K sd
        → K (is_blacklisted peers now p sd).1
    pub failed :
        (now : ℕ) (p : PeerId) (sd : ServerDiscovery PeerId)
        → K sd
        → K (record_connection_failure peers now p sd)
    pub succeeded :
        (now : ℕ) (p : PeerId) (sd : ServerDiscovery PeerId)
        → K sd
        → K (record_connection_success peers now p sd)
    pub stored :
        (servers : List (AddrInfo PeerId)) (time : ℕ) (sd : ServerDiscovery PeerId)
        → K sd
        → K (record sd { server_peers = servers; last_update = time })

module _ (peers : PeerIds) (host : Host peers.PeerId) where
  open peers use {PeerId, same}
  open host use {self, connectedness, connect, close_peer, find_peers, sleep, now}

  module _ (K : ServerDiscovery PeerId → Type 0) (kept_by : IsKept peers K) where
    -- A round leaves a discovery with the property.
    data Leaves : Visit (State peers host) → Type 0 where
      at_full : Leaves full
      at_passed : (st : State peers host) → K st.1 → Leaves (passed st)
      at_kept : (st : State peers host) → K st.1 → Leaves (kept st)

    if-Leaves :
        (b : Bool) (x y : Visit (State peers host))
        → Leaves x
        → Leaves y
        → Leaves (if b then x else y)
    if-Leaves true x y hx hy = hx
    if-Leaves false x y hx hy = hy

    verify_server-Leaves :
        (just : Bool) (p : AddrInfo PeerId) (st : State peers host)
        → K st.1
        → Leaves (verify_server peers host just p st)
    unfolding verify_server
    verify_server-Leaves just p (w, sd) h = if-Leaves _ _ _ (at_passed _ h) (at_kept _ h)

    connect_server-Leaves :
        (p : AddrInfo PeerId) (st : State peers host)
        → K st.1
        → Leaves (connect_server peers host p st)
    unfolding connect_server
    connect_server-Leaves p (w, sd) h =
        let (w', succeeded) = connect w (seconds (pos 5)) p in
        if-Leaves (not succeeded) _ _ (at_passed _ (kept_by.failed (now w') p.id sd h))
          (verify_server-Leaves true p _ (kept_by.succeeded (now w') p.id sd h))

    visit_server-Leaves :
        (max_servers : ℤ) (p : AddrInfo PeerId) (n : ℕ) (st : State peers host)
        → K st.1
        → Leaves (visit_server peers host max_servers p n st)
    unfolding visit_server
    visit_server-Leaves max_servers p n (w, sd) h =
        let asked = is_blacklisted peers (now w) p.id sd in
        let still = kept_by.asked (now w) p.id sd h in
        let goes_on : Leaves (
            if connectedness w p.id == 0
            then connect_server peers host p (w, asked.1)
            else verify_server peers host false p (w, asked.1)) =
          if-Leaves (connectedness w p.id == 0) _ _ (connect_server-Leaves p (w, asked.1) still)
            (verify_server-Leaves false p (w, asked.1) still) in
        if-Leaves (same p.id self) (passed (w, sd)) _ (at_passed (w, sd) h) (
          if-Leaves (not (ltb_ℤ (pos n) max_servers)) full _ at_full
            (if-Leaves asked.0 (passed (w, asked.1)) _ (at_passed (w, asked.1) still) goes_on))

    connect_client-Leaves :
        (timeout : ℤ) (p : AddrInfo PeerId) (st : State peers host)
        → K st.1
        → Leaves (connect_client peers host timeout p st)
    unfolding connect_client
    connect_client-Leaves timeout p (w, sd) h =
        let (w', succeeded) = connect w (seconds timeout) p in
        if-Leaves (not succeeded) (passed (w', sd)) (kept (w', sd)) (at_passed (w', sd) h)
          (at_kept (w', sd) h)

    visit_client-Leaves :
        (max_servers timeout : ℤ) (p : AddrInfo PeerId) (n : ℕ) (st : State peers host)
        → K st.1
        → Leaves (visit_client peers host max_servers timeout p n st)
    unfolding visit_client
    visit_client-Leaves max_servers timeout p n (w, sd) h =
        let connects : Leaves (
            if connectedness w p.id == 0
            then connect_client peers host timeout p (w, sd)
            else kept (w, sd)) =
          if-Leaves (connectedness w p.id == 0) _ (kept (w, sd))
            (connect_client-Leaves timeout p (w, sd) h) (at_kept (w, sd) h) in
        if-Leaves (same p.id self) (passed (w, sd)) _ (at_passed (w, sd) h)
          (if-Leaves (not (ltb_ℤ (pos n) max_servers)) full _ at_full connects)

    module _ (visit : AddrInfo PeerId → ℕ → State peers host → Visit (State peers host))
        (leaves : (p : AddrInfo PeerId) (n : ℕ) (st : State peers host)
          → K st.1
          → Leaves (visit p n st)) where
      visited :
          (v : Visit (State peers host)) (ps : List (AddrInfo PeerId)) (p : AddrInfo PeerId) (n : ℕ)
          (st : State peers host)
          → ((st' : State peers host) (m : ℕ) → K st'.1 → K (collect visit ps m st').0.1)
          → visit p n st ≡ v
          → Leaves v
          → K st.1
          → K (collect visit (p ∷ ps) n st).0.1
      unfolding collect
      visited v ps p n st rest e at_full h = rw (e, collect) h
      visited v ps p n st rest e (at_passed st' l) h = rw (e, collect) (rest st' n l)
      visited v ps p n st rest e (at_kept st' l) h = rw (e, collect) (rest st' (suc n) l)

      collect-keeps :
          (ps : List (AddrInfo PeerId)) (n : ℕ) (st : State peers host)
          → K st.1
          → K (collect visit ps n st).0.1
      unfolding collect
      collect-keeps [] n st h = h
      collect-keeps (p ∷ ps) n st h =
          visited (visit p n st) ps p n st (λ st' m k. collect-keeps ps m st' k) refl
            (leaves p n st h) h

      refresh_with-keeps :
          (cfg : DiscoverySettings) (st : State peers host)
          → K st.1
          → K (refresh_with peers host visit cfg st).0.1
      unfolding refresh_with
      refresh_with-keeps cfg (w, sd) h =
          let (w', found) = find_peers w (seconds cfg.query_timeout_sec) cfg.network_name in
          elim (Option-cases found) [
            | inl e ↦ rw (e, refresh_with) h
            | inr (delivered, e) ↦
                rw (e, refresh_with) (kept_by.stored _ _ _ (collect-keeps delivered 0 (w', sd) h))
          ]

    pub refresh_server_list-keeps :
        (cfg : DiscoverySettings) (st : State peers host)
        → K st.1
        → K (refresh_server_list peers host cfg st).0.1
    unfolding refresh_server_list
    refresh_server_list-keeps cfg =
        refresh_with-keeps (visit_server peers host cfg.max_servers)
          (visit_server-Leaves cfg.max_servers) cfg

    pub refresh_for_client-keeps :
        (cfg : DiscoverySettings) (st : State peers host)
        → K st.1
        → K (refresh_server_list_for_client peers host cfg st).0.1
    unfolding refresh_server_list_for_client
    refresh_for_client-keeps cfg =
        refresh_with-keeps (visit_client peers host cfg.max_servers cfg.connection_timeout)
          (visit_client-Leaves cfg.max_servers cfg.connection_timeout) cfg
