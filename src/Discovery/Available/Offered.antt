-- ===== src/Discovery/Available/Offered.antt =====
-- Which servers are offered for selection.
use goxic.Prelude.{
  ◌≡◌, ◌↔◌, refl, sym, ap, subst, ◌∙◌, Bool, true, false, List, [], ◌∷◌, arith, Elem, IsSublist,
  Bool-cases, inl, inr, stop, skip, keep,
}
use goxic.Peer.{PeerIds}
use goxic.Discovery.State.{AddrInfo, Host, DiscoverySettings}
use goxic.Prelude.Int.{ltb_ℤ, time_sub}
use goxic.Discovery.Refresh.{
  State, is_exit_capable_server, refresh_server_list, refresh_server_list_for_client,
}
use goxic.Discovery.Available.{is_stale, is_available, available, get_available_servers, refreshed}

module _ (peers : PeerIds) (host : Host peers.PeerId) where
  open peers use {PeerId, same}
  open host use {World, self, connectedness, now}

  -- A server that may be selected: another node that is connected and, for a server of the mesh,
  -- offers the relay protocol.
  pub record IsUsable (started : Bool) (w : World) (s : AddrInfo PeerId) : Type 0 where
    pub other : same s.id self ≡ false
    pub connected : connectedness w s.id ≡ 1
    pub capable : started ≡ true → is_exit_capable_server peers host w s.id ≡ true

  is_available-IsUsable :
      (started : Bool) (w : World) (s : AddrInfo PeerId)
      → is_available peers host started w s ≡ true
      → IsUsable started w s
  unfolding is_available
  is_available-IsUsable started w s h = record {
    other = ground arith;
    connected = ground arith;
    capable = λ e. ground arith;
  }

  IsUsable-is_available :
      (started : Bool) (w : World) (s : AddrInfo PeerId)
      → IsUsable started w s
      → is_available peers host started w s ≡ true
  unfolding is_available
  IsUsable-is_available true w s u = ground (arith, u.other, u.connected, u.capable refl)
  IsUsable-is_available false w s u = ground (arith, u.other, u.connected)

  offered :
      (started : Bool) (w : World) (s : AddrInfo PeerId) (ss : List (AddrInfo PeerId))
      → is_available peers host started w s ≡ true
      → available peers host started w (s ∷ ss) ≡ s ∷ available peers host started w ss
  unfolding available
  offered started w s ss e = rw e

  skipped :
      (started : Bool) (w : World) (s : AddrInfo PeerId) (ss : List (AddrInfo PeerId))
      → is_available peers host started w s ≡ false
      → available peers host started w (s ∷ ss) ≡ available peers host started w ss
  unfolding available
  skipped started w s ss e = rw e

  available-IsSublist :
      (started : Bool) (w : World) (ss : List (AddrInfo PeerId))
      → IsSublist (available peers host started w ss) ss
  available-IsSublist started w [] = unfold available in stop
  available-IsSublist started w (s ∷ ss) = elim (Bool-cases (is_available peers host started w s)) [
    | inl e ↦
        subst (λ x. IsSublist x (s ∷ ss)) (sym (offered started w s ss e))
          (keep (available-IsSublist started w ss))
    | inr e ↦
        subst (λ x. IsSublist x (s ∷ ss)) (sym (skipped started w s ss e))
          (skip (available-IsSublist started w ss))
  ]

  Elem-available :
      (started : Bool) (w : World) (t : AddrInfo PeerId) (ss : List (AddrInfo PeerId))
      → Elem t (available peers host started w ss)
      → Elem t ss × IsUsable started w t
  Elem-available started w t [] h = let nothing : ⊥ = unfold available in h in absurd nothing
  Elem-available started w t (s ∷ ss) h = elim (Bool-cases (is_available peers host started w s)) [
    | inl e ↦ elim (subst (Elem t) (offered started w s ss e) h) [
      | inl f ↦
          (inl f, is_available-IsUsable started w t (ap (is_available peers host started w) f ∙ e))
      | inr m ↦ let (a, b) = Elem-available started w t ss m in (inr a, b)
    ]
    | inr e ↦
        let (a, b) = Elem-available started w t ss (subst (Elem t) (skipped started w s ss e) h) in
        (inr a, b)
  ]

  available-Elem :
      (started : Bool) (w : World) (t : AddrInfo PeerId) (ss : List (AddrInfo PeerId))
      → Elem t ss
      → IsUsable started w t
      → Elem t (available peers host started w ss)
  available-Elem started w t [] h u = elim h [ ]
  available-Elem started w t (s ∷ ss) (inl f) u =
      subst (Elem t)
        (sym (
          offered started w s ss
            (ap (is_available peers host started w) (sym f) ∙ IsUsable-is_available started w t u)))
        (inl f)
  available-Elem started w t (s ∷ ss) (inr m) u =
      let ih = available-Elem started w t ss m u in
      elim (Bool-cases (is_available peers host started w s)) [
        | inl e ↦ subst (Elem t) (sym (offered started w s ss e)) (inr ih)
        | inr e ↦ subst (Elem t) (sym (skipped started w s ss e)) ih
      ]

  -- The state that a call works on: as it was while the list is no older than the interval, and else
  -- the one that a refresh leaves, of the server mesh where discovery is started, and of a client
  -- where it is not.
  pub record IsUpToDate (cfg : DiscoverySettings) (st st' : State peers host) : Type 0 where
    pub fresh : ltb_ℤ st.1.update_interval (time_sub (now st.0) st.1.last_update) ≡ false → st' ≡ st
    pub as_server :
        ltb_ℤ st.1.update_interval (time_sub (now st.0) st.1.last_update) ≡ true
        → st.1.started ≡ true
        → st' ≡ (refresh_server_list peers host cfg st).0
    pub as_client :
        ltb_ℤ st.1.update_interval (time_sub (now st.0) st.1.last_update) ≡ true
        → st.1.started ≡ false
        → st' ≡ (refresh_server_list_for_client peers host cfg st).0

  refreshed-IsUpToDate :
      (cfg : DiscoverySettings) (st : State peers host)
      → IsUpToDate cfg st (refreshed peers host cfg st)
  unfolding refreshed is_stale
  refreshed-IsUpToDate cfg (w, sd) = record {
    fresh = λ e. rw e refl;
    as_server = λ e s. rw (e, s) refl;
    as_client = λ e s. rw (e, s) refl;
  }

  -- `GetAvailableServers` first brings its state up to date: the list is refreshed exactly if it is
  -- older than the interval, by the refresh of the server mesh on a started discovery, and by that
  -- of a client on another. It then offers, in the order of the list, exactly the servers that are
  -- other nodes, are connected and, on a started discovery, offer the relay protocol.
  pub get_available_servers_iff :
      (cfg : DiscoverySettings) (st : State peers host)
      → let r = get_available_servers peers host cfg st in
        IsUpToDate cfg st r.0
        × IsSublist r.1 r.0.1.server_peers
        × ((t : AddrInfo PeerId)
            → Elem t r.1 ↔ (Elem t r.0.1.server_peers × IsUsable r.0.1.started r.0.0 t))
  unfolding get_available_servers
  get_available_servers_iff cfg st =
      let (w, sd) = refreshed peers host cfg st in
      (
        refreshed-IsUpToDate cfg st,
        available-IsSublist sd.started w sd.server_peers,
        λ t. (
          Elem-available sd.started w t sd.server_peers,
          λ h. available-Elem sd.started w t sd.server_peers h.0 h.1,
        ),
      )
