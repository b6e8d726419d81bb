-- ===== src/Socks5/Connection/Sessions/Counted.antt =====
-- The loads of discovery and the goroutines that hold a server.
use goxic.Prelude.{
  ℕ, ◌+◌, ◌<◌, ◌≤◌, ◌≡◌, refl, sym, ap, subst, ◌∙◌, inl, inr, List, [], ◌∷◌, ◌++◌, Option, none,
  some, Bytes, arith, length, length-append, some-eq-some,
}
use goxic.Prelude.Int.{pos, max_int}
use goxic.Peer.{PeerIds}
use goxic.Wire.{Conn, Outcome, ok, err}
use goxic.Relay.Target.{send_target_addr}
use goxic.Discovery.State.{AddrInfo, Host, DiscoverySettings}
use goxic.Discovery.Loads.{current_load}
use goxic.Discovery.Loads.Count.{current_load-release_one, current_load-same}
use goxic.Discovery.Refresh.{State, refresh_server_list}
use goxic.Discovery.Refresh.Apart.{refresh_server_list-loads}
use goxic.Discovery.Available.{select_available_server}
use goxic.Discovery.Available.Tracked.{Counts, select_available_server-Counts}
use goxic.Discovery.Select.Shared.Even.{HasLoads, with_more}
use goxic.Socks5.Handshake.{handle_authentication, handle_request}
use goxic.Socks5.Connection.{Streams, proxy_name, create_proxy_stream}
use goxic.Socks5.Connection.Sessions.{
  Session, accepted, greeted, asked, selected, opened, bridging, bridged, closed, left, on_greeting,
  on_request, on_selection, on_opening, on_sending, advance, Proxy, Move, accepts, advances,
  refreshes, environment, Reach, here, move,
}
use goxic.Socks5.Connection.Sessions.Held.{
  in_use, lost, one, number, holds, all_held, all_held-split, all_held_le,
}

module _ (peers : PeerIds) (host : Host peers.PeerId) (net : Streams peers.PeerId host.World)
    (cfg : DiscoverySettings) where
  open peers use {PeerId, same}
  open host use {World}

  -- The loads are what one goroutine holds, and `n` for the others.
  abbrev IsCountedWith : (PeerId → ℕ) → State peers host × Session PeerId → Type 0
  IsCountedWith n r = HasLoads peers r.0.1 (λ p. holds peers p r.1 + n p)

  on_greeting-holds :
      (p : PeerId) (r : Outcome (Unit {0})) → holds peers p (on_greeting peers host net cfg r) ≡ 0
  unfolding on_greeting holds one in_use lost
  on_greeting-holds p (err e client) = refl
  on_greeting-holds p (ok u client) = refl

  on_request-holds :
      (p : PeerId) (r : Outcome Bytes) → holds peers p (on_request peers host net cfg r) ≡ 0
  unfolding on_request holds one in_use lost
  on_request-holds p (err e client) = refl
  on_request-holds p (ok target client) = refl

  on_opening-holds :
      (p : PeerId) (target : Bytes) (client : Conn) (server : AddrInfo PeerId) (r : Option Conn)
      → holds peers p (selected target client server)
        ≡ holds peers p (on_opening peers host net cfg target client server r)
  unfolding on_opening holds one in_use lost
  on_opening-holds p target client server none = omega arith
  on_opening-holds p target client server (some stream) = refl

  on_sending-holds :
      (p : PeerId) (target : Bytes) (client stream : Conn) (server : AddrInfo PeerId)
      (r : Outcome (Unit {0}))
      → holds peers p (opened target client stream server)
        ≡ holds peers p (on_sending peers host net cfg client server r)
  unfolding on_sending holds one in_use lost
  on_sending-holds p target client stream server (err e left_stream) = omega arith
  on_sending-holds p target client stream server (ok u sent_stream) = refl

  on_selection-counted :
      (n : PeerId → ℕ) (target : Bytes) (client : Conn)
      (r : State peers host × Option (AddrInfo PeerId))
      → Counts peers host cfg n r
      → IsCountedWith n (r.0, on_selection peers host net cfg target client r.1)
  unfolding on_selection holds one in_use lost
  on_selection-counted n target client (st, none) (inl (e, h)) = λ p. h p ∙ ap pos (omega arith)
  on_selection-counted n target client (st, none) (inr (t, e, h)) = cc e
  on_selection-counted n target client (st, some server) (inl (e, h)) = cc e
  on_selection-counted n target client (st, some server) (inr (t, e, h)) = λ p.
      let k =
        subst (λ (s : AddrInfo PeerId). HasLoads peers st.1 (with_more peers s.id 1 n))
          (sym (some-eq-some e)) h in
      k p ∙ ap pos (ground arith)

  module _ (in_range : (m : ℕ) → 0 < m → net.rand_intn m < m) (n : PeerId → ℕ)
      (low : (p : PeerId) → n p + 1 < max_int) where
    advance-counted :
        (st : State peers host) (c : Session PeerId)
        → IsCountedWith n (st, c)
        → IsCountedWith n (advance peers host net cfg st c)
    unfolding advance holds one in_use lost
    advance-counted st (accepted client) h =
        λ p. h p ∙ ap pos (omega (arith, on_greeting-holds p (handle_authentication client)))
    advance-counted st (greeted client) h =
        λ p. h p ∙ ap pos (omega (arith, on_request-holds p (handle_request client)))
    advance-counted st (asked target client) h =
        on_selection-counted n target client
          (select_available_server peers host cfg net.rand_intn st)
          (select_available_server-Counts peers host cfg net.rand_intn st n in_range
            (λ p. h p ∙ ap pos (omega arith)) (λ p. omega (arith, low p)))
    advance-counted (w, sd) (selected target client server) h =
        let r = create_proxy_stream peers host net w server (proxy_name (net.unix_nano w)) in
        λ p. h p ∙ ap (λ k. pos (k + n p)) (on_opening-holds p target client server r.1)
    advance-counted st (opened target client stream server) h = λ p.
        h p
        ∙ ap (λ k. pos (k + n p))
            (on_sending-holds p target client stream server (send_target_addr target stream))
    advance-counted (w, sd) (bridging client stream server) h = h
    advance-counted (w, sd) (bridged client stream server) h = λ p.
        current_load-release_one peers sd n server.id low (λ q. h q ∙ ap pos (ground arith)) p
        ∙ ap pos (omega arith)
    advance-counted st (closed client stream) h = h
    advance-counted st (left client stream server) h = h

  -- Each peer's load is the number of goroutines that run with its server, and of those that returned
  -- without a release.
  abbrev IsCounted : Proxy peers host net cfg → Type 0
  IsCounted s =
      (p : PeerId)
      → current_load peers s.shared.1 p
        ≡ pos (number peers (in_use peers) p s.sessions + number peers (lost peers) p s.sessions)

  module _ (in_range : (m : ℕ) → 0 < m → net.rand_intn m < m) where
    advances-IsCounted :
        (s : Proxy peers host net cfg) (before after : List (Session PeerId)) (c : Session PeerId)
        → s.sessions ≡ before ++ (c ∷ after)
        → length before + length after + 1 < max_int
        → IsCounted s
        → IsCounted (record {
          shared = (advance peers host net cfg s.shared c).0;
          sessions = before ++ ((advance peers host net cfg s.shared c).1 ∷ after);
        })
    advances-IsCounted s before after c e l h =
        let n = λ (p : PeerId). all_held peers p before + all_held peers p after in
        let low = λ (p : PeerId).
          let x = all_held_le peers p before in
          let y = all_held_le peers p after in
          let z : n p + 1 < max_int = omega (arith, x, y, l) in z in
        let k : IsCountedWith n (s.shared, c) = λ p.
          h p
          ∙ ap (λ cs. pos (all_held peers p cs)) e
          ∙ ap pos (all_held-split peers p before after c) in
        λ p.
          advance-counted in_range n low s.shared c k p
          ∙ ap pos
              (sym (all_held-split peers p before after (advance peers host net cfg s.shared c).1))

    Move-IsCounted :
        {s t : Proxy peers host net cfg}
        → Move peers host net cfg s t
        → length t.sessions < max_int
        → IsCounted s
        → IsCounted t
    unfolding holds one in_use lost number
    Move-IsCounted {s = s} (accepts client) l h =
        λ p. h p ∙ ap pos (omega (arith, all_held-split peers p s.sessions [] (accepted client)))
    Move-IsCounted {s = s} (advances before after c e) l h =
        let rest = (advance peers host net cfg s.shared c).1 ∷ after in
        advances-IsCounted s before after c e (omega (arith, length-append before rest, l)) h
    Move-IsCounted {s = s} refreshes l h = λ p.
        current_load-same peers (refresh_server_list peers host cfg s.shared).0.1 s.shared.1 p
          (refresh_server_list-loads peers host cfg s.shared)
        ∙ h p
    Move-IsCounted (environment w) l h = h

    Move-longer :
        {s t : Proxy peers host net cfg}
        → Move peers host net cfg s t
        → length s.sessions ≤ length t.sessions
    Move-longer {s = s} (accepts client) =
        omega (arith, length-append s.sessions (accepted client ∷ []))
    Move-longer {s = s} (advances before after c e) =
        let rest = (advance peers host net cfg s.shared c).1 ∷ after in
        omega (arith, ap length e, length-append before (c ∷ after), length-append before rest)
    Move-longer refreshes = omega arith
    Move-longer (environment w) = omega arith

    -- Whatever any number of clients, the network and the refreshes do in any order: from loads that
    -- count the goroutines of `handleConnection`, the load of every peer stays the number of running
    -- goroutines that have selected it, and of those that returned without releasing it. There are
    -- fewer goroutines than the largest 64-bit integer, and `rand.Intn` gives a number below its
    -- bound.
    pub Reach-IsCounted :
        (s : Proxy peers host net cfg) {t : Proxy peers host net cfg}
        → IsCounted s
        → Reach peers host net cfg s t
        → length t.sessions < max_int
        → IsCounted t
    Reach-IsCounted s h here l = h
    Reach-IsCounted s h (move r m) l =
        let g = Move-longer m in Move-IsCounted m l (Reach-IsCounted s h r (omega (arith, g, l)))
