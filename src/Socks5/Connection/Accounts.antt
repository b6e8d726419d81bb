-- ===== src/Socks5/Connection/Accounts.antt =====
-- What each way through `handleConnection` does to the loads that discovery keeps.
use goxic.Prelude.{
  ap, ℕ, ◌+◌, ◌<◌, ◌≡◌, refl, sym, inl, inr, Option, none, some, Bytes, arith, subst, some-eq-some,
}
use goxic.Prelude.Int.{max_int}
use goxic.Peer.{PeerIds}
use goxic.Wire.{Conn, WireError, Outcome, ok, err}
use goxic.Relay.Target.{send_target_addr}
use goxic.Discovery.State.{AddrInfo, ServerDiscovery, Host, DiscoverySettings}
use goxic.Discovery.Loads.{release_connection}
use goxic.Discovery.Loads.Count.{current_load-release_one}
use goxic.Discovery.Refresh.{State}
use goxic.Discovery.Available.{select_available_server}
use goxic.Discovery.Available.Tracked.{Counts, select_available_server-Counts}
use goxic.Discovery.Select.Shared.Even.{HasLoads, with_more}
use goxic.Socks5.Handshake.{handle_authentication, handle_request}
use goxic.Socks5.Connection.{
  Streams, replied, proxy_name, Served, create_proxy_stream, relay_traffic, after_sending,
  after_opening, after_selecting, after_request, after_greeting, serve_connection,
}

module _ (peers : PeerIds) (host : Host peers.PeerId) (net : Streams peers.PeerId host.World)
    (cfg : DiscoverySettings) where
  open peers use {PeerId}
  open host use {World}

  -- A client that is greeted and asks for a target.
  abbrev Asks : Conn → Bytes → Conn → Type 0
  Asks client target client' =
      (greeted : Conn) × (handle_authentication client ≡ ok tt greeted)
      × (handle_request greeted ≡ ok target client')

  abbrev opens : State peers host → AddrInfo PeerId → World × Option Conn
  opens (w, sd) server = create_proxy_stream peers host net w server (proxy_name (net.unix_nano w))

  abbrev selects : State peers host → State peers host × Option (AddrInfo PeerId)
  selects = select_available_server peers host cfg net.rand_intn

  -- What discovery counts at the end, by how far the connection came.
  pub data Accounts (f : PeerId → ℕ) (st : State peers host) (client : Conn)
      : Served peers host net → Type 0 where
    refused :
        (end : State peers host) (left : Conn)
        → ((target : Bytes) (asked : Conn) → Asks client target asked → ⊥)
        → HasLoads peers end.1 f
        → Accounts f st client (end, (left, none))
    unselected :
        (target : Bytes) (asked left : Conn) (end : State peers host)
        → Asks client target asked
        → (selects st).1 ≡ none
        → HasLoads peers end.1 f
        → Accounts f st client (end, (left, none))
    unopened :
        (target : Bytes) (asked left : Conn) (server : AddrInfo PeerId) (end : State peers host)
        → Asks client target asked
        → (selects st).1 ≡ some server
        → (opens (selects st).0 server).1 ≡ none
        → HasLoads peers end.1 (with_more peers server.id 1 f)
        → Accounts f st client (end, (left, none))
    unsent :
        (target : Bytes) (asked left : Conn) (server : AddrInfo PeerId) (end : State peers host)
        (stream stream' : Conn) (e : WireError)
        → Asks client target asked
        → (selects st).1 ≡ some server
        → (opens (selects st).0 server).1 ≡ some stream
        → send_target_addr target stream ≡ err e stream'
        → HasLoads peers end.1 (with_more peers server.id 1 f)
        → Accounts f st client (end, (left, some stream'))
    bridged :
        (target : Bytes) (asked left : Conn) (server : AddrInfo PeerId) (end : State peers host)
        (stream sent stream' : Conn)
        → Asks client target asked
        → (selects st).1 ≡ some server
        → (opens (selects st).0 server).1 ≡ some stream
        → send_target_addr target stream ≡ ok tt sent
        → HasLoads peers end.1 f
        → Accounts f st client (end, (left, some stream'))

  module _ (f : PeerId → ℕ) (low : (p : PeerId) → f p + 1 < max_int)
      (in_range : (n : ℕ) → 0 < n → net.rand_intn n < n) (st : State peers host)
      (loads : HasLoads peers st.1 f) (client : Conn) where
    after_sending-Accounts :
        (target : Bytes) (asked here : Conn) (server : AddrInfo PeerId) (now : State peers host)
        (stream : Conn) (sent : Outcome (Unit {0}))
        → Asks client target asked
        → (selects st).1 ≡ some server
        → (opens (selects st).0 server).1 ≡ some stream
        → send_target_addr target stream ≡ sent
        → HasLoads peers now.1 (with_more peers server.id 1 f)
        → Accounts f st client (after_sending peers host net server now here sent)
    unfolding after_sending relay_traffic
    after_sending-Accounts target asked here server now stream (err e stream') a s o d h =
        unsent target asked here server now stream stream' e a s o d h
    after_sending-Accounts target asked here server (w, sd) stream (ok u stream') a s o d h =
        let (w', (left, bridged_stream)) = net.bridge w here stream' in
        bridged target asked left server (w', release_connection peers server.id sd) stream stream'
          bridged_stream a s o d (current_load-release_one peers sd f server.id low h)

    after_opening-Accounts :
        (target : Bytes) (asked : Conn) (server : AddrInfo PeerId) (sd : ServerDiscovery PeerId)
        (r : World × Option Conn)
        → Asks client target asked
        → (selects st).1 ≡ some server
        → opens (selects st).0 server ≡ r
        → HasLoads peers sd (with_more peers server.id 1 f)
        → Accounts f st client (after_opening peers host net target server sd asked r)
    unfolding after_opening
    after_opening-Accounts target asked server sd (w, none) a s o h =
        unopened target asked (replied 1 asked) server (w, sd) a s (ap (λ x. x.1) o) h
    after_opening-Accounts target asked server sd (w, some stream) a s o h =
        after_sending-Accounts target asked (replied 0 asked) server (w, sd) stream
          (send_target_addr target stream) a s (ap (λ x. x.1) o) refl h

    after_selecting-Accounts :
        (target : Bytes) (asked : Conn) (r : State peers host × Option (AddrInfo PeerId))
        → Asks client target asked
        → selects st ≡ r
        → Counts peers host cfg f r
        → Accounts f st client (after_selecting peers host net target asked r)
    unfolding after_selecting
    after_selecting-Accounts target asked (end, none) a s (inl (e, h)) =
        unselected target asked (replied 1 asked) end a (ap (λ x. x.1) s) h
    after_selecting-Accounts target asked (end, none) a s (inr (t, e, h)) = cc e
    after_selecting-Accounts target asked ((w, sd), some server) a s (inl (e, h)) = cc e
    after_selecting-Accounts target asked ((w, sd), some server) a s (inr (t, e, h)) =
        after_opening-Accounts target asked server sd (opens (w, sd) server) a (ap (λ x. x.1) s)
          (ap (λ x. opens x.0 server) s)
          (subst (λ s. HasLoads peers sd (with_more peers s.id 1 f)) (sym (some-eq-some e)) h)

    after_request-Accounts :
        (greeted : Conn) (r : Outcome Bytes)
        → handle_authentication client ≡ ok tt greeted
        → handle_request greeted ≡ r
        → Accounts f st client (after_request peers host net cfg st r)
    unfolding after_request
    after_request-Accounts greeted (err e left) g r =
        refused st left (λ target asked (g', q, r'). cc (g, q, r, r')) loads
    after_request-Accounts greeted (ok target asked) g r =
        after_selecting-Accounts target asked (selects st) (greeted, g, r) refl
          (select_available_server-Counts peers host cfg net.rand_intn st f in_range loads
            (λ p. let r : f p < max_int = omega (arith, low p) in r))

    after_greeting-Accounts :
        (r : Outcome (Unit {0}))
        → handle_authentication client ≡ r
        → Accounts f st client (after_greeting peers host net cfg st r)
    unfolding after_greeting
    after_greeting-Accounts (err e left) g =
        refused st left (λ target asked (g', q, r'). cc (g, q)) loads
    after_greeting-Accounts (ok u greeted) g =
        after_request-Accounts greeted (handle_request greeted) g refl

    -- Whatever a client sends, and whatever the network does, when `handleConnection` is done there are
    -- five cases. The client was refused before a target was read, or `SelectServer` found no server:
    -- the loads are as before. The stream to the server that it selected did not open, or did not take
    -- the target's address: that server, and no other, still has one connection more, which is a bug.
    -- The stream took the address: the loads are as before. The loads stay below the largest 64-bit integer, and `rand.Intn` gives a number below its bound.
    pub serve_connection-Accounts :
        Accounts f st client (serve_connection peers host net cfg st client)
    unfolding serve_connection
    serve_connection-Accounts = after_greeting-Accounts (handle_authentication client) refl
