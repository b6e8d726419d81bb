-- ===== src/Socks5/Connection/Sessions/Whole.antt =====
-- The calls of one goroutine, in a row, are `handleConnection`.
use goxic.Prelude.{ℕ, zero, suc, ◌≡◌, refl, Option, none, some, Bytes}
use goxic.Peer.{PeerIds}
use goxic.Wire.{Conn, Outcome, ok, err}
use goxic.Relay.Target.{send_target_addr}
use goxic.Discovery.State.{AddrInfo, ServerDiscovery, Host, DiscoverySettings}
use goxic.Discovery.Refresh.{State}
use goxic.Discovery.Available.{select_available_server}
use goxic.Socks5.Handshake.{handle_authentication, handle_request}
use goxic.Socks5.Connection.{
  Streams, replied, proxy_name, Served, create_proxy_stream, relay_traffic, after_sending,
  after_opening, after_selecting, after_request, after_greeting, serve_connection,
}
use goxic.Socks5.Connection.Sessions.{
  Session, accepted, greeted, asked, selected, opened, bridging, bridged, closed, left, on_greeting,
  on_request, on_selection, on_opening, on_sending, advance,
}

module _ (peers : PeerIds) (host : Host peers.PeerId) (net : Streams peers.PeerId host.World)
    (cfg : DiscoverySettings) where
  open peers use {PeerId}
  open host use {World}

  -- The connections of a goroutine.
  conns : Session PeerId → Conn × Option Conn
  conns (accepted client) = (client, none)
  conns (greeted client) = (client, none)
  conns (asked target client) = (client, none)
  conns (selected target client server) = (client, none)
  conns (opened target client stream server) = (client, some stream)
  conns (bridging client stream server) = (client, some stream)
  conns (bridged client stream server) = (client, some stream)
  conns (closed client stream) = (client, stream)
  conns (left client stream server) = (client, stream)

  alone : ℕ → State peers host × Session PeerId → State peers host × Session PeerId
  alone zero r = r
  alone (suc n) r = alone n (advance peers host net cfg r.0 r.1)

  left_by : State peers host × Session PeerId → Served peers host net
  unfolding conns
  left_by r = (r.0, conns r.1)

  alone-closed :
      (n : ℕ) (st : State peers host) (client : Conn) (stream : Option Conn)
      → left_by (alone n (st, closed client stream)) ≡ (st, (client, stream))
  unfolding alone left_by conns advance
  alone-closed zero st client stream = refl
  alone-closed (suc n) st client stream = alone-closed n st client stream

  alone-left :
      (n : ℕ) (st : State peers host) (client : Conn) (stream : Option Conn)
      (server : AddrInfo PeerId)
      → left_by (alone n (st, left client stream server)) ≡ (st, (client, stream))
  unfolding alone left_by conns advance
  alone-left zero st client stream server = refl
  alone-left (suc n) st client stream server = alone-left n st client stream server

  alone-on_sending :
      (st : State peers host) (client : Conn) (server : AddrInfo PeerId) (sent : Outcome (Unit {0}))
      → left_by (alone 2 (st, on_sending peers host net cfg client server sent))
        ≡ after_sending peers host net server st client sent
  unfolding after_sending alone left_by conns on_sending relay_traffic advance
  alone-on_sending st client server (err e stream) = refl
  alone-on_sending (w, sd) client server (ok u stream) = refl

  alone-on_opening :
      (target : Bytes) (client : Conn) (server : AddrInfo PeerId) (sd : ServerDiscovery PeerId)
      (r : World × Option Conn)
      → left_by (alone 3 ((r.0, sd), on_opening peers host net cfg target client server r.1))
        ≡ after_opening peers host net target server sd client r
  unfolding after_opening alone on_opening advance
  alone-on_opening target client server sd (w, none) =
      alone-left 3 (w, sd) (replied 1 client) none server
  alone-on_opening target client server sd (w, some stream) =
      alone-on_sending (w, sd) (replied 0 client) server (send_target_addr target stream)

  alone-on_selection :
      (target : Bytes) (client : Conn) (r : State peers host × Option (AddrInfo PeerId))
      → left_by (alone 4 (r.0, on_selection peers host net cfg target client r.1))
        ≡ after_selecting peers host net target client r
  unfolding after_selecting alone on_selection advance
  alone-on_selection target client (st, none) = alone-closed 4 st (replied 1 client) none
  alone-on_selection target client ((w, sd), some server) =
      alone-on_opening target client server sd
        (create_proxy_stream peers host net w server (proxy_name (net.unix_nano w)))

  alone-on_request :
      (st : State peers host) (r : Outcome Bytes)
      → left_by (alone 5 (st, on_request peers host net cfg r))
        ≡ after_request peers host net cfg st r
  unfolding after_request alone on_request advance
  alone-on_request st (err e client) = alone-closed 5 st client none
  alone-on_request st (ok target client) =
      alone-on_selection target client (select_available_server peers host cfg net.rand_intn st)

  alone-on_greeting :
      (st : State peers host) (r : Outcome (Unit {0}))
      → left_by (alone 6 (st, on_greeting peers host net cfg r))
        ≡ after_greeting peers host net cfg st r
  unfolding after_greeting alone on_greeting advance
  alone-on_greeting st (err e client) = alone-closed 6 st client none
  alone-on_greeting st (ok u client) = alone-on_request st (handle_request client)

  -- Seven calls of a goroutine with no other between them leave the network, discovery, the client's
  -- connection and the stream as `handleConnection` as a whole does.
  alone-accepted :
      (st : State peers host) (client : Conn)
      → left_by (alone 7 (st, accepted client)) ≡ serve_connection peers host net cfg st client
  unfolding serve_connection alone advance
  alone-accepted st client = alone-on_greeting st (handle_authentication client)
