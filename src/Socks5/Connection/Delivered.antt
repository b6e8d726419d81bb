-- ===== src/Socks5/Connection/Delivered.antt =====
-- From a client's request to the exit node, and what becomes of a selected server.
use goxic.Prelude.{
  ℕ, ◌+◌, ◌*◌, ◌<◌, ◌≡◌, refl, ap, ◌∙◌, true, List, [], ◌∷◌, ◌++◌, none, some, Bytes, length,
  has_byte,
}
use goxic.Peer.{PeerIds}
use goxic.Wire.{conn, remaining, ok}
use goxic.Relay.Protocol.{relay_version, base_protocol}
use goxic.Relay.Hop.{open_relay, add_peers}
use goxic.Relay.Target.{send_target_addr}
use goxic.Relay.Target.RoundTrip.{framed, send_target_addr-outbox}
use goxic.Discovery.State.{AddrInfo, Host, DiscoverySettings}
use goxic.Discovery.Refresh.{State}
use goxic.Discovery.Loads.{release_connection}
use goxic.Discovery.Available.{select_available_server}
use goxic.Socks5.Address.{itoa, join_host_port}
use goxic.Socks5.Handshake.{handle_authentication}
use goxic.Socks5.Handshake.Greeting.{handle_authentication_lem}
use goxic.Socks5.Handshake.Request.{
  Destination, address_type, address_bytes, host_text, IsWellFormed, handle_request_connect, reply,
  send_connect_response_lem,
}
use goxic.Socks5.Connection.{
  Streams, replied, proxy_name, create_proxy_stream, relay_traffic, conn_of, after_sending,
  after_opening, after_selecting, after_request, after_greeting, serve_connection,
}

replied_ok :
    (status : ℕ) (inbox : List Bytes) (out : Bytes)
    → replied status (conn inbox out true) ≡ conn inbox (out ++ reply status) true
unfolding replied
replied_ok status inbox out = ap conn_of (send_connect_response_lem status inbox out)

-- What a client sends that offers "no authentication" and asks for a destination: the greeting, and
-- then the request, with more bytes behind it.
abbrev pub asks : Bytes → ℕ → Destination → ℕ → ℕ → Bytes → List Bytes → List Bytes
asks methods rsv t p q more later =
    (5 ∷ length methods ∷ (methods ++ []))
    ∷ (5 ∷ 1 ∷ rsv ∷ address_type t ∷ (address_bytes t ++ (p ∷ q ∷ more)))
    ∷ later

abbrev pub target_of : Destination → ℕ → ℕ → Bytes
target_of t p q = join_host_port (host_text t) (itoa (p * 256 + q))

greeting_accepted :
    (methods : Bytes) (request : Bytes) (later : List Bytes)
    → has_byte 0 methods ≡ true
    → handle_authentication
        (conn ((5 ∷ length methods ∷ (methods ++ [])) ∷ request ∷ later) [] true)
      ≡ ok tt (conn (request ∷ later) (5 ∷ 0 ∷ []) true)
greeting_accepted methods request later offered =
    handle_authentication_lem 5 methods [] (request ∷ later) [] ∙ rw offered refl

module _ (peers : PeerIds) (host : Host peers.PeerId) (net : Streams peers.PeerId host.World)
    (cfg : DiscoverySettings) (methods more : Bytes) (rsv p q : ℕ) (t : Destination)
    (later : List Bytes) (offered : has_byte 0 methods ≡ true) (well : IsWellFormed t)
    (byte : p < 256) where
  open peers use {PeerId}

  reached :
      (st : State peers host)
      → serve_connection peers host net cfg st (conn (asks methods rsv t p q more later) [] true)
        ≡ after_selecting peers host net
            (target_of t p q)
            (conn (remaining more later) (5 ∷ 0 ∷ []) true)
            (select_available_server peers host cfg net.rand_intn st)
  unfolding serve_connection after_greeting after_request
  reached st =
      ap (after_greeting peers host net cfg st) (
        greeting_accepted methods
          (5 ∷ 1 ∷ rsv ∷ address_type t ∷ (address_bytes t ++ (p ∷ q ∷ more))) later offered)
      ∙ ap (after_request peers host net cfg st)
          (handle_request_connect t rsv p q more later (5 ∷ 0 ∷ []) true well byte)

  module _ (st sd : State peers host) (server : AddrInfo PeerId) (w : host.World)
      (chosen : select_available_server peers host cfg net.rand_intn st ≡ (sd, some server)) where
    -- A client that offers "no authentication" and asks for a target, a server that is selected and
    -- a stream to it that opens: the client is told of success, the stream carries the framed target
    -- and then the traffic, and at its end the server is released.
    pub serve_connection-success :
        (inbox : List Bytes)
        → net.new_stream sd.0 server.id
            (base_protocol relay_version (proxy_name (net.unix_nano sd.0)))
          ≡ (w, some (conn inbox [] true))
        → serve_connection peers host net cfg st (conn (asks methods rsv t p q more later) [] true)
          ≡ (let (w', (client, stream)) =
                net.bridge w
                  (conn (remaining more later) ((5 ∷ 0 ∷ []) ++ reply 0) true)
                  (conn inbox (framed (target_of t p q)) true) in
              ((w', release_connection peers server.id sd.1), (client, some stream)))
    unfolding relay_traffic after_selecting after_opening after_sending create_proxy_stream
        open_relay add_peers
    serve_connection-success inbox opened =
        let client = conn (remaining more later) (5 ∷ 0 ∷ []) true in
        let stream = conn inbox [] true in
        let target = target_of t p q in
        reached st
        ∙ ap (after_selecting peers host net target client) chosen
        ∙ ap (after_opening peers host net target server sd.1 client) opened
        ∙ ap (λ c. after_sending peers host net server (w, sd.1) c (send_target_addr target stream))
            (replied_ok 0 (remaining more later) (5 ∷ 0 ∷ []))
        ∙ ap
            (after_sending peers host net server (w, sd.1)
              (conn (remaining more later) ((5 ∷ 0 ∷ []) ++ reply 0) true))
            (send_target_addr-outbox target stream refl)

    -- The bug: where the stream to the selected server does not open, the client is told of failure,
    -- and the server is not released: discovery stays as the selection left it, with the connection
    -- tracked.
    serve_connection-leak :
        net.new_stream sd.0 server.id
            (base_protocol relay_version (proxy_name (net.unix_nano sd.0)))
          ≡ (w, none)
        → serve_connection peers host net cfg st (conn (asks methods rsv t p q more later) [] true)
          ≡ ((w, sd.1), (conn (remaining more later) ((5 ∷ 0 ∷ []) ++ reply 1) true, none))
    unfolding after_selecting after_opening create_proxy_stream open_relay add_peers
    serve_connection-leak closed =
        let client = conn (remaining more later) (5 ∷ 0 ∷ []) true in
        reached st
        ∙ ap (after_selecting peers host net (target_of t p q) client) chosen
        ∙ ap (after_opening peers host net (target_of t p q) server sd.1 client) closed
        ∙ ap (λ c. ((w, sd.1), (c, none))) (replied_ok 1 (remaining more later) (5 ∷ 0 ∷ []))
