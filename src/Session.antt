-- ===== src/Session.antt =====
-- One session through the network: server/handlers/socks5.go at the client, server/handlers/relay.go
-- at the exit node.
use goxic.Prelude.{
  ℕ, ◌<◌, ◌≤◌, ◌≡◌, ap, ◌∙◌, true, List, [], ◌∷◌, ◌++◌, some, Bytes, length, length-append, flatten,
  has_byte, arith,
}
use goxic.Peer.{PeerIds}
use goxic.Wire.{Conn, conn, remaining}
use goxic.Wire.Laws.{IsDelivered}
use goxic.Relay.Protocol.{relay_version, base_protocol, slash}
use goxic.Relay.Protocol.Language.{IsSegment}
use goxic.Relay.Hop.Route.{IsName, handle-exit}
use goxic.Relay.Target.RoundTrip.{framed, read-send}
use goxic.Relay.Exit.{Dialer, after_dial, after_reading, handle_proxy_traffic, act, handle_stream}
use goxic.Discovery.State.{AddrInfo, Host, DiscoverySettings}
use goxic.Discovery.Refresh.{State}
use goxic.Discovery.Loads.{release_connection}
use goxic.Discovery.Available.{select_available_server}
use goxic.Socks5.Digits.{itoa-Lacks}
use goxic.Socks5.Address.{join_host_port}
use goxic.Socks5.Handshake.Request.{Destination, IsWellFormed, reply}
use goxic.Socks5.Connection.{Streams, proxy_name, serve_connection}
use goxic.Socks5.Connection.Delivered.{asks, target_of, serve_connection-success}

proxy_name-IsSegment : (time : ℕ) → IsSegment (proxy_name time)
proxy_name-IsSegment time = (
  (λ e. cc e),
  (
    (λ e. omega (arith, e)),
    (
      (λ e. omega (arith, e)),
      (
        (λ e. omega (arith, e)),
        (
          (λ e. omega (arith, e)),
          (
            (λ e. omega (arith, e)),
            ((λ e. omega (arith, e)), itoa-Lacks slash (λ d l e. omega (arith, e)) time),
          ),
        ),
      ),
    ),
  ),
)

join_host_port-length : (h port : Bytes) → 0 < length (join_host_port h port)
unfolding join_host_port
join_host_port-length h port = ground (arith, length-append h (b':' ∷ port))

module _ (peers : PeerIds) (names : (a : peers.PeerId) → IsName (peers.to_text a)) {V : Type 0}
    (net : Dialer peers.PeerId V) where
  -- A node that is asked for the protocol of `OpenRelay` to one peer.
  handle_stream-framed :
      (proxy_id target rest : Bytes) (c : Conn) (v : V)
      → IsSegment proxy_id
      → 0 < length target
      → length target ≤ 255
      → IsDelivered c.inbox
      → flatten c.inbox ≡ framed target ++ rest
      → (left : List Bytes) × (flatten left ≡ rest)
        × (handle_stream peers net (base_protocol relay_version proxy_id) c v
            ≡ after_dial peers net target (record c { inbox = left }) (net.dial_timeout v target))
  unfolding handle_stream act handle_proxy_traffic after_reading
  handle_stream-framed proxy_id target rest c v seg pos fits delivered arrives =
      let (left, e, f) = read-send target rest c delivered arrives pos fits in
      (
        left,
        f,
        ap (λ a. act peers net a c v)
              (handle-exit peers names relay_version proxy_id ((λ e. cc), omega arith) seg)
            ∙ ap (after_reading peers net v) e,
      )

module _ (peers : PeerIds) (names : (a : peers.PeerId) → IsName (peers.to_text a))
    (host : Host peers.PeerId) (net : Streams peers.PeerId host.World) (cfg : DiscoverySettings)
    (methods more : Bytes) (rsv p q : ℕ) (t : Destination) (later : List Bytes)
    (offered : has_byte 0 methods ≡ true) (well : IsWellFormed t) (byte : p < 256)
    (fits : length (target_of t p q) ≤ 255) where
  -- From a client's request to the dial of the exit node. The client offers "no authentication" and
  -- asks for a target whose text form has at most 255 bytes; a server is selected, and a stream to
  -- it opens. Then the client is told of success, the traffic is bridged behind the bytes `framed`
  -- of the target, and the server is released at its end. A node that receives a stream for the
  -- same protocol, on which these bytes arrive and more behind them, in any segments, dials
  -- exactly the target, and hands the bytes behind to the bridge, none lost and none added.
  pub serve_connection-handle_stream :
      (st sd : State peers host) (server : AddrInfo peers.PeerId) (w : host.World)
      (inbox : List Bytes) {V : Type 0} (far : Dialer peers.PeerId V) (c : Conn) (rest : Bytes)
      (v : V)
      → select_available_server peers host cfg net.rand_intn st ≡ (sd, some server)
      → net.new_stream sd.0 server.id
          (base_protocol relay_version (proxy_name (net.unix_nano sd.0)))
        ≡ (w, some (conn inbox [] true))
      → IsDelivered c.inbox
      → flatten c.inbox ≡ framed (target_of t p q) ++ rest
      → (serve_connection peers host net cfg st (conn (asks methods rsv t p q more later) [] true)
          ≡ (let (w', (client, stream)) =
                net.bridge w
                  (conn (remaining more later) ((5 ∷ 0 ∷ []) ++ reply 0) true)
                  (conn inbox (framed (target_of t p q)) true) in
              ((w', release_connection peers server.id sd.1), (client, some stream))))
        × ((left : List Bytes) × (flatten left ≡ rest)
            × (handle_stream peers far
                  (base_protocol relay_version (proxy_name (net.unix_nano sd.0)))
                  c
                  v
                ≡ after_dial peers far
                    (target_of t p q)
                    (record c { inbox = left })
                    (far.dial_timeout v (target_of t p q))))
  serve_connection-handle_stream st sd server w inbox far c rest v chosen opens delivered arrives =
      (
        serve_connection-success peers host net cfg methods more rsv p q t later offered well byte
            st sd server w chosen inbox opens,
        handle_stream-framed peers names far (proxy_name (net.unix_nano sd.0)) (target_of t p q)
            rest c v (proxy_name-IsSegment (net.unix_nano sd.0)) (join_host_port-length _ _) fits
            delivered arrives,
      )
