-- ===== src/Socks5/Connection.antt =====
-- One connection of a SOCKS5 client: `handleConnection` behind its check of the limit, with
-- `createProxyStream`. The streams of libp2p and the traffic that is bridged are a parameter.
pub mod Delivered
pub mod Accounts
pub mod Sessions
use goxic.Prelude.{ℕ, List, [], ◌∷◌, ◌++◌, Option, none, some, Bytes, codes}
use goxic.Peer.{PeerIds}
use goxic.Wire.{Conn, Outcome, ok, err}
use goxic.Relay.Hop.{open_relay}
use goxic.Relay.Target.{send_target_addr}
use goxic.Discovery.State.{AddrInfo, ServerDiscovery, Host, DiscoverySettings}
use goxic.Discovery.Loads.{release_connection}
use goxic.Discovery.Refresh.{State}
use goxic.Discovery.Available.{select_available_server}
use goxic.Socks5.Address.{itoa}
use goxic.Socks5.Handshake.{handle_authentication, handle_request, send_connect_response}

-- `NewStream` for a peer and a protocol, `bridgeTraffic` until one side is closed, the clock's
-- `UnixNano` and `rand.Intn`.
pub record Streams (PeerId World : Type 0) : Type 0 where
  pub new_stream : World → PeerId → Bytes → World × Option Conn
  pub bridge : World → Conn → Conn → World × (Conn × Conn)
  pub unix_nano : World → ℕ
  pub rand_intn : ℕ → ℕ

-- A reply whose error is not looked at.
conn_of : Outcome (Unit {0}) → Conn
conn_of (ok _ c) = c
conn_of (err _ c) = c

pub replied : ℕ → Conn → Conn
unfolding conn_of
replied status c = conn_of (send_connect_response status c)

abbrev pub proxy_name : ℕ → Bytes
proxy_name time = codes "proxy-" ++ itoa time

module _ (peers : PeerIds) (host : Host peers.PeerId) (net : Streams peers.PeerId host.World) where
  open peers use {PeerId}
  open host use {World}

  -- What the handler leaves: the network and discovery, the client's connection, and the stream.
  abbrev pub Served : Type 0
  Served = State peers host × (Conn × Option Conn)

  pub create_proxy_stream : World → AddrInfo PeerId → Bytes → World × Option Conn
  create_proxy_stream w server proxy_id = elim (open_relay peers proxy_id (server.id ∷ [])) [
    | none ↦ (w, none)
    | some (p, protocol) ↦ net.new_stream w p protocol
  ]

  -- Behind the address that was sent: bridge, and release the server.
  pub relay_traffic : AddrInfo PeerId → State peers host → Conn → Conn → Served
  relay_traffic server (w, sd) client stream =
      let (w', (client', stream')) = net.bridge w client stream in
      ((w', release_connection peers server.id sd), (client', some stream'))

  -- What follows on `sendTargetAddr`; on its error the server is not released.
  after_sending : AddrInfo PeerId → State peers host → Conn → Outcome (Unit {0}) → Served
  unfolding relay_traffic
  after_sending server st client (err e stream) = (st, (client, some stream))
  after_sending server st client (ok _ stream) = relay_traffic server st client stream

  -- What follows on `createProxyStream`, with an error or a stream.
  after_opening :
      Bytes → AddrInfo PeerId → ServerDiscovery PeerId → Conn → World × Option Conn → Served
  unfolding after_sending
  after_opening target server sd client (w, none) = ((w, sd), (replied 1 client, none))
  after_opening target server sd client (w, some stream) =
      after_sending server (w, sd) (replied 0 client) (send_target_addr target stream)

  -- What follows on `SelectServer`.
  after_selecting : Bytes → Conn → State peers host × Option (AddrInfo PeerId) → Served
  unfolding after_opening create_proxy_stream
  after_selecting target client (st, none) = (st, (replied 1 client, none))
  after_selecting target client ((w, sd), some server) =
      after_opening target server sd client
        (create_proxy_stream w server (proxy_name (net.unix_nano w)))

  after_request : DiscoverySettings → State peers host → Outcome Bytes → Served
  unfolding after_selecting
  after_request cfg st (err e client) = (st, (client, none))
  after_request cfg st (ok target client) =
      after_selecting target client (select_available_server peers host cfg net.rand_intn st)

  after_greeting : DiscoverySettings → State peers host → Outcome (Unit {0}) → Served
  unfolding after_request
  after_greeting cfg st (err e client) = (st, (client, none))
  after_greeting cfg st (ok _ client) = after_request cfg st (handle_request client)

  -- `handleConnection` once the connection is counted.
  pub serve_connection : DiscoverySettings → State peers host → Conn → Served
  unfolding after_greeting
  serve_connection cfg st client = after_greeting cfg st (handle_authentication client)
