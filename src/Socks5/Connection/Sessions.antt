-- ===== src/Socks5/Connection/Sessions.antt =====
-- Many SOCKS5 clients at a time (server/handlers/socks5.go): each goroutine of `handleConnection`
-- behind its check of the limit, by its calls, on the one discovery that all share, with the
-- refreshes of discovery and what the network does in any order between them. A call of discovery
-- is one step.
pub mod Whole
pub mod Held
pub mod Counted
use goxic.Prelude.{ℕ, ◌≡◌, List, [], ◌∷◌, ◌++◌, Option, none, some, Bytes}
use goxic.Peer.{PeerIds}
use goxic.Wire.{Conn, Outcome, ok, err}
use goxic.Relay.Target.{send_target_addr}
use goxic.Discovery.State.{AddrInfo, ServerDiscovery, Host, DiscoverySettings}
use goxic.Discovery.Loads.{release_connection}
use goxic.Discovery.Refresh.{State, refresh_server_list}
use goxic.Discovery.Available.{select_available_server}
use goxic.Socks5.Handshake.{handle_authentication, handle_request}
use goxic.Socks5.Connection.{Streams, replied, proxy_name, create_proxy_stream}

-- Where a goroutine is. It is `closed` where it has returned with no server held, and `left` where
-- it has returned without `ReleaseConnection` for the server that it selected.
pub data Session (PeerId : Type 0) : Type 0 where
  accepted : (client : Conn) → Session PeerId
  greeted : (client : Conn) → Session PeerId
  asked : (target : Bytes) (client : Conn) → Session PeerId
  selected : (target : Bytes) (client : Conn) (server : AddrInfo PeerId) → Session PeerId
  opened : (target : Bytes) (client stream : Conn) (server : AddrInfo PeerId) → Session PeerId
  bridging : (client stream : Conn) (server : AddrInfo PeerId) → Session PeerId
  bridged : (client stream : Conn) (server : AddrInfo PeerId) → Session PeerId
  closed : (client : Conn) (stream : Option Conn) → Session PeerId
  left : (client : Conn) (stream : Option Conn) (server : AddrInfo PeerId) → Session PeerId

module _ (peers : PeerIds) (host : Host peers.PeerId) (net : Streams peers.PeerId host.World)
    (cfg : DiscoverySettings) where
  open peers use {PeerId}
  open host use {World}

  on_greeting : Outcome (Unit {0}) → Session PeerId
  on_greeting (err e client) = closed client none
  on_greeting (ok _ client) = greeted client

  on_request : Outcome Bytes → Session PeerId
  on_request (err e client) = closed client none
  on_request (ok target client) = asked target client

  on_selection : Bytes → Conn → Option (AddrInfo PeerId) → Session PeerId
  on_selection target client none = closed (replied 1 client) none
  on_selection target client (some server) = selected target client server

  on_opening : Bytes → Conn → AddrInfo PeerId → Option Conn → Session PeerId
  on_opening target client server none = left (replied 1 client) none server
  on_opening target client server (some stream) = opened target (replied 0 client) stream server

  on_sending : Conn → AddrInfo PeerId → Outcome (Unit {0}) → Session PeerId
  on_sending client server (err e stream) = left client (some stream) server
  on_sending client server (ok _ stream) = bridging client stream server

  -- The next call of one goroutine.
  pub advance : State peers host → Session PeerId → State peers host × Session PeerId
  unfolding on_greeting
  advance st (accepted client) = (st, on_greeting (handle_authentication client))
  advance st (greeted client) = (st, on_request (handle_request client))
  advance st (asked target client) =
      let (st', server) = select_available_server peers host cfg net.rand_intn st in
      (st', on_selection target client server)
  advance (w, sd) (selected target client server) =
      let (w', stream) =
        create_proxy_stream peers host net w server (proxy_name (net.unix_nano w)) in
      ((w', sd), on_opening target client server stream)
  advance st (opened target client stream server) =
      (st, on_sending client server (send_target_addr target stream))
  advance (w, sd) (bridging client stream server) =
      let (w', (client', stream')) = net.bridge w client stream in
      ((w', sd), bridged client' stream' server)
  advance (w, sd) (bridged client stream server) =
      ((w, release_connection peers server.id sd), closed client (some stream))
  advance st (closed client stream) = (st, closed client stream)
  advance st (left client stream server) = (st, left client stream server)

  -- Discovery with the network, and the goroutines in the order in which they were started.
  pub record Proxy : Type 0 where
    pub shared : State peers host
    pub sessions : List (Session PeerId)

  pub data Move (s : Proxy) : Proxy → Type 0 where
    accepts :
        (client : Conn) → Move s (record s { sessions = s.sessions ++ (accepted client ∷ []) })
    advances :
        (before after : List (Session PeerId)) (c : Session PeerId)
        → s.sessions ≡ before ++ (c ∷ after)
        → Move s (record {
          shared = (advance s.shared c).0;
          sessions = before ++ ((advance s.shared c).1 ∷ after);
        })
    refreshes : Move s (record s { shared = (refresh_server_list peers host cfg s.shared).0 })
    environment : (w : World) → Move s (record s { shared = (w, s.shared.1) })

  pub data Reach (s : Proxy) : Proxy → Type 0 where
    here : Reach s s
    move : {t u : Proxy} → Reach s t → Move t u → Reach s u
