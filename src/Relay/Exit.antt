-- ===== src/Relay/Exit.antt =====
-- What a node does with a relay stream: `Handle`, `forwardToNextPeer` and `handleProxyTraffic` of
-- server/handlers/relay.go. The streams, the dial of the target and the traffic are a parameter.
use goxic.Prelude.{Option, none, some, Bytes}
use goxic.Peer.{PeerIds}
use goxic.Wire.{Conn, WireError, Outcome, ok, err}
use goxic.Relay.Hop.{
  Action, invalid_protocol, invalid_next_peers, invalid_peer_id, dial, exit, handle,
}
use goxic.Relay.Target.{read_target_addr}

-- `NewStream` for a peer and a protocol, `net.DialTimeout` for an address, and a bridge until it
-- returns, with the connections after it.
pub record Dialer (PeerId World : Type 0) : Type 0 where
  pub new_stream : World → PeerId → Bytes → World × Option Conn
  pub dial_timeout : World → Bytes → World × Option Conn
  pub bridge : World → Conn → Conn → World × (Conn × Conn)

-- How a stream was handled.
pub data Handled (PeerId : Type 0) : Type 0 where
  rejected : Handled PeerId
  unopened : PeerId → Bytes → Handled PeerId
  forwarded : PeerId → Bytes → Conn → Conn → Handled PeerId
  unread : WireError → Conn → Handled PeerId
  undialled : Bytes → Conn → Handled PeerId
  exchanged : Bytes → Conn → Conn → Handled PeerId

module _ (peers : PeerIds) {World : Type 0} (net : Dialer peers.PeerId World) where
  open peers use {PeerId}

  unfoldable pub after_dial : Bytes → Conn → World × Option Conn → World × Handled PeerId
  after_dial target stream (w, none) = (w, undialled target stream)
  after_dial target stream (w, some conn) =
      let (w', (stream', conn')) = net.bridge w stream conn in (w', exchanged target stream' conn')

  unfoldable pub after_reading : World → Outcome Bytes → World × Handled PeerId
  unfolding after_dial
  after_reading w (err e stream) = (w, unread e stream)
  after_reading w (ok target stream) = after_dial target stream (net.dial_timeout w target)

  unfoldable pub handle_proxy_traffic : Conn → World → World × Handled PeerId
  unfolding after_reading
  handle_proxy_traffic stream w = after_reading w (read_target_addr stream)

  unfoldable after_new_stream : PeerId → Bytes → Conn → World × Option Conn → World × Handled PeerId
  after_new_stream next protocol income (w, none) = (w, unopened next protocol)
  after_new_stream next protocol income (w, some outcome) =
      let (w', (income', outcome')) = net.bridge w income outcome in
      (w', forwarded next protocol income' outcome')

  unfoldable pub act : Action PeerId → Conn → World → World × Handled PeerId
  unfolding after_new_stream handle_proxy_traffic
  act invalid_protocol stream w = (w, rejected)
  act invalid_next_peers stream w = (w, rejected)
  act (invalid_peer_id text) stream w = (w, rejected)
  act (dial next protocol) stream w =
      after_new_stream next protocol stream (net.new_stream w next protocol)
  act (exit version proxy_id) stream w = handle_proxy_traffic stream w

  -- `Handle`, for the protocol that the stream asks for.
  unfoldable pub handle_stream : Bytes → Conn → World → World × Handled PeerId
  unfolding act
  handle_stream protocol stream w = act (handle peers protocol) stream w
