-- ===== src/Relay/Hop.antt =====
-- One hop of a relayed stream: `OpenRelay`, and what `Handle` and `forwardToNextPeer` decide.
pub mod Route
pub mod Bounded
use goxic.Prelude.{
  ℕ, zero, suc, List, [], ◌∷◌, ◌++◌, Option, none, some, Bytes, if◌then◌else◌, is_empty, map,
}
use goxic.Peer.{PeerIds}
use goxic.Relay.Protocol.{SubMatches, relay_version, next_word, find_submatch, base_protocol}
use goxic.Relay.Split.{split}

-- The loop of `forwardToNextPeer` over the peers behind the next one; empty names are passed over.
pub add_hops : Bytes → List Bytes → Bytes
add_hops protocol [] = protocol
add_hops protocol (p ∷ ps) =
    add_hops (if is_empty p then protocol else protocol ++ (next_word ++ p)) ps

module _ (peers : PeerIds) where
  open peers use {PeerId, to_text, decode}

  -- The loop of `OpenRelay` over the peers behind the first one.
  unfoldable pub add_peers : Bytes → List PeerId → Bytes
  add_peers protocol [] = protocol
  add_peers protocol (p ∷ ps) = add_peers (protocol ++ (next_word ++ to_text p)) ps

  -- `OpenRelay`: the peer that it dials and the protocol that it asks for, unless no peer is given.
  unfoldable pub open_relay : Bytes → List PeerId → Option (PeerId × Bytes)
  open_relay proxy_id [] = none
  open_relay proxy_id (first ∷ rest) =
      some (first, add_peers (base_protocol relay_version proxy_id) rest)

-- What a node does with an incoming relay stream.
pub data Action (PeerId : Type 0) : Type 0 where
  invalid_protocol : Action PeerId
  invalid_next_peers : Action PeerId
  invalid_peer_id : Bytes → Action PeerId
  dial : PeerId → Bytes → Action PeerId
  exit : Bytes → Bytes → Action PeerId

module _ (peers : PeerIds) where
  open peers use {PeerId, decode}

  -- `forwardToNextPeer`, up to the call of `NewStream`.
  forward_parts : Bytes → Bytes → Bytes × List Bytes → Action PeerId
  forward_parts version proxy_id (first, rest) =
      if is_empty first then invalid_next_peers else elim (decode first) [
        | none ↦ invalid_peer_id first
        | some next ↦ dial next (add_hops (base_protocol version proxy_id) rest)
      ]

  pub forward_to_next_peer : Bytes → Bytes → Bytes → Action PeerId
  unfolding forward_parts
  forward_to_next_peer version proxy_id next_peers =
      forward_parts version proxy_id (split next_peers next_word)

  -- `Handle`: forward while peers are left, and be the exit node otherwise.
  pub handle : Bytes → Action PeerId
  unfolding forward_to_next_peer
  handle protocol = elim (find_submatch protocol) [
    | none ↦ invalid_protocol
    | some m ↦
        if is_empty m.next_peers
        then exit m.version m.proxy_id
        else forward_to_next_peer m.version m.proxy_id m.next_peers
  ]

-- How a stream's way through the network ends.
pub data End : Type 0 where
  exited : Bytes → Bytes → End
  rejected : End
  unfinished : End

module _ (peers : PeerIds) where
  open peers use {PeerId}

  -- The peers that are dialled one after the other from a node that receives the protocol, each
  -- running `Handle`, for at most so many nodes.
  pub travel : ℕ → Bytes → List PeerId × End
  travel zero protocol = ([], unfinished)
  travel (suc fuel) protocol = elim (handle peers protocol) [
    | dial next onward ↦ let rest = travel fuel onward in (next ∷ rest.0, rest.1)
    | exit version proxy_id ↦ ([], exited version proxy_id)
    | _ ↦ ([], rejected)
  ]
