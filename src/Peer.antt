-- ===== src/Peer.antt =====
-- The part of libp2p's `core/peer` that the program uses: identifiers compared by `==`, their text
-- form (`ID.String`) and `peer.Decode`. The package is not in the repository, so it is a parameter.
use goxic.Prelude.{◌≡◌, ◌↔◌, Bool, true, Option, some, Bytes}

pub record PeerIds : Type 1 where
  pub PeerId : Type 0
  pub same : PeerId → PeerId → Bool
  pub same_iff : (a b : PeerId) → (same a b ≡ true) ↔ (a ≡ b)
  pub to_text : PeerId → Bytes
  pub decode : Bytes → Option PeerId
  -- `Decode` reads back what `String` prints.
  pub decode-to_text : (a : PeerId) → decode (to_text a) ≡ some a
