-- ===== src/Socks5/Connection/Sessions/Held.antt =====
-- The servers that goroutines of `handleConnection` hold.
use goxic.Prelude.{
  ℕ, ◌+◌, ◌≤◌, ◌≡◌, List, [], ◌∷◌, ◌++◌, Option, none, some, arith, length, if◌then◌else◌,
}
use goxic.Peer.{PeerIds}
use goxic.Discovery.State.{AddrInfo}
use goxic.Socks5.Connection.Sessions.{
  Session, accepted, greeted, asked, selected, opened, bridging, bridged, closed, left,
}

module _ (peers : PeerIds) where
  open peers use {PeerId, same}

  -- The server that a running goroutine holds.
  unfoldable pub in_use : Session PeerId → Option (AddrInfo PeerId)
  in_use (accepted client) = none
  in_use (greeted client) = none
  in_use (asked target client) = none
  in_use (selected target client server) = some server
  in_use (opened target client stream server) = some server
  in_use (bridging client stream server) = some server
  in_use (bridged client stream server) = some server
  in_use (closed client stream) = none
  in_use (left client stream server) = none

  -- The server that a goroutine has not released when it returned.
  unfoldable pub lost : Session PeerId → Option (AddrInfo PeerId)
  lost (accepted client) = none
  lost (greeted client) = none
  lost (asked target client) = none
  lost (selected target client server) = none
  lost (opened target client stream server) = none
  lost (bridging client stream server) = none
  lost (bridged client stream server) = none
  lost (closed client stream) = none
  lost (left client stream server) = some server

  unfoldable pub one : PeerId → Option (AddrInfo PeerId) → ℕ
  one p none = 0
  one p (some server) = if same server.id p then 1 else 0

  unfoldable pub number :
      (Session PeerId → Option (AddrInfo PeerId)) → PeerId → List (Session PeerId) → ℕ
  unfolding one
  number held p [] = 0
  number held p (c ∷ cs) = one p (held c) + number held p cs

  -- The connections that one goroutine accounts for.
  unfoldable pub holds : PeerId → Session PeerId → ℕ
  unfolding one in_use lost
  holds p c = one p (in_use c) + one p (lost c)

  holds_le : (p : PeerId) (c : Session PeerId) → holds p c ≤ 1
  unfolding holds one in_use lost
  holds_le p (accepted client) = omega arith
  holds_le p (greeted client) = omega arith
  holds_le p (asked target client) = omega arith
  holds_le p (selected target client server) = ground arith
  holds_le p (opened target client stream server) = ground arith
  holds_le p (bridging client stream server) = ground arith
  holds_le p (bridged client stream server) = ground arith
  holds_le p (closed client stream) = omega arith
  holds_le p (left client stream server) = ground arith

  abbrev pub all_held : PeerId → List (Session PeerId) → ℕ
  all_held p cs = number in_use p cs + number lost p cs

  pub all_held-split :
      (p : PeerId) (before after : List (Session PeerId)) (c : Session PeerId)
      → all_held p (before ++ (c ∷ after)) ≡ holds p c + (all_held p before + all_held p after)
  unfolding number holds
  all_held-split p [] after c = omega arith
  all_held-split p (b ∷ before) after c =
      let rest = all_held-split p before after c in omega (arith, rest)

  pub all_held_le : (p : PeerId) (cs : List (Session PeerId)) → all_held p cs ≤ length cs
  unfolding number holds
  all_held_le p [] = omega arith
  all_held_le p (c ∷ cs) =
      let rest = all_held_le p cs in
      let one : holds p c ≤ 1 = holds_le p c in omega (arith, rest, one)
