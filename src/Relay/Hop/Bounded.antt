-- ===== src/Relay/Hop/Bounded.antt =====
-- Whatever protocol string a peer sends, forwarding ends.
use goxic.Prelude.{
  ℕ, zero, suc, ◌+◌, ◌≤◌, ◌<◌, ◌≡◌, ◌≢◌, false, refl, ap, inl, inr, List, [], ◌∷◌, ◌++◌, arith,
  Bytes, length, length-append, is_empty, drop, Option-cases, Bool-cases,
}
use goxic.Peer.{PeerIds}
use goxic.Relay.Protocol.{next_word, slash, SubMatches, find_submatch, base_protocol}
use goxic.Relay.Protocol.Language.{Matches, find_submatch_sound}
use goxic.Relay.Split.{split, joined, joined-split}
use goxic.Relay.Hop.{
  add_hops, handle, forward_to_next_peer, Action, dial, exit, invalid_protocol, invalid_next_peers,
  invalid_peer_id, travel, End, unfinished,
}

length-add_hops :
    (protocol : Bytes) (ps : List Bytes)
    → length (add_hops protocol ps) ≤ length protocol + length (joined next_word ps)
unfolding add_hops joined
length-add_hops protocol [] = omega arith
length-add_hops protocol ([] ∷ ps) = omega (arith, length-add_hops protocol ps)
length-add_hops protocol ((c ∷ p) ∷ ps) = omega (
  arith,
  length-add_hops (protocol ++ (next_word ++ c ∷ p)) ps,
  length-append protocol (next_word ++ c ∷ p),
  length-append p (joined next_word ps),
)

module _ (peers : PeerIds) where
  open peers use {PeerId, decode}

  forward-shorter :
      (v x next : Bytes) {id : PeerId} {onward : Bytes}
      → forward_to_next_peer peers v x next ≡ dial id onward
      → length onward < length (base_protocol v x) + length next
  unfolding forward_to_next_peer
  forward-shorter v x next e =
      let first = (split next next_word).0 in
      let rest = (split next next_word).1 in
      ground (
        arith,
        length-add_hops (base_protocol v x) rest,
        ap length (joined-split slash (drop 1 next_word) next),
        length-append first (joined next_word rest),
      )

  length-Matches :
      (s : Bytes) (m : SubMatches)
      → Matches s m
      → is_empty m.next_peers ≡ false
      → length (base_protocol m.version m.proxy_id) + length m.next_peers < length s
  length-Matches s m h e = elim h.tail_NextTail [
    | inl (_, n) ↦ cc (ap is_empty n)
    | inr (t, _, _) ↦ omega (
      arith,
      ap length h.text,
      ap length t,
      length-append (base_protocol m.version m.proxy_id) h.tail,
    )
  ]

  -- A node that dials onward asks for a protocol string that is shorter than the one it was asked for.
  handle-shorter :
      (s : Bytes) {id : PeerId} {onward : Bytes}
      → handle peers s ≡ dial id onward
      → length onward < length s
  unfolding handle
  handle-shorter s {id} {onward} e = elim (Option-cases (find_submatch s)) [
    | inl n ↦ cc (n)
    | inr (m, f) ↦ elim (Bool-cases (is_empty m.next_peers)) [
      | inl b ↦ ground (arith, f, b)
      | inr b ↦ ground (
        arith,
        f,
        length-Matches s m (find_submatch_sound s m f) b,
        forward-shorter m.version m.proxy_id m.next_peers {id = id} {onward = onward},
      )
    ]
  ]

  abbrev Finishes : ℕ → List PeerId × End → Type 0
  Finishes n r = (r.1 ≢ unfinished) × (length r.0 ≤ n)

  travel-by_action :
      (s : Bytes) (fuel : ℕ) (a : Action PeerId)
      → ((onward : Bytes)
          → length onward < length s
          → Finishes (length onward) (travel peers fuel onward))
      → handle peers s ≡ a
      → Finishes (length s) (travel peers (suc fuel) s)
  unfolding travel
  travel-by_action s fuel (dial id onward) ih e =
      let short = handle-shorter s e in let later = ih onward short in ground (arith, e)
  travel-by_action s fuel invalid_protocol ih e = rw (e, travel) (λ u. cc, omega arith)
  travel-by_action s fuel invalid_next_peers ih e = rw (e, travel) (λ u. cc, omega arith)
  travel-by_action s fuel (invalid_peer_id p) ih e = rw (e, travel) (λ u. cc, omega arith)
  travel-by_action s fuel (exit v x) ih e = rw (e, travel) (λ u. cc, omega arith)

  -- For every protocol string, well formed or not, a stream's way ends at an exit node or is
  -- rejected, after at most as many nodes as the string has bytes.
  pub travel-finished :
      (s : Bytes) (fuel : ℕ)
      → length s < fuel
      → ((travel peers fuel s).1 ≢ unfinished) × (length (travel peers fuel s).0 ≤ length s)
  travel-finished s zero h = elim h [ ]
  travel-finished s (suc fuel) h =
      travel-by_action s fuel (handle peers s)
        (λ onward lt. travel-finished onward fuel (omega arith)) refl
