-- ===== src/Relay/Hop/Route.antt =====
-- A stream that `OpenRelay` opens visits exactly the peers that it names, in their order.
use goxic.Prelude.{
  ℕ, zero, suc, ◌≡◌, ◌≢◌, refl, sym, ap, ◌∙◌, List, [], ◌∷◌, ◌++◌, append_assoc, append-nil, some,
  false, drop, ◌<◌, arith, Bytes, length, map, is_empty, All, Lacks, inl, inr,
}
use goxic.Peer.{PeerIds}
use goxic.Relay.Protocol.{slash, newline, relay_version, next_word, find_submatch, base_protocol}
use goxic.Relay.Protocol.Language.{IsSegment, find_submatch_complete}
use goxic.Relay.Split.{joined, split-joined}
use goxic.Relay.Hop.{add_hops, add_peers, open_relay, handle, dial, exit, travel, exited}

abbrev hops : List Bytes → Bytes
hops = joined next_word

-- A name that can stand in a protocol string as one part.
abbrev pub IsName : Bytes → Type 0
IsName s = IsSegment s × Lacks newline s

joined_snoc :
    (protocol p : Bytes) (ps : List Bytes)
    → protocol ++ hops (p ∷ ps) ≡ (protocol ++ (next_word ++ p)) ++ hops ps
unfolding joined
joined_snoc protocol p ps = simp append_assoc

add_hops-hops :
    (protocol : Bytes) (ps : List Bytes)
    → All IsName ps
    → add_hops protocol ps ≡ protocol ++ hops ps
unfolding add_hops
add_hops-hops protocol [] h = unfold joined in sym (append-nil protocol)
add_hops-hops protocol ([] ∷ ps) h = absurd (h.0.0.0 refl)
add_hops-hops protocol ((c ∷ p) ∷ ps) h =
    add_hops-hops (protocol ++ (next_word ++ c ∷ p)) ps h.1 ∙ sym (joined_snoc protocol (c ∷ p) ps)

append-ne-nil : (s t : Bytes) → s ≢ [] → s ++ t ≢ []
append-ne-nil [] t h = absurd (h refl)
append-ne-nil (c ∷ s) t h = λ e. cc

ne→is_empty-false : (s : Bytes) → s ≢ [] → is_empty s ≡ false
ne→is_empty-false [] h = absurd (h refl)
ne→is_empty-false (c ∷ s) h = refl

is_empty-append : (s t : Bytes) → s ≢ [] → is_empty (s ++ t) ≡ false
is_empty-append s t h = ne→is_empty-false (s ++ t) (append-ne-nil s t h)

All-Lacks-slash : (ps : List Bytes) → All IsName ps → All (Lacks slash) ps
All-Lacks-slash [] h = tt
All-Lacks-slash (p ∷ ps) h = (h.0.0.1, All-Lacks-slash ps h.1)

append-Lacks : (b : ℕ) (s t : Bytes) → Lacks b s → Lacks b t → Lacks b (s ++ t)
append-Lacks b [] t hs ht = ht
append-Lacks b (c ∷ s) t hs ht = (hs.0, append-Lacks b s t hs.1 ht)

next_word-Lacks-newline : Lacks newline next_word
next_word-Lacks-newline = omega arith

hops-Lacks-newline : (ps : List Bytes) → All IsName ps → Lacks newline (hops ps)
unfolding joined
hops-Lacks-newline [] h = tt
hops-Lacks-newline (p ∷ ps) h =
    append-Lacks newline next_word (p ++ hops ps) next_word-Lacks-newline
      (append-Lacks newline p (hops ps) h.0.1 (hops-Lacks-newline ps h.1))

module _ (peers : PeerIds) (names : (p : peers.PeerId) → IsName (peers.to_text p)) where
  open peers use {PeerId, to_text, decode, decode-to_text}

  texts-IsName : (ps : List PeerId) → All IsName (map to_text ps)
  texts-IsName [] = tt
  texts-IsName (p ∷ ps) = (names p, texts-IsName ps)

  add_peers-hops :
      (protocol : Bytes) (ps : List PeerId)
      → add_peers peers protocol ps ≡ protocol ++ hops (map to_text ps)
  unfolding add_peers
  add_peers-hops protocol [] = unfold joined in sym (append-nil protocol)
  add_peers-hops protocol (p ∷ ps) =
      add_peers-hops (protocol ++ (next_word ++ to_text p)) ps
      ∙ sym (joined_snoc protocol (to_text p) (map to_text ps))

  find_submatch-hops :
      (v x : Bytes) (p : Bytes) (ps : List Bytes)
      → IsSegment v
      → IsSegment x
      → All IsName (p ∷ ps)
      → find_submatch (base_protocol v x ++ hops (p ∷ ps))
        ≡ some (record { version = v; proxy_id = x; next_peers = p ++ hops ps })
  find_submatch-hops v x p ps hv hx h = find_submatch_complete _ _ (record {
    tail = hops (p ∷ ps);
    text = refl;
    version_IsSegment = hv;
    proxy_id_IsSegment = hx;
    tail_NextTail = inr (
      unfold joined in refl,
      append-ne-nil p (hops ps) h.0.0.0,
      append-Lacks newline p (hops ps) h.0.1 (hops-Lacks-newline ps h.1),
    );
  })

  find_submatch_end :
      (v x : Bytes)
      → IsSegment v
      → IsSegment x
      → find_submatch (base_protocol v x)
        ≡ some (record { version = v; proxy_id = x; next_peers = [] })
  find_submatch_end v x hv hx = find_submatch_complete _ _ (record {
    tail = [];
    text = sym (append-nil (base_protocol v x));
    version_IsSegment = hv;
    proxy_id_IsSegment = hx;
    tail_NextTail = inl (refl, refl);
  })

  -- One hop: the next peer is dialled with the protocol string for the peers behind it.
  handle-dial :
      (v x : Bytes) (p : PeerId) (ps : List PeerId)
      → IsSegment v
      → IsSegment x
      → handle peers (base_protocol v x ++ hops (map to_text (p ∷ ps)))
        ≡ dial p (base_protocol v x ++ hops (map to_text ps))
  unfolding handle
  handle-dial v x p ps hv hx =
      rw
        (
          find_submatch-hops v x (to_text p) (map to_text ps) hv hx (texts-IsName (p ∷ ps)),
          handle,
          is_empty-append (to_text p) (hops (map to_text ps)) (names p).0.0,
          split-joined slash (drop 1 next_word) (to_text p) (map to_text ps) (names p).0.1
              (All-Lacks-slash (map to_text ps) (texts-IsName ps)),
          ne→is_empty-false (to_text p) (names p).0.0,
          decode-to_text p,
        )
        (ap (dial p) (
          rw
            (split-joined slash (drop 1 next_word) (to_text p) (map to_text ps) (names p).0.1
              (All-Lacks-slash (map to_text ps) (texts-IsName ps)))
            (add_hops-hops (base_protocol v x) (map to_text ps) (texts-IsName ps))))

  pub handle-exit :
      (v x : Bytes) → IsSegment v → IsSegment x → handle peers (base_protocol v x) ≡ exit v x
  unfolding handle
  handle-exit v x hv hx = rw (find_submatch_end v x hv hx, handle)

  travel-hops :
      (v x : Bytes) (ps : List PeerId) (fuel : ℕ)
      → IsSegment v
      → IsSegment x
      → length ps < fuel
      → travel peers fuel (base_protocol v x ++ hops (map to_text ps)) ≡ (ps, exited v x)
  unfolding travel
  travel-hops v x ps zero hv hx h = elim h [ ]
  travel-hops v x [] (suc fuel) hv hx h =
      unfold joined in rw (append-nil (base_protocol v x), handle-exit v x hv hx, travel)
  travel-hops v x (p ∷ ps) (suc fuel) hv hx h =
      rw (handle-dial v x p ps hv hx, travel, travel-hops v x ps fuel hv hx (omega arith))

  -- A stream that `OpenRelay` opens through a list of peers is requested from the first of them,
  -- and is then forwarded to exactly the others, in their order; the last one is the exit node, and
  -- it sees the client's version and proxy ID. The proxy ID is a part without a slash, and a peer's
  -- text form is a part without slash and newline that `Decode` reads back.
  pub travel-open_relay :
      (proxy_id : Bytes) (first : PeerId) (rest : List PeerId) (fuel : ℕ)
      → IsSegment proxy_id
      → length rest < fuel
      → (protocol : Bytes) × (open_relay peers proxy_id (first ∷ rest) ≡ some (first, protocol))
        × (travel peers fuel protocol ≡ (rest, exited relay_version proxy_id))
  unfolding open_relay
  travel-open_relay proxy_id first rest fuel hx h = (
    _,
    refl,
    rw (add_peers-hops (base_protocol relay_version proxy_id) rest)
        (travel-hops relay_version proxy_id rest fuel ((λ e. cc), omega arith) hx h),
  )
