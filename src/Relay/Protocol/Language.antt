-- ===== src/Relay/Protocol/Language.antt =====
-- The language of the relay pattern, described without a parser, and that `find_submatch` decides it.

use goxic.Prelude.{
  ◌≡◌, ◌≢◌, ◌↔◌, ◌⊎◌, inl, inr, refl, subst, [], ◌∷◌, ◌++◌, append_assoc, append-nil, some,
  some-eq-some, arith, Bytes, Lacks, has_byte-Lacks, Lacks-has_byte, drop, >>=?-eq-some,
  strip_prefix, strip_prefix-append, strip_prefix_sound, append-span_not, span_not-Lacks,
  span_not-append_byte, span_not_all,
}
use goxic.Relay.Protocol.{
  slash, newline, relay_prefix, proxy_word, next_word, SubMatches, segment, next_group, proxy_part,
  version_part, find_submatch, base_protocol,
}

-- What `[^/]+` matches.
abbrev pub IsSegment : Bytes → Type 0
IsSegment s = (s ≢ []) × Lacks slash s

-- What `(?:/next/(.+))?` matches, and its group.
abbrev NextTail : Bytes → Bytes → Type 0
NextTail t n = ((t ≡ []) × (n ≡ [])) ⊎ ((t ≡ next_word ++ n) × (n ≢ []) × Lacks newline n)

-- The text is spelled by the three groups.
pub record Matches (s : Bytes) (m : SubMatches) : Type 0 where
  pub tail : Bytes
  pub text : s ≡ base_protocol m.version m.proxy_id ++ tail
  pub version_IsSegment : IsSegment m.version
  pub proxy_id_IsSegment : IsSegment m.proxy_id
  pub tail_NextTail : NextTail tail m.next_peers

segment-append_slash : (s t : Bytes) → IsSegment s → segment (s ++ slash ∷ t) ≡ some (s, slash ∷ t)
unfolding segment
segment-append_slash [] t h = absurd (h.0 refl)
segment-append_slash (c ∷ s) t h = rw (span_not-append_byte slash (c ∷ s) t h.1)

segment_all : (s : Bytes) → IsSegment s → segment s ≡ some (s, [])
unfolding segment
segment_all [] h = absurd (h.0 refl)
segment_all (c ∷ s) h = rw (span_not_all slash (c ∷ s) h.1)

segment_sound :
    (s run rest : Bytes) → segment s ≡ some (run, rest) → IsSegment run × (s ≡ run ++ rest)
unfolding segment
segment_sound s run rest h = ground (arith, append-span_not slash s, span_not-Lacks slash s)

next_group_complete : (t n : Bytes) → NextTail t n → next_group t ≡ some n
unfolding next_group
next_group_complete t n (inl (e, f)) = rw (e, f)
next_group_complete t [] (inr (e, h, l)) = absurd (h refl)
next_group_complete t (c ∷ n) (inr (e, h, l)) =
    rw (e, strip_prefix-append next_word (c ∷ n), Lacks-has_byte newline (c ∷ n) l)

next_group_sound : (t n : Bytes) → next_group t ≡ some n → NextTail t n
unfolding next_group
next_group_sound [] n h = ground arith
next_group_sound (c ∷ t) n h =
    let (r, e, g) = >>=?-eq-some (strip_prefix next_word (c ∷ t)) _ h in
    ground (arith, strip_prefix_sound next_word (c ∷ t) e, has_byte-Lacks newline r)

segment_before_tail : (s t n : Bytes) → IsSegment s → NextTail t n → segment (s ++ t) ≡ some (s, t)
segment_before_tail s t n h (inl (e, _)) = rw (e, append-nil s) (segment_all s h)
segment_before_tail s t n h (inr (e, _, _)) = rw e (segment-append_slash s _ h)

proxy_part_sound :
    (v c : Bytes) (m : SubMatches)
    → proxy_part v c ≡ some m
    → (t : Bytes) × (m.version ≡ v)
      × IsSegment m.proxy_id
      × NextTail t m.next_peers
      × (c ≡ m.proxy_id ++ t)
unfolding proxy_part
proxy_part_sound v c m h =
    let (pd, e, g) = >>=?-eq-some (segment c) _ h in
    let (n, en, hn) = >>=?-eq-some (next_group pd.1) _ g in
    let seg = segment_sound c pd.0 pd.1 e in
    let tail = next_group_sound pd.1 n en in
    let em = some-eq-some hn in
    (
      pd.1,
      ground arith,
      subst (λ (x : SubMatches). IsSegment x.proxy_id) em seg.0,
      subst (λ (x : SubMatches). NextTail pd.1 x.next_peers) em tail,
      subst (λ (x : SubMatches). c ≡ x.proxy_id ++ pd.1) em seg.1,
    )

version_part_sound :
    (a : Bytes) (m : SubMatches)
    → version_part a ≡ some m
    → (t : Bytes) × IsSegment m.version
      × IsSegment m.proxy_id
      × NextTail t m.next_peers
      × (a ≡ m.version ++ (proxy_word ++ (m.proxy_id ++ t)))
unfolding version_part
version_part_sound a m h =
    let (vb, e, g) = >>=?-eq-some (segment a) _ h in
    let (c, ec, hc) = >>=?-eq-some (strip_prefix proxy_word vb.1) _ g in
    let (t, ev, sp, tn, et) = proxy_part_sound vb.0 c m hc in
    let seg = segment_sound a vb.0 vb.1 e in
    (t, rw ev seg.0, sp, tn, cc (seg.1, strip_prefix_sound proxy_word vb.1 ec, et, ev))

base_protocol-append :
    (m : SubMatches) (t : Bytes)
    → base_protocol m.version m.proxy_id ++ t
      ≡ relay_prefix ++ (m.version ++ (proxy_word ++ (m.proxy_id ++ t)))
unfolding base_protocol
base_protocol-append m t = simp append_assoc

pub find_submatch_sound : (s : Bytes) (m : SubMatches) → find_submatch s ≡ some m → Matches s m
unfolding find_submatch
find_submatch_sound s m h =
    let (a, e, g) = >>=?-eq-some (strip_prefix relay_prefix s) _ h in
    let (t, sv, sp, tn, ea) = version_part_sound a m g in
    record {
      tail = t;
      text = cc (strip_prefix_sound relay_prefix s e, ea, base_protocol-append m t);
      version_IsSegment = sv;
      proxy_id_IsSegment = sp;
      tail_NextTail = tn;
    }

proxy_part_complete :
    (v p t n : Bytes)
    → IsSegment p
    → NextTail t n
    → proxy_part v (p ++ t) ≡ some (record { version = v; proxy_id = p; next_peers = n })
unfolding proxy_part
proxy_part_complete v p t n sp tn = rw (segment_before_tail p t n sp tn, next_group_complete t n tn)

pub find_submatch_complete : (s : Bytes) (m : SubMatches) → Matches s m → find_submatch s ≡ some m
unfolding find_submatch version_part
find_submatch_complete s m h =
    rw
      (
        h.text,
        base_protocol-append m h.tail,
        strip_prefix-append relay_prefix,
        segment-append_slash m.version (drop 1 proxy_word ++ (m.proxy_id ++ h.tail))
            h.version_IsSegment,
        strip_prefix-append proxy_word,
      )
      (proxy_part_complete _ _ _ _ h.proxy_id_IsSegment h.tail_NextTail)

-- The pattern matches a text with some three groups exactly where the text is spelled by them.
pub find_submatch_iff : (s : Bytes) (m : SubMatches) → (find_submatch s ≡ some m) ↔ Matches s m
find_submatch_iff s m = (find_submatch_sound s m, find_submatch_complete s m)
