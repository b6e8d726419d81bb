-- ===== src/Discovery/Select/Shared/Even.antt =====
-- Callers that come one after another spread their connections evenly.
use goxic.Prelude.{
  ℕ, suc, ◌+◌, ◌<◌, ◌≤◌, ◌≡◌, refl, sym, ap, subst, ◌∙◌, inl, inr, true, false, false_of_ne_true,
  Bool-cases, List, [], ◌∷◌, some, ==_refl, if◌then◌else◌, length, Elem, All, All-Elem, arith,
}
use goxic.Prelude.Int.{pos, pos_part, neg_part, ◌≤ℤ◌, max_int}
use goxic.Peer.{PeerIds}
use goxic.Discovery.State.{AddrInfo, ServerDiscovery}
use goxic.Discovery.Loads.{track_connection, current_load}
use goxic.Discovery.Loads.Count.{current_load-track}
use goxic.Discovery.Select.{best_server}
use goxic.Discovery.Select.Least.{best_server-IsLeast}
use goxic.Discovery.Select.Shared.{
  Caller, reads, tracks, one_by_one, Shared, track_chosen, turn, turns,
}

module _ (peers : PeerIds) where
  open peers use {PeerId, same, same_iff}

  abbrev pub HasLoads : ServerDiscovery PeerId → (PeerId → ℕ) → Type 0
  HasLoads sd f = (p : PeerId) → current_load peers sd p ≡ pos (f p)

  -- No server has more than one connection more than another.
  abbrev pub IsEven : List (AddrInfo PeerId) → (PeerId → ℕ) → Type 0
  IsEven servers f = (a b : AddrInfo PeerId) → Elem a servers → Elem b servers → f a.id ≤ f b.id + 1

  -- The connections of all servers.
  abbrev pub total : List (AddrInfo PeerId) → (PeerId → ℕ) → ℕ
  total [] f = 0
  total (s ∷ ss) f = f s.id + total ss f

  abbrev AreDistinct : List (AddrInfo PeerId) → Type 0
  AreDistinct [] = Unit
  AreDistinct (s ∷ ss) = All (λ (t : AddrInfo PeerId). same s.id t.id ≡ false) ss × AreDistinct ss

  -- One more for a peer.
  abbrev pub with_more : PeerId → ℕ → (PeerId → ℕ) → PeerId → ℕ
  with_more q k f p = if same q p then f p + k else f p

  total-with_more_away :
      (q : PeerId) (k : ℕ) (f : PeerId → ℕ) (ss : List (AddrInfo PeerId))
      → All (λ (t : AddrInfo PeerId). same q t.id ≡ false) ss
      → total ss (with_more q k f) ≡ total ss f
  total-with_more_away q k f [] h = refl
  total-with_more_away q k f (s ∷ ss) h =
      let rest = total-with_more_away q k f ss h.1 in rw h.0 (omega (arith, rest))

  same_self : (p : PeerId) → same p p ≡ true
  same_self p = (same_iff p p).1 refl

  same_sym_false : (p q : PeerId) → same p q ≡ false → same q p ≡ false
  same_sym_false p q h =
      false_of_ne_true (same q p) (λ y. cc ((same_iff p q).1 (sym ((same_iff q p).0 y)), h))

  total-with_more :
      (t : AddrInfo PeerId) (k : ℕ) (f : PeerId → ℕ) (ss : List (AddrInfo PeerId))
      → AreDistinct ss
      → Elem t ss
      → total ss (with_more t.id k f) ≡ total ss f + k
  total-with_more t k f [] d e = elim e [ ]
  total-with_more t k f (s ∷ ss) d (inl e) =
      let here = ap (λ (u : AddrInfo PeerId). same t.id u.id) (sym e) ∙ same_self t.id in
      let away = total-with_more_away t.id k f ss (
        subst (λ (u : AddrInfo PeerId). All (λ (v : AddrInfo PeerId). same u.id v.id ≡ false) ss)
          (sym e) d.0) in
      rw here (omega (arith, away))
  total-with_more t k f (s ∷ ss) d (inr e) =
      let other = same_sym_false s.id t.id (All-Elem _ t ss d.0 e) in
      let rest = total-with_more t k f ss d.1 e in rw other (omega (arith, rest))

  IsEven-with_more :
      (servers : List (AddrInfo PeerId)) (f : PeerId → ℕ) (t : AddrInfo PeerId)
      → All (λ (s : AddrInfo PeerId). f t.id ≤ f s.id) servers
      → IsEven servers f
      → IsEven servers (with_more t.id 1 f)
  IsEven-with_more servers f t least even a b ea eb =
      let below = All-Elem (λ (s : AddrInfo PeerId). f t.id ≤ f s.id) b servers least eb in
      let close = even a b ea eb in
      elim (Bool-cases (same t.id a.id)) [
        | inl y ↦
            let at = ap f ((same_iff t.id a.id).0 y) in
            elim (Bool-cases (same t.id b.id)) [
              | inl z ↦ rw (y, z) (omega (arith, close))
              | inr z ↦ rw (y, z) (omega (arith, below, at))
            ]
        | inr y ↦ elim (Bool-cases (same t.id b.id)) [
          | inl z ↦ rw (y, z) (omega (arith, close))
          | inr z ↦ rw (y, z) close
        ]
      ]

  below :
      (q : PeerId) (f : PeerId → ℕ) (k : ℕ)
      → ((p : PeerId) → f p + suc k < max_int)
      → (p : PeerId) → with_more q 1 f p + k < max_int
  below q f k l p = let h = l p in ground (arith, h)

  pub HasLoads-track :
      (sd : ServerDiscovery PeerId) (f : PeerId → ℕ) (now : ℕ) (q : PeerId)
      → HasLoads sd f
      → ((p : PeerId) → f p < max_int)
      → HasLoads (track_connection peers now q sd) (with_more q 1 f)
  HasLoads-track sd f now q h l p = current_load-track peers sd now p q (f p) (l p) (h p)

  least_loads :
      (sd : ServerDiscovery PeerId) (f : PeerId → ℕ) (q : PeerId) (ss : List (AddrInfo PeerId))
      → HasLoads sd f
      → All (λ (u : AddrInfo PeerId). current_load peers sd q ≤ℤ current_load peers sd u.id) ss
      → All (λ (u : AddrInfo PeerId). f q ≤ f u.id) ss
  least_loads sd f q [] h all = tt
  least_loads sd f q (u ∷ us) h all = (
    omega (
      arith,
      all.0,
      ap pos_part (h q),
      ap neg_part (h q),
      ap pos_part (h u.id),
      ap neg_part (h u.id),
    ),
    least_loads sd f q us h all.1,
  )

  -- The server that a caller finds, and that it has the fewest connections.
  pub finds :
      (sd : ServerDiscovery PeerId) (f : PeerId → ℕ) (s : AddrInfo PeerId)
      (ss : List (AddrInfo PeerId))
      → HasLoads sd f
      → ((p : PeerId) → f p < max_int)
      → (t : AddrInfo PeerId) × (best_server peers (current_load peers sd) (s ∷ ss) ≡ some t)
        × Elem t (s ∷ ss)
        × All (λ (u : AddrInfo PeerId). f t.id ≤ f u.id) (s ∷ ss)
  finds sd f s ss h l =
      let bound : current_load peers sd s.id ≤ℤ pos max_int =
        omega (arith, l s.id, ap pos_part (h s.id), ap neg_part (h s.id)) in
      let (t, e, least) = best_server-IsLeast peers (current_load peers sd) s ss bound in
      (t, e, least.listed, least_loads sd f t.id (s ∷ ss) h least.least)

  served :
      (servers : List (AddrInfo PeerId)) (sh : Shared peers) (n now : ℕ) (t : AddrInfo PeerId)
      → best_server peers (current_load peers sh.sd) servers ≡ some t
      → (turn peers servers (turn peers servers sh (reads (n, now))) (tracks (n, now))).sd
        ≡ track_connection peers now t.id sh.sd
  unfolding turn track_chosen
  served servers sh n now t e = rw (==_refl n, e) refl

  -- Where callers come one after another, and no connection ends meanwhile, load balancing spreads
  -- their connections: from loads that differ by one at most it leads to such loads, with as many
  -- connections more in all as there are callers. The servers are distinct, there is at least one,
  -- and the loads stay below the largest 64-bit integer.
  pub turns-IsEven :
      (s : AddrInfo PeerId) (ss : List (AddrInfo PeerId)) (cs : List Caller) (sh : Shared peers)
      (f : PeerId → ℕ)
      → AreDistinct (s ∷ ss)
      → HasLoads sh.sd f
      → ((p : PeerId) → f p + length cs < max_int)
      → IsEven (s ∷ ss) f
      → (g : PeerId → ℕ) × HasLoads (turns peers (s ∷ ss) sh (one_by_one cs)).sd g
        × IsEven (s ∷ ss) g
        × (total (s ∷ ss) g ≡ total (s ∷ ss) f + length cs)
  unfolding turns
  turns-IsEven s ss [] sh f d h l even = (f, h, even, omega arith)
  turns-IsEven s ss ((n, now) ∷ cs) sh f d h l even =
      let servers : List (AddrInfo PeerId) = s ∷ ss in
      let low = λ (p : PeerId). let r : f p < max_int = omega (arith, l p) in r in
      let (t, e, listed, least) = finds sh.sd f s ss h low in
      let sh' = turn peers servers (turn peers servers sh (reads (n, now))) (tracks (n, now)) in
      let h' : HasLoads sh'.sd (with_more t.id 1 f) =
        subst (λ sd. HasLoads sd (with_more t.id 1 f)) (sym (served servers sh n now t e))
          (HasLoads-track sh.sd f now t.id h low) in
      let (g, k, even', sum) =
        turns-IsEven s ss cs sh' (with_more t.id 1 f) d h' (below t.id f (length cs) l)
          (IsEven-with_more servers f t least even) in
      let more = total-with_more t 1 f servers d listed in (g, k, even', omega (arith, sum, more))
