-- ===== src/Discovery/Loads/Count.antt =====
-- The load table counts, for each peer, the connections that were tracked and not yet released.
use goxic.Prelude.{
  ℕ, zero, suc, ◌+◌, ◌-◌, ◌<◌, ◌≤◌, ◌≡◌, sym, ap, subst, ◌∙◌, true, List, [], ◌∷◌, none, some,
  arith, if◌then◌else◌, length, Option-cases, Bool-cases, inl, inr,
}
use goxic.Prelude.Int.{ℤ, pos, dec_int, max_int, inc_int_pos, dec_int_pos, dec_int_zero}
use goxic.Prelude.Dict.{lookup, lookup-insert}
use goxic.Peer.{PeerIds}
use goxic.Discovery.State.{ServerLoadInfo, ServerDiscovery}
use goxic.Discovery.Loads.{
  tracked, load_of, put_load, track_connection, release_connection, at_least_zero, current_load,
}

pub data Use (PeerId : Type 0) : Type 0 where
  tracks : ℕ → PeerId → Use PeerId
  releases : PeerId → Use PeerId

release_count : (n : ℕ) → n < max_int → at_least_zero (dec_int (pos n)) ≡ pos (n - 1)
unfolding at_least_zero
release_count zero h = rw dec_int_zero
release_count (suc n) h = ground (arith, dec_int_pos n)

module _ (peers : PeerIds) where
  open peers use {PeerId, same, same_iff}

  apply : ServerDiscovery PeerId → Use PeerId → ServerDiscovery PeerId
  apply sd (tracks now p) = track_connection peers now p sd
  apply sd (releases p) = release_connection peers p sd

  pub run : ServerDiscovery PeerId → List (Use PeerId) → ServerDiscovery PeerId
  run sd [] = sd
  run sd (u ∷ us) = run (apply sd u) us

  -- The connections of one peer that are open, as a plain number.
  count_use : PeerId → ℕ → Use PeerId → ℕ
  count_use p n (tracks now q) = if same q p then n + 1 else n
  count_use p n (releases q) = if same q p then n - 1 else n

  pub count : PeerId → ℕ → List (Use PeerId) → ℕ
  unfolding count_use
  count p n [] = n
  count p n (u ∷ us) = count p (count_use p n u) us

  current_load-put_load :
      (p q : PeerId) (info : ServerLoadInfo PeerId) (sd : ServerDiscovery PeerId)
      → current_load peers (put_load peers q info sd) p
        ≡ (if same q p then info.active_conns else current_load peers sd p)
  unfolding current_load put_load
  current_load-put_load p q info sd =
      ground (arith, lookup-insert same same_iff q p info sd.server_loads)

  current_load-some :
      (p : PeerId) (info : ServerLoadInfo PeerId) (sd : ServerDiscovery PeerId)
      → load_of peers p sd ≡ some info
      → current_load peers sd p ≡ info.active_conns
  unfolding current_load
  current_load-some p info sd h = rw (h, current_load)

  current_load-none :
      (p : PeerId) (sd : ServerDiscovery PeerId)
      → load_of peers p sd ≡ none
      → current_load peers sd p ≡ pos 0
  unfolding current_load
  current_load-none p sd h = rw (h, current_load)

  active-tracked :
      (sd : ServerDiscovery PeerId) (now n : ℕ) (q : PeerId)
      → n < max_int
      → current_load peers sd q ≡ pos n
      → (tracked peers now q (load_of peers q sd)).active_conns ≡ pos (n + 1)
  unfolding tracked current_load
  active-tracked sd now n q h e = ground (arith, inc_int_pos n h)

  pub current_load-track :
      (sd : ServerDiscovery PeerId) (now : ℕ) (p q : PeerId) (n : ℕ)
      → n < max_int
      → current_load peers sd p ≡ pos n
      → current_load peers (track_connection peers now q sd) p ≡ pos (if same q p then n + 1 else n)
  unfolding track_connection
  current_load-track sd now p q n h e = elim (Bool-cases (same q p)) [
    | inl t ↦
        let here = subst (λ x. current_load peers sd x ≡ pos n) (sym ((same_iff q p).0 t)) e in
        current_load-put_load p q (tracked peers now q (load_of peers q sd)) sd
        ∙ rw t (active-tracked sd now n q h here)
    | inr t ↦ current_load-put_load p q (tracked peers now q (load_of peers q sd)) sd ∙ rw t e
  ]

  current_load-release :
      (sd : ServerDiscovery PeerId) (p q : PeerId) (n : ℕ)
      → n < max_int
      → current_load peers sd p ≡ pos n
      → current_load peers (release_connection peers q sd) p ≡ pos (if same q p then n - 1 else n)
  unfolding release_connection
  current_load-release sd p q n h e =
      let here = λ (t : same q p ≡ true).
        subst (λ x. current_load peers sd x ≡ pos n) (sym ((same_iff q p).0 t)) e in
      elim (Option-cases (load_of peers q sd)) [
        | inl m ↦ elim (Bool-cases (same q p)) [
          | inl t ↦
              rw (m, release_connection, t) (e ∙ ground (arith, here t, current_load-none q sd m))
          | inr t ↦ rw (m, release_connection, t) e
        ]
        | inr (info, m) ↦
            rw (m, release_connection)
              (current_load-put_load p q _ sd ∙ elim (Bool-cases (same q p)) [
                | inl t ↦ rw t (
                    ap (λ x. at_least_zero (dec_int x))
                      (sym (current_load-some q info sd m) ∙ here t)
                    ∙ release_count n h)
                | inr t ↦ rw t e
              ])
      ]

  count_use_le : (p : PeerId) (n : ℕ) (u : Use PeerId) → count_use p n u ≤ n + 1
  unfolding count_use
  count_use_le p n (tracks now q) = ground arith
  count_use_le p n (releases q) = ground arith

  current_load-apply :
      (sd : ServerDiscovery PeerId) (p : PeerId) (n : ℕ) (u : Use PeerId)
      → n < max_int
      → current_load peers sd p ≡ pos n
      → current_load peers (apply sd u) p ≡ pos (count_use p n u)
  unfolding apply count_use
  current_load-apply sd p n (tracks now q) = current_load-track sd now p q n
  current_load-apply sd p n (releases q) = current_load-release sd p q n

  -- After any sequence of tracked and released connections, of any peers and in any order, the load
  -- of a peer is the number that a plain counter of its own connections has, which stops at zero.
  -- The sequence is shorter than the largest 64-bit integer, so that no counter wraps around.
  pub current_load-run :
      (sd : ServerDiscovery PeerId) (p : PeerId) (n : ℕ) (us : List (Use PeerId))
      → n + length us < max_int
      → current_load peers sd p ≡ pos n
      → current_load peers (run sd us) p ≡ pos (count p n us)
  unfolding run count
  current_load-run sd p n [] h e = e
  current_load-run sd p n (u ∷ us) h e =
      current_load-run (apply sd u) p (count_use p n u) us (omega (arith, count_use_le p n u))
        (current_load-apply sd p n u (omega arith) e)

  -- A discovery without entries has no load.
  pub current_load_empty :
      (sd : ServerDiscovery PeerId) (p : PeerId)
      → sd.server_loads ≡ []
      → current_load peers sd p ≡ pos 0
  unfolding current_load load_of lookup
  current_load_empty sd p h = rw (h, current_load)

  -- The loads are all that counts.
  pub current_load-same :
      (sd sd' : ServerDiscovery PeerId) (p : PeerId)
      → sd.server_loads ≡ sd'.server_loads
      → current_load peers sd p ≡ current_load peers sd' p
  unfolding current_load load_of
  current_load-same sd sd' p h =
      ap
        (λ (loads : List (PeerId × ServerLoadInfo PeerId)). elim (lookup same p loads) as (λ x. ℤ) [
          | some info ↦ info.active_conns
          | none ↦ pos 0
        ])
        h

  -- A release undoes one more connection.
  pub current_load-release_one :
      (sd : ServerDiscovery PeerId) (f : PeerId → ℕ) (q : PeerId)
      → ((p : PeerId) → f p + 1 < max_int)
      → ((p : PeerId) → current_load peers sd p ≡ pos (if same q p then f p + 1 else f p))
      → (p : PeerId) → current_load peers (release_connection peers q sd) p ≡ pos (f p)
  current_load-release_one sd f q l h p = elim (Bool-cases (same q p)) [
    | inl y ↦
        current_load-release sd p q (f p + 1) (l p)
          (h p ∙ ap (λ b. pos (if b then f p + 1 else f p)) y)
        ∙ ap (λ b. pos (if b then f p + 1 - 1 else f p + 1)) y
        ∙ ap pos (omega arith)
    | inr n ↦
        current_load-release sd p q (f p) (omega (arith, l p))
          (h p ∙ ap (λ b. pos (if b then f p + 1 else f p)) n)
        ∙ ap (λ b. pos (if b then f p - 1 else f p)) n
  ]
