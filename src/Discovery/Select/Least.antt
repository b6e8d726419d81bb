-- ===== src/Discovery/Select/Least.antt =====
-- Load balancing chooses a server of the list whose load is the lowest.
use goxic.Prelude.{
  ◌≡◌, ◌⊎◌, inl, inr, refl, sym, ap, subst, ◌∙◌, Bool, List, [], ◌∷◌, Option, none, some, arith,
  if◌then◌else◌, All, Elem, Bool-cases,
}
use goxic.Prelude.Int.{ℤ, pos, ltb_ℤ, ◌≤ℤ◌, max_int}
use goxic.Peer.{PeerIds}
use goxic.Discovery.State.{AddrInfo}
use goxic.Discovery.Select.{balance, best_server}

module _ (peers : PeerIds) (load : peers.PeerId → ℤ) where
  open peers use {PeerId}

  -- A server of the list whose load is at most that of every server of it.
  pub record IsLeast (servers : List (AddrInfo PeerId)) (s : AddrInfo PeerId) : Type 0 where
    pub listed : Elem s servers
    pub least : All (λ (t : AddrInfo PeerId). load s.id ≤ℤ load t.id) servers

  -- What the loop gives: nothing better than it had, or a server of the list with its load.
  abbrev Found :
      List (AddrInfo PeerId) → Option (AddrInfo PeerId) × ℤ → Option (AddrInfo PeerId) × ℤ → Type 0
  Found servers best r =
      (r ≡ best) ⊎ ((s : AddrInfo PeerId) × Elem s servers × (r ≡ (some s, load s.id)))

  abbrev Balanced :
      List (AddrInfo PeerId) → Option (AddrInfo PeerId) × ℤ → Option (AddrInfo PeerId) × ℤ → Type 0
  Balanced servers best r =
      (r.1 ≤ℤ best.1)
      × All (λ (t : AddrInfo PeerId). r.1 ≤ℤ load t.id) servers
      × Found servers best r

  balance_cons :
      (s : AddrInfo PeerId) (ss : List (AddrInfo PeerId)) (best : Option (AddrInfo PeerId) × ℤ)
      → balance peers load (s ∷ ss) best
        ≡ balance peers load ss (if ltb_ℤ (load s.id) best.1 then (some s, load s.id) else best)
  unfolding balance
  balance_cons s ss best = refl

  balance-Balanced :
      (servers : List (AddrInfo PeerId)) (best : Option (AddrInfo PeerId) × ℤ)
      → Balanced servers best (balance peers load servers best)
  balance-Balanced [] best = unfold balance in (omega arith, tt, inl refl)
  balance-Balanced (s ∷ ss) best = elim (Bool-cases (ltb_ℤ (load s.id) best.1)) [
    | inl e ↦
        let better : Option (AddrInfo PeerId) × ℤ = (some s, load s.id) in
        let (le, all, found) = balance-Balanced ss better in
        let step =
          balance_cons s ss best
          ∙ ap (λ (b : Bool). balance peers load ss (if b then better else best)) e in
        subst (Balanced (s ∷ ss) best) (sym step) (
          ground arith,
          (le, all),
          elim found [ inl f ↦ inr (s, inl refl, f) | inr (t, m, f) ↦ inr (t, inr m, f) ],
        )
    | inr e ↦
        let (le, all, found) = balance-Balanced ss best in
        let step =
          balance_cons s ss best
          ∙ ap (λ (b : Bool). balance peers load ss (if b then (some s, load s.id) else best)) e in
        subst (Balanced (s ∷ ss) best) (sym step) (
          le,
          (ground arith, all),
          elim found [ inl f ↦ inl f | inr (t, m, f) ↦ inr (t, inr m, f) ],
        )
  ]

  All-le :
      (a b : ℤ) (servers : List (AddrInfo PeerId))
      → a ≤ℤ b
      → All (λ (t : AddrInfo PeerId). b ≤ℤ load t.id) servers
      → All (λ (t : AddrInfo PeerId). a ≤ℤ load t.id) servers
  All-le a b [] le h = tt
  All-le a b (s ∷ ss) le h = (omega arith, All-le a b ss le h.1)

  -- Of a list with at least one server, the selected one is in the list, and none has fewer active
  -- connections. The loads are at most the largest 64-bit integer.
  pub best_server-IsLeast :
      (s : AddrInfo PeerId) (ss : List (AddrInfo PeerId))
      → load s.id ≤ℤ pos max_int
      → (t : AddrInfo PeerId) × (best_server peers load (s ∷ ss) ≡ some t) × IsLeast (s ∷ ss) t
  unfolding best_server
  best_server-IsLeast s ss h =
      let r = balance peers load (s ∷ ss) (none, pos max_int) in
      let (le, all, found) = balance-Balanced (s ∷ ss) (none, pos max_int) in
      elim found [
        | inl f ↦ (
          s,
          rw (f, best_server),
          record {
            listed = inl refl;
            least =
                All-le (load s.id) r.1 (s ∷ ss)
                  (subst (λ x. load s.id ≤ℤ x)
                    (sym (ap (λ (x : Option (AddrInfo PeerId) × ℤ). x.1) f)) h)
                  all;
          },
        )
        | inr (t, m, f) ↦ (
          t,
          rw (f, best_server),
          record {
            listed = m;
            least =
                All-le (load t.id) r.1 (s ∷ ss)
                  (subst (λ x. load t.id ≤ℤ x)
                    (sym (ap (λ (x : Option (AddrInfo PeerId) × ℤ). x.1) f)) (omega arith))
                  all;
          },
        )
      ]
