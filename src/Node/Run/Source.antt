-- ===== src/Node/Run/Source.antt =====
-- What the peer source of the auto-relay offers.
use goxic.Prelude.{
  ℕ, zero, suc, ◌+◌, ◌≤◌, ◌≡◌, refl, ap, inl, inr, Bool, true, false, List, [], ◌∷◌, some, take,
  leb, if◌then◌else◌, Bool-cases, arith,
}
use goxic.Node.Run.{Peers, offer, peer_source}

module _ (peers : Peers) (self : peers.PeerId) where
  open peers use {AddrInfo, id, same}

  -- The peers but for this one.
  abbrev pub others : List AddrInfo → List AddrInfo
  others [] = []
  others (info ∷ infos) = if same (id info) self then others infos else info ∷ others infos

  -- The first ones of a list, at most `k` of them, and `k` unless a send is not taken.
  abbrev IsOffered : (ℕ → Bool) → List AddrInfo → ℕ → List AddrInfo → Type 0
  IsOffered sent infos k offered =
      (j : ℕ) × (j ≤ k) × (offered ≡ take j infos) × (((n : ℕ) → sent n ≡ true) → j ≡ k)

  take-nil : (k : ℕ) → ◌≡◌ {A = List AddrInfo} [] (take k [])
  take-nil zero = refl
  take-nil (suc k) = refl

  module _ (num : ℕ) (sent : ℕ → Bool) where
    offer-IsOffered :
        (infos : List AddrInfo) (count k : ℕ)
        → num ≡ count + k
        → IsOffered sent (others infos) k (offer peers self num sent infos count)
    unfolding offer
    offer-IsOffered [] count k l = (k, omega arith, take-nil k, λ a. refl)
    offer-IsOffered (info ∷ infos) count zero l =
        let full : leb num count ≡ true = ground (arith, l) in
        rw full (zero, omega arith, refl, λ a. refl)
    offer-IsOffered (info ∷ infos) count (suc k) l =
        let room : leb num count ≡ false = ground (arith, l) in
        elim (Bool-cases (same (id info) self)) [
          | inl e ↦ rw (room, e) (offer-IsOffered infos count (suc k) l)
          | inr e ↦ elim (Bool-cases (sent count)) [
            | inl t ↦
                let (j, b, o, a) = offer-IsOffered infos (suc count) k (omega arith) in
                rw (room, e, t) (suc j, omega arith, ap (◌∷◌ info) o, λ all. ap suc (a all))
            | inr t ↦ rw (room, e, t) (zero, omega arith, refl, λ all. cc (all count, t))
          ]
        ]

    -- The peer source offers the first ones of the peers that discovery found, this node left out, in
    -- their order, and at most as many as it is asked for; exactly as many, or all, unless the
    -- context ends while it sends.
    peer_source-take :
        (found : List AddrInfo)
        → (j : ℕ) × (j ≤ num)
          × (peer_source peers self num sent (some found) ≡ take j (others found))
          × (((n : ℕ) → sent n ≡ true) → j ≡ num)
    unfolding peer_source
    peer_source-take found = offer-IsOffered found 0 num (omega arith)
