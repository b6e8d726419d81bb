-- ===== src/Discovery/Failures/Blacklist.antt =====
-- When a peer is avoided.
pub mod Account
use goxic.Prelude.{
  true, subst, sym, ℕ, ◌+◌, ◌<◌, ◌≤◌, ◌≡◌, refl, ◌⊎◌, ap, ◌∙◌, false, not, ◌&&◌, List, [], ◌∷◌,
  arith, if◌then◌else◌, length, none, some, Option-cases, Bool-cases, inl, inr, leb, ltb,
}
use goxic.Prelude.Int.{ℤ, pos, pos_part, ltb_ℤ, inc_int, time_sub, max_int, inc_int_pos}
use goxic.Prelude.Dict.{lookup, lookup-insert}
use goxic.Peer.{PeerIds}
use goxic.Discovery.State.{PeerFailureInfo, ServerDiscovery, ten_minutes}
use goxic.Discovery.Failures.{
  failure_of, put_failure, entry, failed, is_blacklisted, record_connection_failure,
  record_connection_success,
}

-- The settings of `NewServerDiscovery`.
abbrev pub HasDefaults : {PeerId : Type 0} → ServerDiscovery PeerId → Type 0
HasDefaults sd = (sd.max_failures ≡ pos 3) × (sd.blacklist_time ≡ pos ten_minutes)

module _ (peers : PeerIds) where
  open peers use {PeerId, same, same_iff}

  -- The recorded failures of a peer and the time of the last one.
  pub failure_count : PeerId → ServerDiscovery PeerId → ℤ
  failure_count p sd = (entry peers p (failure_of peers p sd)).failure_count

  pub last_failure : PeerId → ServerDiscovery PeerId → ℕ
  last_failure p sd = (entry peers p (failure_of peers p sd)).last_failure

  entry-put_failure :
      (p q : PeerId) (info : PeerFailureInfo PeerId) (sd : ServerDiscovery PeerId)
      → entry peers p (failure_of peers p (put_failure peers q info sd))
        ≡ (if same q p then info else entry peers p (failure_of peers p sd))
  unfolding entry failure_of put_failure
  entry-put_failure p q info sd =
      ground (arith, lookup-insert same same_iff q p info sd.peer_failures)

  entry_self :
      (p : PeerId) (info : PeerFailureInfo PeerId) (sd : ServerDiscovery PeerId)
      → entry peers p (failure_of peers p (put_failure peers p info sd)) ≡ info
  entry_self p info sd =
      entry-put_failure p p info sd
      ∙ ap (λ b. if b then info else entry peers p (failure_of peers p sd)) ((same_iff p p).1 refl)

  is_blacklisted_lem :
      (now : ℕ) (p : PeerId) (sd : ServerDiscovery PeerId)
      → HasDefaults sd
      → (is_blacklisted peers now p sd).0 ≡ (
          not (ltb_ℤ (failure_count p sd) (pos 3))
          && ltb_ℤ (time_sub now (last_failure p sd)) (pos ten_minutes))
  unfolding is_blacklisted failure_count last_failure entry
  is_blacklisted_lem now p sd h = elim (Option-cases (failure_of peers p sd)) [
    | inl e ↦ ground (arith, e)
    | inr (info, e) ↦ rw (e, is_blacklisted) (ground (arith, h.0, h.1))
  ]

  asked_cases :
      (t : ℕ) (q : PeerId) (sd : ServerDiscovery PeerId)
      → ((is_blacklisted peers t q sd).1 ≡ sd)
        ⊎ ((info : PeerFailureInfo PeerId) × ((is_blacklisted peers t q sd).1
              ≡ put_failure peers q info sd))
  unfolding is_blacklisted
  asked_cases t q sd = elim (Option-cases (failure_of peers q sd)) [
    | inl e ↦ inl (rw (e, is_blacklisted))
    | inr (info, e) ↦ elim (Bool-cases (ltb_ℤ info.failure_count sd.max_failures)) [
      | inl f ↦ inl (rw (e, is_blacklisted, f))
      | inr f ↦ elim (Bool-cases (ltb_ℤ (time_sub t info.last_failure) sd.blacklist_time)) [
        | inl g ↦ inl (rw (e, is_blacklisted, f, g))
        | inr g ↦ inr (record info { failure_count = pos 0 }, rw (e, is_blacklisted, f, g))
      ]
    ]
  ]

  -- A successful connection clears the failures of its peer.
  failure_count-success :
      (now : ℕ) (p : PeerId) (sd : ServerDiscovery PeerId)
      → failure_count p (record_connection_success peers now p sd) ≡ pos 0
  unfolding failure_count record_connection_success
  failure_count-success now p sd =
      ap (λ (x : PeerFailureInfo PeerId). x.failure_count) (entry_self p _ sd)

  other_put :
      (now : ℕ) (p q : PeerId) (info : PeerFailureInfo PeerId) (sd : ServerDiscovery PeerId)
      → same q p ≡ false
      → (is_blacklisted peers now p (put_failure peers q info sd)).0
        ≡ (is_blacklisted peers now p sd).0
  unfolding is_blacklisted
  other_put now p q info sd h =
      let e = lookup-insert same same_iff q p info sd.peer_failures in ground (arith, e, h)

  -- Whether a peer is avoided is not changed by a failure or a success of another peer, or by asking
  -- whether the other is avoided.
  is_blacklisted-other :
      (now t : ℕ) (p q : PeerId) (sd : ServerDiscovery PeerId)
      → same q p ≡ false
      → ((is_blacklisted peers now p (record_connection_failure peers t q sd)).0
          ≡ (is_blacklisted peers now p sd).0)
        × ((is_blacklisted peers now p (record_connection_success peers t q sd)).0
            ≡ (is_blacklisted peers now p sd).0)
        × ((is_blacklisted peers now p (is_blacklisted peers t q sd).1).0
            ≡ (is_blacklisted peers now p sd).0)
  unfolding record_connection_failure record_connection_success
  is_blacklisted-other now t p q sd h = (
    other_put now p q _ sd h,
    other_put now p q _ sd h,
    elim (asked_cases t q sd) [ inl e ↦ rw e | inr (info, e) ↦ rw e (other_put now p q info sd h) ],
  )
