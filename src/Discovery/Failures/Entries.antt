-- ===== src/Discovery/Failures/Entries.antt =====
-- The entries of the records of failures: each is under the name of its peer.
use goxic.Prelude.{
  ◌≡◌, refl, ℕ, Bool, true, false, not, Option-cases, inl, inr, All, some, if◌then◌else◌,
}
use goxic.Prelude.Int.{pos, ltb_ℤ, time_sub}
use goxic.Prelude.Dict.{All-insert, All-lookup}
use goxic.Peer.{PeerIds}
use goxic.Discovery.State.{PeerFailureInfo, ServerDiscovery}
use goxic.Discovery.Failures.{
  failure_of, put_failure, entry, failed, is_blacklisted, record_connection_failure,
  record_connection_success,
}

module _ (peers : PeerIds) where
  open peers use {PeerId, same, same_iff}

  abbrev IsFailure : PeerId × PeerFailureInfo PeerId → Type 0
  IsFailure e = e.1.peer_id ≡ e.0

  abbrev pub HasNamedFailures : ServerDiscovery PeerId → Type 0
  HasNamedFailures sd = All IsFailure sd.peer_failures

  put_failure-HasNamedFailures :
      (p : PeerId) (info : PeerFailureInfo PeerId) (sd : ServerDiscovery PeerId)
      → IsFailure (p, info)
      → HasNamedFailures sd
      → HasNamedFailures (put_failure peers p info sd)
  unfolding put_failure
  put_failure-HasNamedFailures p info sd h k =
      All-insert same same_iff IsFailure p info sd.peer_failures h k

  failure_of-IsFailure :
      (p : PeerId) (info : PeerFailureInfo PeerId) (sd : ServerDiscovery PeerId)
      → HasNamedFailures sd
      → failure_of peers p sd ≡ some info
      → IsFailure (p, info)
  unfolding failure_of
  failure_of-IsFailure p info sd k e =
      All-lookup same same_iff IsFailure p info sd.peer_failures k e

  entry-IsFailure :
      (p : PeerId) (sd : ServerDiscovery PeerId)
      → HasNamedFailures sd
      → IsFailure (p, entry peers p (failure_of peers p sd))
  unfolding entry
  entry-IsFailure p sd k = elim (Option-cases (failure_of peers p sd)) [
    | inl e ↦ rw (e, entry) refl
    | inr (info, e) ↦ rw (e, entry) (failure_of-IsFailure p info sd k e)
  ]

  if-HasNamedFailures :
      (b : Bool) (x y : Bool × ServerDiscovery PeerId)
      → HasNamedFailures x.1
      → HasNamedFailures y.1
      → HasNamedFailures (if b then x else y).1
  if-HasNamedFailures true x y hx hy = hx
  if-HasNamedFailures false x y hx hy = hy

  pub is_blacklisted-HasNamedFailures :
      (now : ℕ) (p : PeerId) (sd : ServerDiscovery PeerId)
      → HasNamedFailures sd
      → HasNamedFailures (is_blacklisted peers now p sd).1
  unfolding is_blacklisted
  is_blacklisted-HasNamedFailures now p sd k = elim (Option-cases (failure_of peers p sd)) [
    | inl e ↦ rw (e, is_blacklisted) k
    | inr (info, e) ↦
        let past = record info { failure_count = pos 0 } in
        let sd' = put_failure peers p past sd in
        let reset = put_failure-HasNamedFailures p past sd (failure_of-IsFailure p info sd k e) k in
        let recent = ltb_ℤ (time_sub now info.last_failure) sd.blacklist_time in
        let inner = if-HasNamedFailures recent (true, sd) (false, sd') k reset in
        rw (e, is_blacklisted)
          (if-HasNamedFailures (not (ltb_ℤ info.failure_count sd.max_failures))
            (if recent then (true, sd) else (false, sd')) (false, sd) inner k)
  ]

  pub failure-HasNamedFailures :
      (now : ℕ) (p : PeerId) (sd : ServerDiscovery PeerId)
      → HasNamedFailures sd
      → HasNamedFailures (record_connection_failure peers now p sd)
  unfolding record_connection_failure failed
  failure-HasNamedFailures now p sd k =
      put_failure-HasNamedFailures p _ sd (entry-IsFailure p sd k) k

  pub success-HasNamedFailures :
      (now : ℕ) (p : PeerId) (sd : ServerDiscovery PeerId)
      → HasNamedFailures sd
      → HasNamedFailures (record_connection_success peers now p sd)
  unfolding record_connection_success
  success-HasNamedFailures now p sd k =
      put_failure-HasNamedFailures p _ sd (entry-IsFailure p sd k) k
