-- ===== src/Discovery/Failures/Blacklist/Account.antt =====
-- The records of failures of a peer are a plain account of it.
use goxic.Prelude.{
  true, subst, sym, ℕ, ◌+◌, ◌<◌, ◌≤◌, ◌≡◌, refl, ap, ◌∙◌, false, ◌&&◌, List, [], ◌∷◌, arith,
  if◌then◌else◌, length, none, some, Option-cases, Bool-cases, inl, inr, leb, ltb,
}
use goxic.Prelude.Int.{pos, pos_part, inc_int, max_int, inc_int_pos}
use goxic.Prelude.Dict.{lookup}
use goxic.Peer.{PeerIds}
use goxic.Discovery.State.{PeerFailureInfo, ServerDiscovery, ten_minutes}
use goxic.Discovery.Failures.{
  failure_of, put_failure, entry, failed, is_blacklisted, record_connection_failure,
  record_connection_success,
}
use goxic.Discovery.Failures.Blacklist.{
  HasDefaults, failure_count, last_failure, entry-put_failure, entry_self, is_blacklisted_lem,
  asked_cases,
}

pub data Attempt (PeerId : Type 0) : Type 0 where
  asks : ℕ → PeerId → Attempt PeerId
  fails : ℕ → PeerId → Attempt PeerId
  succeeds : ℕ → PeerId → Attempt PeerId

abbrev pub Account : Type 0
Account = ℕ × ℕ

module _ (peers : PeerIds) where
  open peers use {PeerId, same, same_iff}

  -- What a refresh does with the records: it asks before it connects, and records how that went.
  apply : ServerDiscovery PeerId → Attempt PeerId → ServerDiscovery PeerId
  apply sd (asks t q) = (is_blacklisted peers t q sd).1
  apply sd (fails t q) = record_connection_failure peers t q sd
  apply sd (succeeds t q) = record_connection_success peers t q sd

  pub attempted : ServerDiscovery PeerId → List (Attempt PeerId) → ServerDiscovery PeerId
  attempted sd [] = sd
  attempted sd (a ∷ rest) = attempted (apply sd a) rest

  -- A plain account of one peer: failures in a row, and the time of the last one. Asking starts it
  -- anew ten minutes after the third.
  account : PeerId → Account → Attempt PeerId → Account
  account p (n, last) (asks t q) =
      if same q p
      then (if leb 3 n && leb (last + ten_minutes) t then (0, last) else (n, last))
      else (n, last)
  account p (n, last) (fails t q) = if same q p then (n + 1, t) else (n, last)
  account p (n, last) (succeeds t q) = if same q p then (0, last) else (n, last)

  pub account_of : PeerId → Account → List (Attempt PeerId) → Account
  account_of p k [] = k
  account_of p k (a ∷ rest) = account_of p (account p k a) rest

  -- The records hold this account of a peer, with the thresholds of `NewServerDiscovery`.
  abbrev pub Holds : PeerId → Account → ServerDiscovery PeerId → Type 0
  Holds p k sd =
      (failure_count peers p sd ≡ pos k.0) × (last_failure peers p sd ≡ k.1) × HasDefaults sd

  put_failure-Holds :
      (p q : PeerId) (info : PeerFailureInfo PeerId) (sd : ServerDiscovery PeerId) (k k' : Account)
      → Holds p k sd
      → (same q p ≡ true → (info.failure_count ≡ pos k'.0) × (info.last_failure ≡ k'.1))
      → Holds p (if same q p then k' else k) (put_failure peers q info sd)
  unfolding failure_count last_failure
  put_failure-Holds p q info sd k k' (c, l, d) h = elim (Bool-cases (same q p)) [
    | inl e ↦
        let now =
          entry-put_failure peers p q info sd
          ∙ ap (λ b. if b then info else entry peers p (failure_of peers p sd)) e in
        let (c', l') = h e in
        rw e (
          ap (λ (x : PeerFailureInfo PeerId). x.failure_count) now ∙ c',
          ap (λ (x : PeerFailureInfo PeerId). x.last_failure) now ∙ l',
          unfold put_failure in d,
        )
    | inr e ↦
        let now =
          entry-put_failure peers p q info sd
          ∙ ap (λ b. if b then info else entry peers p (failure_of peers p sd)) e in
        rw e (
          ap (λ (x : PeerFailureInfo PeerId). x.failure_count) now ∙ c,
          ap (λ (x : PeerFailureInfo PeerId). x.last_failure) now ∙ l,
          unfold put_failure in d,
        )
  ]

  here-Holds :
      (p q : PeerId) (k : Account) (sd : ServerDiscovery PeerId)
      → same q p ≡ true
      → Holds p k sd
      → Holds q k sd
  here-Holds p q k sd e = subst (λ x. Holds x k sd) (sym ((same_iff q p).0 e))

  fails-Holds :
      (p q : PeerId) (t : ℕ) (k : Account) (sd : ServerDiscovery PeerId)
      → k.0 < max_int
      → Holds p k sd
      → Holds p (account p k (fails t q)) (record_connection_failure peers t q sd)
  unfolding record_connection_failure account failed failure_count
  fails-Holds p q t (n, last) sd b h =
      put_failure-Holds p q (failed peers t (entry peers q (failure_of peers q sd))) sd (n, last)
        (n + 1, t) h
        (λ e.
          let (c, l, d) = here-Holds p q (n, last) sd e h in (ap inc_int c ∙ inc_int_pos n b, refl))

  succeeds-Holds :
      (p q : PeerId) (t : ℕ) (k : Account) (sd : ServerDiscovery PeerId)
      → Holds p k sd
      → Holds p (account p k (succeeds t q)) (record_connection_success peers t q sd)
  unfolding record_connection_success account last_failure
  succeeds-Holds p q t (n, last) sd h =
      put_failure-Holds p q _ sd (n, last) (0, last) h
        (λ e. let (c, l, d) = here-Holds p q (n, last) sd e h in (refl, l))

  asked_state :
      (t n last : ℕ) (p : PeerId) (info : PeerFailureInfo PeerId) (sd : ServerDiscovery PeerId)
      → failure_of peers p sd ≡ some info
      → info.failure_count ≡ pos n
      → info.last_failure ≡ last
      → HasDefaults sd
      → (is_blacklisted peers t p sd).1 ≡ (
          if leb 3 n && leb (last + ten_minutes) t
          then put_failure peers p (record info { failure_count = pos 0 }) sd
          else sd)
  unfolding is_blacklisted
  asked_state t n last p info sd e c l (m, b) = rw (e, is_blacklisted) (ground (arith, c, l, m, b))

  asked_none :
      (t : ℕ) (p : PeerId) (sd : ServerDiscovery PeerId)
      → failure_of peers p sd ≡ none
      → (is_blacklisted peers t p sd).1 ≡ sd
  unfolding is_blacklisted
  asked_none t p sd e = rw (e, is_blacklisted)

  asks_self :
      (p : PeerId) (t n last : ℕ) (sd : ServerDiscovery PeerId)
      → Holds p (n, last) sd
      → Holds p
          (if leb 3 n && leb (last + ten_minutes) t then (0, last) else (n, last))
          (is_blacklisted peers t p sd).1
  unfolding failure_count last_failure entry
  asks_self p t n last sd (c, l, d) = elim (Option-cases (failure_of peers p sd)) [
    | inl e ↦
        let zero_count : pos 0 ≡ pos n = rw (e, failure_count, entry) at c in
        let none_yet : n ≡ 0 = ground (arith, ap pos_part zero_count) in
        let idle : (leb 3 n && leb (last + ten_minutes) t) ≡ false = ground (arith, none_yet) in
        let same_state : (is_blacklisted peers t p sd).1 ≡ sd = asked_none t p sd e in
        rw (idle, same_state) (c, l, d)
    | inr (info, e) ↦
        let c' : info.failure_count ≡ pos n = rw (e, failure_count, entry) at c in
        let l' : info.last_failure ≡ last = rw (e, last_failure, entry) at l in
        let state = asked_state t n last p info sd e c' l' d in
        let reset = record info { failure_count = pos 0 } in
        elim (Bool-cases (leb 3 n && leb (last + ten_minutes) t)) [
          | inr f ↦
              let same_state : (is_blacklisted peers t p sd).1 ≡ sd = state ∙ rw f refl in
              rw (f, same_state) (c, l, d)
          | inl f ↦
              let put : (is_blacklisted peers t p sd).1 ≡ put_failure peers p reset sd =
                state ∙ rw f refl in
              let now = entry_self peers p reset sd in
              rw (f, put)
                (
                  ap (λ (x : PeerFailureInfo PeerId). x.failure_count) now,
                  ap (λ (x : PeerFailureInfo PeerId). x.last_failure) now ∙ l',
                  unfold put_failure in d,
                )
        ]
  ]

  asks-Holds :
      (p q : PeerId) (t : ℕ) (k : Account) (sd : ServerDiscovery PeerId)
      → Holds p k sd
      → Holds p (account p k (asks t q)) (is_blacklisted peers t q sd).1
  unfolding account
  asks-Holds p q t (n, last) sd h = elim (Bool-cases (same q p)) [
    | inl e ↦
        let here : q ≡ p = (same_iff q p).0 e in
        rw e (
          subst
            (λ x.
              Holds p (if leb 3 n && leb (last + ten_minutes) t then (0, last) else (n, last))
                (is_blacklisted peers t x sd).1)
            (sym here) (asks_self p t n last sd h))
    | inr e ↦ elim (asked_cases peers t q sd) [
      | inl same_state ↦ rw (e, same_state) h
      | inr (info, put) ↦
          let kept = put_failure-Holds p q info sd (n, last) (n, last) h (λ y. cc (e, y)) in
          rw (e, put) (rw e at kept)
    ]
  ]

  apply-Holds :
      (p : PeerId) (k : Account) (sd : ServerDiscovery PeerId) (a : Attempt PeerId)
      → k.0 < max_int
      → Holds p k sd
      → Holds p (account p k a) (apply sd a)
  unfolding apply
  apply-Holds p k sd (asks t q) b h = asks-Holds p q t k sd h
  apply-Holds p k sd (fails t q) b h = fails-Holds p q t k sd b h
  apply-Holds p k sd (succeeds t q) b h = succeeds-Holds p q t k sd h

  account_le : (p : PeerId) (k : Account) (a : Attempt PeerId) → (account p k a).0 ≤ k.0 + 1
  unfolding account
  account_le p (n, last) (asks t q) = ground arith
  account_le p (n, last) (fails t q) = ground arith
  account_le p (n, last) (succeeds t q) = ground arith

  attempted-Holds :
      (p : PeerId) (k : Account) (sd : ServerDiscovery PeerId) (attempts : List (Attempt PeerId))
      → k.0 + length attempts < max_int
      → Holds p k sd
      → Holds p (account_of p k attempts) (attempted sd attempts)
  unfolding attempted account_of
  attempted-Holds p k sd [] b h = h
  attempted-Holds p k sd (a ∷ rest) b h =
      attempted-Holds p (account p k a) (apply sd a) rest (omega (arith, account_le p k a))
        (apply-Holds p k sd a (omega arith) h)

  -- Whatever a refresh does, in any order, at any times and with any peers: asks whether a peer is
  -- avoided, and records a failed or a successful connection; a peer is avoided at a later time
  -- exactly if a plain account of it has three failures or more, and the last one less than ten
  -- minutes before. The account counts its failures since its last success, and starts anew when it
  -- is asked for ten minutes or more after the last failure, with three or more. The records hold
  -- the account that it starts from, with the thresholds of `NewServerDiscovery`, and no counter
  -- comes to the largest 64-bit integer.
  pub is_blacklisted-run :
      (p : PeerId) (k : Account) (sd : ServerDiscovery PeerId) (attempts : List (Attempt PeerId))
      (now : ℕ)
      → k.0 + length attempts < max_int
      → Holds p k sd
      → let (n, last) = account_of p k attempts in
        (is_blacklisted peers now p (attempted sd attempts)).0
        ≡ (leb 3 n && ltb now (last + ten_minutes))
  is_blacklisted-run p k sd attempts now b h =
      let (c, l, d) = attempted-Holds p k sd attempts b h in
      is_blacklisted_lem peers now p _ d ∙ rw (c, l) (ground arith)

  -- Records that are empty hold an account that is.
  pub empty-Holds :
      (p : PeerId) (sd : ServerDiscovery PeerId)
      → sd.peer_failures ≡ []
      → HasDefaults sd
      → Holds p (0, 0) sd
  unfolding failure_count last_failure failure_of lookup entry
  empty-Holds p sd h d = (rw (h, failure_count), rw (h, last_failure), d)
