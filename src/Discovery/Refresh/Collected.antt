-- ===== src/Discovery/Refresh/Collected.antt =====
-- Which servers a refresh stores.
use goxic.Prelude.{
  ℕ, suc, ◌+◌, ◌*◌, ◌^◌, ◌≤◌, ◌<◌, ◌≡◌, ◌⊎◌, refl, Bool, true, false, List, [], ◌∷◌, none, some,
  arith, length, IsSublist, stop, skip, keep, IsSublist-nil, Bool-cases, ◌==◌, Option-cases, inl,
  inr,
}
use goxic.Prelude.Int.{ℤ, pos, pos_part, seconds}
use goxic.Peer.{PeerIds}
use goxic.Discovery.State.{AddrInfo, Host, DiscoverySettings}
use goxic.Discovery.Failures.{is_blacklisted}
use goxic.Discovery.Refresh.{
  Visit, full, passed, kept, collect, State, is_exit_capable_server, verify_server, connect_server,
  connect_client, visit_server, visit_client, refresh_with, refresh_server_list,
  refresh_server_list_for_client,
}

-- A run of the loop over the channel: it begins in one state, appends these elements and ends in
-- another. A round that appends has the property of the state before it, the element, and the state
-- after it; a round that passes is one of the loop's.
pub data Rounds {A S : Type 0} (visit : A → ℕ → S → Visit S) (P : S → A → S → Type 0)
    : S → List A → S → Type 0 where
  ended : {st : S} → Rounds visit P st [] st
  passing :
      {p : A} {n : ℕ} {st st' end : S} {found : List A}
      → visit p n st ≡ passed st'
      → Rounds visit P st' found end
      → Rounds visit P st found end
  appending :
      {p : A} {st st' end : S} {found : List A}
      → P st p st'
      → Rounds visit P st' found end
      → Rounds visit P st (p ∷ found) end

module _ {A S : Type 0} (visit : A → ℕ → S → Visit S) (P : S → A → S → Type 0) (limit : ℕ)
    (accepts : (p : A) (n : ℕ) (st st' : S)
      → visit p n st ≡ kept st'
      → P st p st' × (n < limit)) where
  -- What holds of the list that the loop collects from a place of the channel on.
  abbrev IsCollected : List A → ℕ → S → S × List A → Type 0
  IsCollected delivered n st r =
      IsSublist r.1 delivered × Rounds visit P st r.1 r.0 × (n ≤ limit → n + length r.1 ≤ limit)

  collect_visit :
      (p : A) (ps : List A) (n : ℕ) (st : S) (v : Visit S)
      → ((k : ℕ) (st' : S) → IsCollected ps k st' (collect visit ps k st'))
      → visit p n st ≡ v
      → IsCollected (p ∷ ps) n st (collect visit (p ∷ ps) n st)
  unfolding collect
  collect_visit p ps n st full later e =
      rw (e, collect) (IsSublist-nil (p ∷ ps), ended, λ h. omega arith)
  collect_visit p ps n st (passed st') later e =
      let (s, rounds, bound) = later n st' in rw (e, collect) (skip s, passing e rounds, bound)
  collect_visit p ps n st (kept st') later e =
      let (s, rounds, bound) = later (suc n) st' in
      let (good, below) = accepts p n st st' e in
      let room = bound below in rw (e, collect) (keep s, appending good rounds, λ h. omega arith)

  collect-IsCollected : (ps : List A) (n : ℕ) (st : S) → IsCollected ps n st (collect visit ps n st)
  collect-IsCollected [] n st = unfold collect in (stop, ended, λ h. omega arith)
  collect-IsCollected (p ∷ ps) n st =
      collect_visit p ps n st (visit p n st) (collect-IsCollected ps) refl

module _ (peers : PeerIds) (host : Host peers.PeerId) where
  open peers use {PeerId, same}
  open host use {World, self, connectedness, connect, sleep, find_peers, now}

  -- A round that stores a peer: it is another node, is not blacklisted when the round begins, and
  -- offers the relay protocol when the round ends.
  pub record IsVerified (st : State peers host) (p : AddrInfo PeerId) (st' : State peers host)
      : Type 0 where
    pub other : same p.id self ≡ false
    allowed : (is_blacklisted peers (now st.0) p.id st.1).0 ≡ false
    pub capable : is_exit_capable_server peers host st'.0 p.id ≡ true

  -- A round of a client that stores a peer: it is another node, and it is connected when the round
  -- begins, or connecting to it succeeds.
  pub record IsConnected (timeout : ℤ) (st : State peers host) (p : AddrInfo PeerId)
      (st' : State peers host) : Type 0 where
    pub other : same p.id self ≡ false
    pub connected :
        ((connectedness st.0 p.id == 0) ≡ false) ⊎ ((connect st.0 (seconds timeout) p).1 ≡ true)

  verify-capable :
      (just : Bool) (p : AddrInfo PeerId) (st st' : State peers host)
      → verify_server peers host just p st ≡ kept st'
      → is_exit_capable_server peers host st'.0 p.id ≡ true
  unfolding verify_server
  verify-capable just p (w, sd) st' e =
      elim (Bool-cases (is_exit_capable_server peers host (sleep w (100 * 10 ^ 6)) p.id)) [
        | inl c ↦ cc (c, rw (c, verify_server) at e)
        | inr c ↦ ground (arith, e, c)
      ]

  connect-capable :
      (p : AddrInfo PeerId) (st st' : State peers host)
      → connect_server peers host p st ≡ kept st'
      → is_exit_capable_server peers host st'.0 p.id ≡ true
  unfolding connect_server
  connect-capable p (w, sd) st' e = elim (Bool-cases (connect w (seconds (pos 5)) p).1) [
    | inl c ↦ verify-capable true p _ st' (rw (c, connect_server) at e)
    | inr c ↦ ground (arith, e, c)
  ]

  visit_server-kept :
      (max : ℤ) (p : AddrInfo PeerId) (n : ℕ) (st st' : State peers host)
      → visit_server peers host max p n st ≡ kept st'
      → IsVerified st p st' × (n < pos_part max)
  unfolding visit_server
  visit_server-kept max p n (w, sd) st' e =
      let asked = is_blacklisted peers (now w) p.id sd in
      elim (Bool-cases (same p.id self)) [
        | inl s ↦ ground (arith, e, s)
        | inr s ↦ elim (Bool-cases asked.0) [
          | inl b ↦ ground (arith, e, s, b)
          | inr b ↦
              let capable : is_exit_capable_server peers host st'.0 p.id ≡ true =
                elim (Bool-cases (connectedness w p.id == 0)) [
                  | inl c ↦ connect-capable p (w, asked.1) st' (ground (arith, e, s, b, c))
                  | inr c ↦ verify-capable false p (w, asked.1) st' (ground (arith, e, s, b, c))
                ] in
              (record { other = s; allowed = b; capable = capable }, ground (arith, e, s, b))
        ]
      ]

  visit_client-kept :
      (max timeout : ℤ) (p : AddrInfo PeerId) (n : ℕ) (st st' : State peers host)
      → visit_client peers host max timeout p n st ≡ kept st'
      → IsConnected timeout st p st' × (n < pos_part max)
  unfolding visit_client connect_client
  visit_client-kept max timeout p n (w, sd) st' e = (
    record {
      other = ground arith;
      connected = elim (Bool-cases (connectedness w p.id == 0)) [
        | inr c ↦ inl c
        | inl c ↦ elim (Bool-cases ((connect w (seconds timeout) p).1)) [
          | inl d ↦ inr d
          | inr d ↦ ground (arith, e, c, d)
        ]
      ];
    },
    ground arith,
  )

  -- What a refresh leaves: after an error of `FindPeers` the discovery is as it was; otherwise its
  -- server list are peers that `FindPeers` delivered, in their order, at most `MaxServers` many
  -- (none if that is negative), each stored by a round of the loop that has the property, and the
  -- rest is as the last round left it, with the time of the refresh.
  abbrev pub Refreshed :
      (AddrInfo PeerId → ℕ → State peers host → Visit (State peers host))
      → (State peers host → AddrInfo PeerId → State peers host → Type 0)
      → DiscoverySettings
      → State peers host
      → State peers host × Bool
      → Type 0
  Refreshed visit P cfg st r =
      let (w', found) = find_peers st.0 (seconds cfg.query_timeout_sec) cfg.network_name in
      let servers = r.0.1.server_peers in
      ((found ≡ none) × (r.0.1 ≡ st.1) × (r.1 ≡ true))
      ⊎ ((delivered : List (AddrInfo PeerId)) × (found ≡ some delivered)
          × (r.1 ≡ false)
          × IsSublist servers delivered
          × (length servers ≤ pos_part cfg.max_servers)
          × ((last : State peers host) × Rounds visit P (w', st.1) servers last
              × (r.0 ≡ (
                last.0,
                record (last.1) { server_peers = servers; last_update = now last.0 },
              ))))

  refresh_with-Refreshed :
      (visit : AddrInfo PeerId → ℕ → State peers host → Visit (State peers host))
      (P : State peers host → AddrInfo PeerId → State peers host → Type 0) (cfg : DiscoverySettings)
      (st : State peers host)
      → ((p : AddrInfo PeerId) (n : ℕ) (s s' : State peers host)
          → visit p n s ≡ kept s'
          → P s p s' × (n < pos_part cfg.max_servers))
      → Refreshed visit P cfg st (refresh_with peers host visit cfg st)
  unfolding refresh_with
  refresh_with-Refreshed visit P cfg (w, sd) accepts =
      elim (Option-cases (find_peers w (seconds cfg.query_timeout_sec) cfg.network_name).1) [
        | inl e ↦ inl (e, rw (e, refresh_with), rw (e, refresh_with))
        | inr (delivered, e) ↦
            let w' = (find_peers w (seconds cfg.query_timeout_sec) cfg.network_name).0 in
            let (sub, rounds, bound) =
              collect-IsCollected visit P (pos_part cfg.max_servers) accepts delivered 0 (w', sd) in
            let fits = bound (omega arith) in
            inr (
              delivered,
              e,
              rw (e, refresh_with),
              rw (e, refresh_with) sub,
              rw (e, refresh_with) (omega (arith, fits)),
              (
                (collect visit delivered 0 (w', sd)).0,
                rw (e, refresh_with) rounds,
                rw (e, refresh_with),
              ),
            )
      ]

  -- A refresh of the server mesh, `refreshServerList`: after an error of `FindPeers` nothing changes;
  -- otherwise the stored servers are delivered peers, in their order, no more than `MaxServers`, and
  -- each of them was, in the round of the loop that stored it, another node, not blacklisted, and
  -- found to offer the relay protocol.
  pub refresh_server_list-Refreshed :
      (cfg : DiscoverySettings) (st : State peers host)
      → Refreshed
          (visit_server peers host cfg.max_servers)
          IsVerified
          cfg
          st
          (refresh_server_list peers host cfg st)
  unfolding refresh_server_list
  refresh_server_list-Refreshed cfg st =
      refresh_with-Refreshed (visit_server peers host cfg.max_servers) IsVerified cfg st
        (visit_server-kept cfg.max_servers)

  -- A refresh by a client, `refreshServerListForClient`: after an error of `FindPeers` nothing
  -- changes; otherwise the stored servers are delivered peers, in their order, no more than
  -- `MaxServers`, and each of them was, in the round of the loop that stored it, another node and
  -- already connected, or connected to with success.
  pub refresh_for_client-Refreshed :
      (cfg : DiscoverySettings) (st : State peers host)
      → Refreshed
          (visit_client peers host cfg.max_servers cfg.connection_timeout)
          (IsConnected cfg.connection_timeout)
          cfg
          st
          (refresh_server_list_for_client peers host cfg st)
  unfolding refresh_server_list_for_client
  refresh_for_client-Refreshed cfg st =
      refresh_with-Refreshed (visit_client peers host cfg.max_servers cfg.connection_timeout)
        (IsConnected cfg.connection_timeout) cfg st
        (visit_client-kept cfg.max_servers cfg.connection_timeout)
