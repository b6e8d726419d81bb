-- ===== src/Discovery/Loads/Entries.antt =====
-- The entries of the load table: each is under the name of its peer, with a counter that is a 64-bit
-- integer.
use goxic.Prelude.{◌≡◌, refl, ℕ, Option-cases, inl, inr, arith, All, some}
use goxic.Prelude.Int.{ℤ, IsInt64, inc_int-IsInt64, dec_int, dec_int-IsInt64}
use goxic.Prelude.Dict.{All-insert, All-lookup}
use goxic.Peer.{PeerIds}
use goxic.Discovery.State.{ServerLoadInfo, ServerDiscovery}
use goxic.Discovery.Loads.{
  at_least_zero, load_of, put_load, tracked, track_connection, release_connection, current_load,
}

module _ (peers : PeerIds) where
  open peers use {PeerId, same, same_iff}

  abbrev IsLoad : PeerId × ServerLoadInfo PeerId → Type 0
  IsLoad e = (e.1.peer_id ≡ e.0) × IsInt64 e.1.active_conns

  abbrev pub HasIntLoads : ServerDiscovery PeerId → Type 0
  HasIntLoads sd = All IsLoad sd.server_loads

  put_load-HasIntLoads :
      (p : PeerId) (info : ServerLoadInfo PeerId) (sd : ServerDiscovery PeerId)
      → IsLoad (p, info)
      → HasIntLoads sd
      → HasIntLoads (put_load peers p info sd)
  unfolding put_load
  put_load-HasIntLoads p info sd h k = All-insert same same_iff IsLoad p info sd.server_loads h k

  load_of-IsLoad :
      (p : PeerId) (info : ServerLoadInfo PeerId) (sd : ServerDiscovery PeerId)
      → HasIntLoads sd
      → load_of peers p sd ≡ some info
      → IsLoad (p, info)
  unfolding load_of
  load_of-IsLoad p info sd k e = All-lookup same same_iff IsLoad p info sd.server_loads k e

  pub track_connection-HasIntLoads :
      (now : ℕ) (p : PeerId) (sd : ServerDiscovery PeerId)
      → HasIntLoads sd
      → HasIntLoads (track_connection peers now p sd)
  unfolding track_connection tracked
  track_connection-HasIntLoads now p sd k = elim (Option-cases (load_of peers p sd)) [
    | inl e ↦
        rw (e, track_connection) (put_load-HasIntLoads p _ sd (refl, (omega arith, omega arith)) k)
    | inr (info, e) ↦
        let (n, _) = load_of-IsLoad p info sd k e in
        rw (e, track_connection)
          (put_load-HasIntLoads p _ sd (n, inc_int-IsInt64 info.active_conns) k)
  ]

  at_least_zero-IsInt64 : (x : ℤ) → IsInt64 x → IsInt64 (at_least_zero x)
  unfolding at_least_zero
  at_least_zero-IsInt64 x (h, l) = (ground arith, ground arith)

  pub release_connection-HasIntLoads :
      (p : PeerId) (sd : ServerDiscovery PeerId)
      → HasIntLoads sd
      → HasIntLoads (release_connection peers p sd)
  unfolding release_connection
  release_connection-HasIntLoads p sd k = elim (Option-cases (load_of peers p sd)) [
    | inl e ↦ rw (e, release_connection) k
    | inr (info, e) ↦
        let (n, _) = load_of-IsLoad p info sd k e in
        let fits =
          at_least_zero-IsInt64 (dec_int info.active_conns) (dec_int-IsInt64 info.active_conns) in
        rw (e, release_connection) (put_load-HasIntLoads p _ sd (n, fits) k)
  ]

  pub current_load-IsInt64 :
      (sd : ServerDiscovery PeerId)
      → HasIntLoads sd
      → (p : PeerId) → IsInt64 (current_load peers sd p)
  unfolding current_load
  current_load-IsInt64 sd k p = elim (Option-cases (load_of peers p sd)) [
    | inl e ↦ rw (e, current_load) (omega arith, omega arith)
    | inr (info, e) ↦ rw (e, current_load) (load_of-IsLoad p info sd k e).1
  ]

  -- All but the loads is left alone.
  abbrev pub DiffersInLoads : ServerDiscovery PeerId → ServerDiscovery PeerId → Type 0
  DiffersInLoads sd sd' = sd' ≡ record sd { server_loads = sd'.server_loads }

  pub track_connection-DiffersInLoads :
      (now : ℕ) (p : PeerId) (sd : ServerDiscovery PeerId)
      → DiffersInLoads sd (track_connection peers now p sd)
  unfolding track_connection put_load
  track_connection-DiffersInLoads now p sd = refl

  pub release_connection-DiffersInLoads :
      (p : PeerId) (sd : ServerDiscovery PeerId) → DiffersInLoads sd (release_connection peers p sd)
  unfolding release_connection put_load
  release_connection-DiffersInLoads p sd = elim (Option-cases (load_of peers p sd)) [
    | inl e ↦ rw (e, release_connection) refl
    | inr (info, e) ↦ rw (e, release_connection) refl
  ]
