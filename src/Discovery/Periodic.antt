-- ===== src/Discovery/Periodic.antt =====
-- The goroutine of `StartPeriodicDiscovery` of server/handlers/discovery.go, and `time.NewTicker`,
-- which panics at an interval that is not positive.
use goxic.Prelude.{
  ℕ, ◌<◌, ◌≤◌, ◌≡◌, ◌↔◌, Bool, true, not, List, [], ◌∷◌, Option, none, some, if◌then◌else◌, arith,
}
use goxic.Prelude.Int.{ℤ, pos, ltb_ℤ, seconds}
use goxic.Peer.{PeerIds}
use goxic.Discovery.State.{Host, DiscoverySettings}
use goxic.Discovery.Refresh.{State, refresh_server_list}

abbrev pub ticker_starts : ℤ → Bool
ticker_starts interval = ltb_ℤ (pos 0) interval

-- What the goroutine's `select` finds.
pub data Signal : Type 0 where
  ticked : Signal
  done : Signal

module _ (peers : PeerIds) (host : Host peers.PeerId) where
  refresh_on_ticks : DiscoverySettings → List Signal → State peers host → State peers host
  refresh_on_ticks cfg [] st = st
  refresh_on_ticks cfg (done ∷ signals) st = st
  refresh_on_ticks cfg (ticked ∷ signals) st =
      refresh_on_ticks cfg signals (refresh_server_list peers host cfg st).0

  -- None for the panic; the list is refreshed once before the first tick.
  unfoldable pub start_periodic_discovery :
      DiscoverySettings → List Signal → State peers host → Option (State peers host)
  unfolding refresh_on_ticks
  start_periodic_discovery cfg signals st =
      if not (ticker_starts st.1.update_interval)
      then none
      else some (refresh_on_ticks cfg signals (refresh_server_list peers host cfg st).0)

-- An interval of so many seconds is positive while its nanoseconds fit into 63 bits.
pub ticker_starts-seconds :
    (n : ℕ)
    → n ≤ 18446744073
    → (ticker_starts (seconds (pos n)) ≡ true) ↔ ((0 < n) × (n ≤ 9223372036))
unfolding seconds
ticker_starts-seconds n l = (λ h. ground (arith, h), λ (a, b). ground arith)
