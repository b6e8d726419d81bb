-- ===== src/Node/Setup/Ticking.antt =====
-- The ticker of server discovery, for an interval that the configuration may have.
use goxic.Prelude.{
  false_of_ne_true, ℕ, ◌<◌, ◌≤◌, ◌≡◌, ◌↔◌, ap, ◌∙◌, inl, inr, true, false, List, [], ◌∷◌, Option,
  none, Bytes, if◌then◌else◌, ltb, ltb→lt, Bool-cases, arith,
}
use goxic.Prelude.Int.{pos, ltb_ℤ, seconds}
use goxic.Peer.{PeerIds}
use goxic.Discovery.State.{Host, DiscoverySettings, new_server_discovery}
use goxic.Discovery.Refresh.{State}
use goxic.Discovery.Periodic.{
  Signal, ticker_starts, start_periodic_discovery, ticker_starts-seconds,
}
use goxic.Config.Record.{Config, server_mode}
use goxic.Config.Load.Usable.{IsUsable}
use goxic.Node.Registry.{Pattern}
use goxic.Node.Setup.{server_discovery, node_type, setup_handlers}
use goxic.Node.Setup.Wiring.{setup_handlers-node_handlers}

module _ (peers : PeerIds) (host : Host peers.PeerId) (cfg : DiscoverySettings)
    (signals : List Signal) where
  panics_iff :
      (st : State peers host)
      → (start_periodic_discovery peers host cfg signals st ≡ none)
        ↔ (ticker_starts st.1.update_interval ≡ false)
  unfolding start_periodic_discovery
  panics_iff st = (λ h. ground (arith, h), λ h. ground (arith, h))

  panics_above :
      (w : host.World) (n : ℕ)
      → 0 < n
      → n ≤ 18446744073
      → (start_periodic_discovery peers host cfg signals (w, new_server_discovery (pos n)) ≡ none)
        ↔ (9223372036 < n)
  unfolding new_server_discovery
  panics_above w n positive l =
      let (starts, back) = ticker_starts-seconds n l in
      let (stuck, stops) = panics_iff (w, new_server_discovery (pos n)) in
      elim (Bool-cases (ltb 9223372036 n)) [
        | inl e ↦
            let big : 9223372036 < n = ltb→lt 9223372036 n e in
            (
              (λ h. big),
              (λ h. stops (
                  false_of_ne_true (ticker_starts (seconds (pos n)))
                    (λ t. omega (arith, big, (starts t).1)))),
            )
        | inr e ↦
            let small : n ≤ 9223372036 = ground (arith, e) in
            (
              (λ h. cc (stuck h, back (positive, small))),
              (λ big. stops (
                  false_of_ne_true (ticker_starts (seconds (pos n)))
                    (λ t. omega (arith, big, (starts t).1)))),
            )
      ]

-- A server whose interval is accepted and positive starts server discovery, and the program then
-- panics exactly if the interval in nanoseconds does not fit into 63 bits, for intervals of at most
-- 18446744073 seconds.
setup_handlers-start_periodic_discovery :
    (compile : Bytes → Option Pattern) (c : Config) (peers : PeerIds) (host : Host peers.PeerId)
    (cfg : DiscoverySettings) (signals : List Signal) (w : host.World) (n : ℕ)
    → IsUsable c
    → c.mode ≡ server_mode
    → c.discovery.update_interval_sec ≡ pos n
    → 0 < n
    → n ≤ 18446744073
    → ((setup_handlers compile c (node_type c)).node_handlers ≡ server_discovery ∷ [])
      × ((start_periodic_discovery peers host cfg signals
              (w, new_server_discovery c.discovery.update_interval_sec)
            ≡ none)
          ↔ (9223372036 < n))
setup_handlers-start_periodic_discovery compile c peers host cfg signals w n u server i positive l =
    let runs : ltb_ℤ (pos 0) (pos n) ≡ true = ground (arith, positive) in
    (
      (setup_handlers-node_handlers compile c u).1 server
          ∙ ap (λ b. if b then server_discovery ∷ [] else []) (ap (ltb_ℤ (pos 0)) i ∙ runs),
      rw i (panics_above peers host cfg signals w n positive l),
    )
