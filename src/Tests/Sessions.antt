-- ===== src/Tests/Sessions.antt =====
-- Two clients at a time: the first one's stream to Bob does not open.
use goxic.Prelude.{◌≡◌, refl, [], ◌∷◌, ◌+◌, arith, true}
use goxic.Prelude.Int.{pos}
use goxic.Wire.{Conn, conn}
use goxic.Discovery.Loads.{current_load}
use goxic.Discovery.Loads.Count.{current_load_empty}
use goxic.Discovery.Refresh.{State}
use goxic.Socks5.Connection.Delivered.{asks}
use goxic.Socks5.Connection.Sessions.{
  Session, accepted, advance, Proxy, accepts, advances, here, move,
}
use goxic.Socks5.Connection.Sessions.Held.{in_use, lost, number}
use goxic.Socks5.Connection.Sessions.Counted.{Reach-IsCounted}
use goxic.Tests.Sample.{Name, bob, three, calm}
use goxic.Tests.Socks5.{offered, target, net, by_order, known}

abbrev client : Conn
client = conn (asks offered 0 target 1 187 [] []) [] true

abbrev quiet : Proxy three calm net by_order
quiet = record { shared = known bob; sessions = [] }

abbrev next : State three calm × Session Name → State three calm × Session Name
next r = advance three calm net by_order r.0 r.1

Reach-IsCounted_example :
    let r = next (next (next (next (known bob, accepted client)))) in
    let sessions = r.1 ∷ accepted client ∷ [] in
    current_load three r.0.1 bob
    ≡ pos (number three (in_use three) bob sessions + number three (lost three) bob sessions)
unfolding number
Reach-IsCounted_example =
    Reach-IsCounted three calm net by_order (λ n h. h) quiet
      (λ p. current_load_empty three (known bob).1 p refl)
      (move
        (move
          (move (move (move (move here (accepts client)) (accepts client)) (advances [] _ _ refl))
            (advances [] _ _ refl))
          (advances [] _ _ refl))
        (advances [] _ _ refl))
      (omega arith) bob
