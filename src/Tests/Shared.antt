-- ===== src/Tests/Shared.antt =====
-- Three callers of load balancing, and two servers.
use goxic.Prelude.{ℕ, ◌+◌, ◌≡◌, ◌≤◌, refl, List, [], ◌∷◌, none, some, arith, length, Elem, All}
use goxic.Discovery.State.{AddrInfo}
use goxic.Discovery.Loads.Count.{current_load_empty}
use goxic.Discovery.Select.Shared.{Caller, one_by_one, at_once, Shared, turns}
use goxic.Discovery.Select.Shared.Even.{HasLoads, IsEven, total, with_more, turns-IsEven}
use goxic.Discovery.Select.Shared.AtOnce.{turns-Chose}
use goxic.Tests.Sample.{Name, bob, carol, three, addr}
use goxic.Tests.Discovery.{fresh}

abbrev callers : List Caller
callers = (1, 10) ∷ (2, 11) ∷ (3, 12) ∷ []

abbrev servers : List (AddrInfo Name)
servers = addr bob ∷ addr carol ∷ []

abbrev idle : Shared three
idle = record { sd = fresh; chosen = λ n. none }

abbrev no_loads : Name → ℕ
no_loads p = 0

fresh-HasLoads : HasLoads three fresh no_loads
fresh-HasLoads p = current_load_empty three fresh p refl

turns-IsEven_example :
    (g : Name → ℕ) × HasLoads three (turns three servers idle (one_by_one callers)).sd g
    × IsEven three servers g
    × (total three servers g ≡ total three servers no_loads + length callers)
turns-IsEven_example =
    turns-IsEven three (addr bob) (addr carol ∷ []) callers idle no_loads ((refl, _), (_, _))
      fresh-HasLoads (λ p. omega arith) (λ a b ea eb. omega arith)

turns-Chose_example :
    let sh' = turns three servers idle (at_once callers) in
    (t : AddrInfo Name) × Elem t servers
    × All (λ (u : AddrInfo Name). no_loads t.id ≤ no_loads u.id) servers
    × All (λ (c : Caller). sh'.chosen c.0 ≡ some t) callers
    × HasLoads three sh'.sd (with_more three t.id (length callers) no_loads)
turns-Chose_example =
    turns-Chose three (addr bob) (addr carol ∷ []) callers idle no_loads fresh-HasLoads
      (λ p. omega arith)
