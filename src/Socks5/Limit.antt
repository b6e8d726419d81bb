-- ===== src/Socks5/Limit.antt =====
-- The limit on connections: the counter `activeConnections` of `handleConnection`, whose decrement is
-- deferred before the limit is checked. Connections overlap, so the counter moves by events.
pub mod Drift
use goxic.Prelude.{ℕ, suc, zero, ◌+◌, ◌-◌, Bool, true, false, List, [], ◌∷◌}
use goxic.Prelude.Int.{ℤ, pos, negsuc, ltb_ℤ, add_int32, wrap_int32}

-- `activeConnections > int32(MaxConnections)`.
pub is_over_limit : ℤ → ℤ → Bool
is_over_limit max_connections active = ltb_ℤ (wrap_int32 max_connections) active

-- A connection arrives, or one that was let in ends.
pub data Event : Type 0 where
  arrives : Event
  ends : Event

-- The counter, how many handlers are serving a connection, and how many connections were turned away.
pub record Server : Type 0 where
  pub active : ℤ
  pub serving : ℕ
  pub rejected : ℕ

abbrev pub new_server : Server
new_server = record { active = pos 0; serving = 0; rejected = 0 }

-- An arrival over the limit returns at once, by way of the deferred decrement; one that is let in
-- is counted.
arrive : Bool → Server → Server
arrive true s = record s { active = add_int32 s.active (negsuc 0); rejected = suc s.rejected }
arrive false s = record s { active = add_int32 s.active (pos 1); serving = suc s.serving }

-- The handler of a connection that was let in returns, by way of the same decrement.
leave : ℕ → Server → Server
leave zero s = s
leave (suc n) s = record s { active = add_int32 s.active (negsuc 0); serving = n }

pub step : ℤ → Server → Event → Server
unfolding is_over_limit arrive leave
step max_connections s arrives = arrive (is_over_limit max_connections s.active) s
step max_connections s ends = leave s.serving s

pub run_events : ℤ → Server → List Event → Server
unfolding step
run_events max_connections s [] = s
run_events max_connections s (e ∷ es) = run_events max_connections (step max_connections s e) es
