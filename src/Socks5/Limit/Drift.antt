-- ===== src/Socks5/Limit/Drift.antt =====
-- How the counter of connections relates to the connections.
use goxic.Prelude.{
  ℕ, suc, zero, ◌+◌, ◌-◌, ◌≤◌, ◌<◌, ◌≡◌, ◌^◌, refl, sym, ◌∙◌, ap, Bool, true, false, List, [], ◌∷◌,
  ◌++◌, arith, length, replicate,
}
use goxic.Prelude.Int.{ℤ, pos, negsuc, add_int32, sub_ℕ}
use goxic.Socks5.Limit.{
  is_over_limit, Event, arrives, ends, Server, new_server, arrive, leave, step, run_events,
}

-- The counter is the number of connections that are served less the number that were turned away.
abbrev pub IsDrifted : Server → Type 0
IsDrifted s = s.active ≡ sub_ℕ s.serving s.rejected

count_up : (a b : ℕ) → a + b < 2 ^ 31 - 1 → add_int32 (sub_ℕ a b) (pos 1) ≡ sub_ℕ (suc a) b
count_up a b h = ground arith

count_down : (a b : ℕ) → a + b < 2 ^ 31 - 1 → add_int32 (sub_ℕ a b) (negsuc 0) ≡ sub_ℕ a (suc b)
count_down a b h = ground arith

one_more : (n : ℕ) → n < 2 ^ 31 - 1 → add_int32 (pos n) (pos 1) ≡ pos (suc n)
one_more n h = ground arith

one_less : (n : ℕ) → n < 2 ^ 31 - 1 → add_int32 (pos (suc n)) (negsuc 0) ≡ pos n
one_less n h = ground arith

sub_suc : (a b : ℕ) → sub_ℕ (suc a) (suc b) ≡ sub_ℕ a b
sub_suc a b = ground arith

-- The connections that have been handled or turned away, together.
abbrev seen : Server → ℕ
seen s = s.serving + s.rejected

arrive-IsDrifted :
    (over : Bool) (s : Server)
    → IsDrifted s
    → seen s < 2 ^ 31 - 1
    → IsDrifted (arrive over s) × (seen (arrive over s) ≤ suc (seen s))
unfolding arrive
arrive-IsDrifted true s h few =
    (ap (λ a. add_int32 a (negsuc 0)) h ∙ count_down s.serving s.rejected few, omega arith)
arrive-IsDrifted false s h few =
    (ap (λ a. add_int32 a (pos 1)) h ∙ count_up s.serving s.rejected few, omega arith)

leave-IsDrifted :
    (n : ℕ) (s : Server)
    → n ≡ s.serving
    → IsDrifted s
    → seen s < 2 ^ 31 - 1
    → IsDrifted (leave n s) × (seen (leave n s) ≤ suc (seen s))
unfolding leave
leave-IsDrifted zero s e h few = (h, omega arith)
leave-IsDrifted (suc n) s e h few = (
  ap (λ a. add_int32 a (negsuc 0)) h
      ∙ count_down s.serving s.rejected few
      ∙ ap (λ k. sub_ℕ k (suc s.rejected)) (sym e)
      ∙ sub_suc n s.rejected,
  omega arith,
)

step-IsDrifted :
    (max_connections : ℤ) (s : Server) (e : Event)
    → IsDrifted s
    → seen s < 2 ^ 31 - 1
    → IsDrifted (step max_connections s e) × (seen (step max_connections s e) ≤ suc (seen s))
unfolding step
step-IsDrifted max_connections s arrives h few =
    arrive-IsDrifted (is_over_limit max_connections s.active) s h few
step-IsDrifted max_connections s ends h few = leave-IsDrifted s.serving s refl h few

run_from-IsDrifted :
    (max_connections : ℤ) (s : Server) (es : List Event)
    → IsDrifted s
    → seen s + length es < 2 ^ 31
    → IsDrifted (run_events max_connections s es)
unfolding run_events
run_from-IsDrifted max_connections s [] h few = h
run_from-IsDrifted max_connections s (e ∷ es) h few =
    let (h', more) = step-IsDrifted max_connections s e h (omega arith) in
    run_from-IsDrifted max_connections (step max_connections s e) es h' (omega arith)

-- The bug: after fewer than 2 ^ 31 events the counter is the number of connections that are served
-- less the number of those that were turned away, where it is meant to be the first number.
pub run_events-IsDrifted :
    (max_connections : ℤ) (es : List Event)
    → length es < 2 ^ 31
    → IsDrifted (run_events max_connections new_server es)
run_events-IsDrifted max_connections es few =
    run_from-IsDrifted max_connections new_server es refl (omega arith)

module _ (m : ℕ) (small : m < 2 ^ 31 - 2) where
  abbrev pub at : ℕ → ℕ → ℕ → Server
  at a n r = record { active = pos a; serving = n; rejected = r }

  under : (j : ℕ) → j ≤ m → is_over_limit (pos m) (pos j) ≡ false
  unfolding is_over_limit
  under j h = ground arith

  over : is_over_limit (pos m) (pos (suc m)) ≡ true
  unfolding is_over_limit
  over = ground arith

  fills : (j : ℕ) → j ≤ m → step (pos m) (at j j 0) arrives ≡ at (suc j) (suc j) 0
  unfolding step arrive
  fills j h =
      ap (λ b. arrive b (at j j 0)) (under j h)
      ∙ ap (λ a. record (at j (suc j) 0) { active = a }) (one_more j (omega arith))

  turns_away : (n r : ℕ) → step (pos m) (at (suc m) n r) arrives ≡ at m n (suc r)
  unfolding step arrive
  turns_away n r =
      ap (λ b. arrive b (at (suc m) n r)) over
      ∙ ap (λ a. record (at m n (suc r)) { active = a }) (one_less m (omega arith))

  lets_in : (n r : ℕ) → step (pos m) (at m n r) arrives ≡ at (suc m) (suc n) r
  unfolding step arrive
  lets_in n r =
      ap (λ b. arrive b (at m n r)) (under m (omega arith))
      ∙ ap (λ a. record (at m (suc n) r) { active = a }) (one_more m (omega arith))

  fill_up :
      (k j : ℕ) (es : List Event)
      → j + k ≡ suc m
      → run_events (pos m) (at j j 0) (replicate k arrives ++ es)
        ≡ run_events (pos m) (at (suc m) (suc m) 0) es
  unfolding run_events
  fill_up zero j es h = ap (λ i. run_events (pos m) (at i i 0) es) (omega arith)
  fill_up (suc k) j es h =
      ap (λ s. run_events (pos m) s (replicate k arrives ++ es)) (fills j (omega arith))
      ∙ fill_up k (suc j) es (omega arith)

  same_counts : {a b c d : ℕ} → a ≡ b → c ≡ d → at (suc m) a c ≡ at (suc m) b d
  same_counts e f = rw (e, f) refl

  abbrev pub pairs : ℕ → List Event
  pairs zero = []
  pairs (suc k) = arrives ∷ arrives ∷ pairs k

  alternate :
      (k n r : ℕ) → run_events (pos m) (at (suc m) n r) (pairs k) ≡ at (suc m) (n + k) (r + k)
  unfolding run_events
  alternate zero n r = same_counts (omega arith) (omega arith)
  alternate (suc k) n r =
      ap (λ s. run_events (pos m) (step (pos m) s arrives) (pairs k)) (turns_away n r)
      ∙ ap (λ s. run_events (pos m) s (pairs k)) (lets_in n (suc r))
      ∙ alternate k (suc n) (suc r)
      ∙ same_counts (omega arith) (omega arith)

  -- The bug: with a limit m below 2 ^ 31 - 2, and while no connection ends, of the connections that arrive above the limit of m every
  -- second one is let in, so m + 1 + k of m + 1 + 2 k are served: the limit does not hold.
  pub run_events-unlimited :
      (k : ℕ)
      → run_events (pos m) new_server (replicate (suc m) arrives ++ pairs k)
        ≡ at (suc m) (suc m + k) k
  run_events-unlimited k =
      fill_up (suc m) 0 (pairs k) (omega arith)
      ∙ alternate k (suc m) 0
      ∙ same_counts refl (omega arith)
