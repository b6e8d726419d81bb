-- ===== src/Node/Registry/Found.antt =====
-- What `GetStreamHandler` finds, and where the loops of `StartNodeHandlers` and `StopNodeHandlers`
-- end.
use goxic.Prelude.{
  ◌≡◌, ◌⊎◌, refl, sym, ap, ◌∙◌, inl, inr, Bool, true, false, Bool-cases, List, [], ◌∷◌, ◌++◌, some,
  Option-cases, Bytes, text_eq, arith, Elem, if◌then◌else◌,
}
use goxic.Prelude.Dict.{lookup}
use goxic.Node.Registry.{Pattern, Registry, by_pattern, get_stream_handler, until_error}

-- A loop that fails has done all before some element without an error, then failed on that one, and
-- did not go on to those behind it.
pub record FailsAt {A W : Type 0} (act : A → W → W × Bool) (xs : List A) (w w' : W) : Type 0 where
  pub before : List A
  failing : A
  pub after : List A
  pub reached : W
  pub order : xs ≡ before ++ (failing ∷ after)
  pub done : until_error act before w ≡ (reached, false)
  pub fails : act failing reached ≡ (w', true)

pub until_error_cons :
    {A W : Type 0} (act : A → W → W × Bool) (x : A) (xs : List A) (w v : W)
    → act x w ≡ (v, false)
    → until_error act (x ∷ xs) w ≡ until_error act xs v
unfolding until_error
until_error_cons act x xs w v h = rw h refl

pub until_error_stop :
    {A W : Type 0} (act : A → W → W × Bool) (x : A) (xs : List A) (w v : W)
    → act x w ≡ (v, true)
    → until_error act (x ∷ xs) w ≡ (v, true)
unfolding until_error
until_error_stop act x xs w v h = rw h refl

pub until_error-FailsAt :
    {A W : Type 0} (act : A → W → W × Bool) (xs : List A) (w w' : W)
    → until_error act xs w ≡ (w', true)
    → FailsAt act xs w w'
unfolding until_error
until_error-FailsAt act [] w w' h = cc
until_error-FailsAt act (x ∷ xs) w w' h = elim (Bool-cases ((act x w).1)) [
  | inl e ↦ record {
    before = [];
    failing = x;
    after = xs;
    reached = w;
    order = refl;
    done = refl;
    fails =
        ap (λ b. ((act x w).0, b)) e
        ∙ sym (ap (λ b. if b then ((act x w).0, true) else until_error act xs (act x w).0) e)
        ∙ h;
  }
  | inr e ↦
      let v = (act x w).0 in
      let one : act x w ≡ (v, false) = ap (λ b. ((act x w).0, b)) e in
      let rest = until_error-FailsAt act xs v w' (sym (until_error_cons act x xs w v one) ∙ h) in
      record {
        before = x ∷ rest.before;
        failing = rest.failing;
        after = rest.after;
        reached = rest.reached;
        order = ap (λ l. x ∷ l) rest.order;
        done = until_error_cons act x rest.before w v one ∙ rest.done;
        fails = rest.fails;
      }
]

-- A handler that is registered for a name, or for a pattern that matches it.
abbrev IsFor : {H N : Type 0} → Registry H N → List (Bytes × Pattern) → Bytes → H → Type 0
IsFor r order name h =
    (lookup text_eq name r.stream_handlers ≡ some h)
    ⊎ ((p : Bytes × Pattern) × Elem p order
        × (p.1 name ≡ true)
        × (lookup text_eq p.0 r.stream_handlers ≡ some h))

by_pattern_found :
    {H : Type 0} (handlers : List (Bytes × H)) (name : Bytes) (ps : List (Bytes × Pattern)) (h : H)
    → by_pattern handlers name ps ≡ some h
    → (p : Bytes × Pattern) × Elem p ps × (p.1 name ≡ true) × (lookup text_eq p.0 handlers ≡ some h)
unfolding by_pattern
by_pattern_found handlers name [] h e = cc
by_pattern_found handlers name ((pat, regex) ∷ ps) h e = elim (Bool-cases (regex name)) [
  | inl m ↦ elim (Option-cases (lookup text_eq pat handlers)) [
    | inr (k, l) ↦ ((pat, regex), inl refl, m, l ∙ ground (arith, e, m, l))
    | inl l ↦
        let (p, at, q, f) = by_pattern_found handlers name ps h (ground (arith, e, m, l)) in
        (p, inr at, q, f)
  ]
  | inr m ↦
      let (p, at, q, f) = by_pattern_found handlers name ps h (ground (arith, e, m)) in
      (p, inr at, q, f)
]

-- Whatever the order of the patterns, the handler that is found is registered under the protocol's
-- own name, or under a pattern that matches the protocol.
get_stream_handler-IsFor :
    {H N : Type 0} (r : Registry H N) (order : List (Bytes × Pattern)) (name : Bytes) (h : H)
    → get_stream_handler r order name ≡ some h
    → IsFor r order name h
unfolding get_stream_handler
get_stream_handler-IsFor r order name h e =
    elim (Option-cases (lookup text_eq name r.stream_handlers)) [
      | inr (k, l) ↦ inl (ground (arith, e, l))
      | inl l ↦ inr (by_pattern_found r.stream_handlers name order h (ground (arith, e, l)))
    ]

-- What every step of a loop keeps, the loop keeps, wherever it ends.
pub until_error-keeps :
    {A W : Type 0} (act : A → W → W × Bool) (K : W → Type 0)
    → ((a : A) (w : W) → K w → K (act a w).0)
    → (xs : List A) (w : W) → K w
    → K (until_error act xs w).0
unfolding until_error
until_error-keeps act K step [] w k = k
until_error-keeps act K step (a ∷ xs) w k =
    let (w', failed) = act a w in
    let later = until_error-keeps act K step xs w' (step a w k) in
    elim (Bool-cases failed) [ inl e ↦ rw e (step a w k) | inr e ↦ rw e later ]
