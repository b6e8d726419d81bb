-- ===== src/Node/Shutdown/Order.antt =====
-- The order in which a node is taken down.
use goxic.Prelude.{
  ◌≡◌, refl, sym, ap, ◌∙◌, inl, inr, Bool, true, false, Bool-cases, List, [], ◌∷◌, ◌++◌, Option,
  none, some, if◌then◌else◌, map,
}
use goxic.Node.Registry.{until_error}
use goxic.Node.Shutdown.{
  Closing, Parts, shutdown_store, shutdown_host, stop_node_handlers, shutdown_node,
}

pub data Part (N : Type 0) : Type 0 where
  handler : N → Part N
  host : Part N
  store : Part N

abbrev pub close_part : {N W : Type 0} → Closing N W → Part N → W → W × Bool
close_part c (handler n) w = c.stop n w
close_part c host w = c.close_host w
close_part c store w = c.close_store w

abbrev ends_of : {N : Type 0} → Bool → Bool → List (Part N)
ends_of has_host has_store =
    (if has_host then host ∷ [] else []) ++ (if has_store then store ∷ [] else [])

-- The handlers in the order of their registration, then the host, then the store.
abbrev in_order : {N : Type 0} → Parts N → List (Part N)
in_order parts =
    elim (parts.registry) [ none ↦ [] | some handlers ↦ map handler handlers ]
    ++ ends_of parts.has_host parts.has_store

until_error-append :
    {A W : Type 0} (act : A → W → W × Bool) (xs ys : List A) (w : W)
    → until_error act (xs ++ ys) w ≡ (
        if (until_error act xs w).1
        then ((until_error act xs w).0, true)
        else until_error act ys (until_error act xs w).0)
unfolding until_error
until_error-append act [] ys w = refl
until_error-append act (x ∷ xs) ys w = elim (Bool-cases ((act x w).1)) [
  | inl e ↦ rw e
  | inr e ↦ rw e (until_error-append act xs ys ((act x w).0))
]

until_error-map :
    {N W : Type 0} (c : Closing N W) (ns : List N) (w : W)
    → until_error (close_part c) (map handler ns) w ≡ until_error c.stop ns w
unfolding until_error
until_error-map c [] w = refl
until_error-map c (n ∷ ns) w =
    ap (λ r. if (c.stop n w).1 then ((c.stop n w).0, true) else r)
      (until_error-map c ns ((c.stop n w).0))

outcome_eta :
    {W : Type 0} (w : W) (failed : Bool)
    → ◌≡◌ {A = W × Bool} (if failed then (w, true) else (w, false)) (w, failed)
outcome_eta w true = refl
outcome_eta w false = refl

module _ {N W : Type 0} (c : Closing N W) where
  ends-shutdown :
      (has_host has_store : Bool) (w : W)
      → until_error (close_part c) (ends_of has_host has_store) w
        ≡ shutdown_host c has_host has_store w
  unfolding until_error shutdown_host shutdown_store
  ends-shutdown false false w = refl
  ends-shutdown false true w = outcome_eta ((c.close_store w).0) ((c.close_store w).1)
  ends-shutdown true false w = refl
  ends-shutdown true true w =
      let (v, failed) = c.close_host w in
      ap (λ r. if failed then (v, true) else r)
        (outcome_eta ((c.close_store v).0) ((c.close_store v).1))

  abbrev parts_of : Option (List N) → Bool → Bool → Parts N
  parts_of registry has_host has_store = record {
    registry = registry;
    has_host = has_host;
    has_store = has_store;
  }

  shutdown_parts :
      (registry : Option (List N)) (has_host has_store : Bool) (w : W)
      → until_error (close_part c) (in_order (parts_of registry has_host has_store)) w
        ≡ shutdown_node c (parts_of registry has_host has_store) w
  unfolding shutdown_node stop_node_handlers
  shutdown_parts none has_host has_store w = ends-shutdown has_host has_store w
  shutdown_parts (some ns) has_host has_store w =
      let stopped = until_error c.stop ns w in
      until_error-append (close_part c) (map handler ns) (ends_of has_host has_store) w
      ∙ ap
          (λ r.
            if r.1
            then (r.0, true)
            else until_error (close_part c) (ends_of has_host has_store) (r.0))
          (until_error-map c ns w)
      ∙ ap (λ r. if stopped.1 then (stopped.0, true) else r)
          (ends-shutdown has_host has_store (stopped.0))

  -- `ShutdownNode` closes the handlers in the order of their registration, then the host, then the
  -- store, each if it is there, and ends at the first error: what stands behind it stays open.
  pub shutdown_node_lem :
      (parts : Parts N) (w : W)
      → shutdown_node c parts w ≡ until_error (close_part c) (in_order parts) w
  shutdown_node_lem parts w = sym (shutdown_parts parts.registry parts.has_host parts.has_store w)
