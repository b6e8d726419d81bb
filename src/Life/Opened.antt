-- ===== src/Life/Opened.antt =====
-- What of a node is open after some calls, and how it depends on one another.
use goxic.Prelude.{
  ◌≡◌, ◌≢◌, refl, sym, ap, subst, ◌∙◌, Bool, true, false, List, [], ◌∷◌, ◌++◌, append_assoc,
  append-nil, if◌then◌else◌,
}
use goxic.Node.Run.{Peers, Call, new_datastore, new_host, close_host, close_store}
use goxic.Node.Setup.{NodeHandler, socks5_handler, server_discovery}
use goxic.Life.{Event, made, serves, starts, stops, cancels, Doing}

-- The handlers that run, and whether the host and the store are open.
pub record Opened : Type 0 where
  pub handlers : List NodeHandler
  pub host : Bool
  pub store : Bool

abbrev pub nothing_open : Opened
nothing_open = record { handlers = []; host = false; store = false }

abbrev same_handler : NodeHandler → NodeHandler → Bool
same_handler socks5_handler socks5_handler = true
same_handler server_discovery server_discovery = true
same_handler socks5_handler server_discovery = false
same_handler server_discovery socks5_handler = false

abbrev without : NodeHandler → List NodeHandler → List NodeHandler
without h [] = []
without h (g ∷ gs) = if same_handler h g then gs else g ∷ without h gs

pub without_head : (h : NodeHandler) (hs : List NodeHandler) → without h (h ∷ hs) ≡ hs
without_head socks5_handler hs = refl
without_head server_discovery hs = refl

-- A handler runs only on an open host, and the host is open only on an open store.
pub record IsSafe (o : Opened) : Type 0 where
  pub on_host : o.handlers ≢ [] → o.host ≡ true
  pub on_store : o.host ≡ true → o.store ≡ true

pub nothing_open-IsSafe : IsSafe nothing_open
nothing_open-IsSafe = record { on_host = λ n. absurd (n refl); on_store = λ h. cc h }

module _ (peers : Peers) where
  abbrev of_call : Call peers → Opened → Opened
  of_call new_datastore o = record o { store = true }
  of_call (new_host addrs punching timeout) o = record o { host = true }
  of_call close_host o = record o { host = false }
  of_call close_store o = record o { store = false }
  of_call other o = o

  -- What a call that succeeds opens or closes.
  abbrev pub effect : Event peers → Opened → Opened
  effect (made call) o = of_call call o
  effect (serves streams) o = o
  effect (starts h) o = record o { handlers = o.handlers ++ (h ∷ []) }
  effect (stops h) o = record o { handlers = without h o.handlers }
  effect cancels o = o

  abbrev pub effect_if : Bool → Event peers → Opened → Opened
  effect_if b e o = if b then effect e o else o

  module _ (doing : Doing peers) where
    -- What is open behind these calls, which come after those that are done.
    pub opened_from : List (Event peers) → Opened → List (Event peers) → Opened
    opened_from done o [] = o
    opened_from done o (e ∷ es) = opened_from (done ++ (e ∷ [])) (effect_if (doing done e) e o) es

    abbrev pub opened : List (Event peers) → Opened
    opened es = opened_from [] nothing_open es

    opened_from-append :
        (done : List (Event peers)) (o : Opened) (es : List (Event peers)) (e : Event peers)
        → opened_from done o (es ++ (e ∷ []))
          ≡ effect_if (doing (done ++ es) e) e (opened_from done o es)
    unfolding opened_from
    opened_from-append done o [] e = ap (λ d. effect_if (doing d e) e o) (sym (append-nil done))
    opened_from-append done o (x ∷ es) e =
        opened_from-append (done ++ (x ∷ [])) (effect_if (doing done x) x o) es e
        ∙ ap
            (λ d.
              effect_if (doing d e) e
                (opened_from (done ++ (x ∷ [])) (effect_if (doing done x) x o) es))
            (append_assoc done (x ∷ []) es)

    opened-append :
        (es : List (Event peers)) (e : Event peers)
        → opened (es ++ (e ∷ [])) ≡ effect_if (doing es e) e (opened es)
    opened-append es e = opened_from-append [] nothing_open es e

    -- Behind each of these calls nothing was closed under what stands on it.
    abbrev SafelyFrom : List (Event peers) → Opened → List (Event peers) → Type 0
    SafelyFrom done o [] = IsSafe o
    SafelyFrom done o (e ∷ es) =
        IsSafe o × SafelyFrom (done ++ (e ∷ [])) (effect_if (doing done e) e o) es

    abbrev pub Safely : List (Event peers) → Type 0
    Safely es = SafelyFrom [] nothing_open es

    SafelyFrom-append :
        (done : List (Event peers)) (o : Opened) (es : List (Event peers)) (e : Event peers)
        → SafelyFrom done o es
        → IsSafe (opened_from done o (es ++ (e ∷ [])))
        → SafelyFrom done o (es ++ (e ∷ []))
    unfolding opened_from
    SafelyFrom-append done o [] e h i = (h, i)
    SafelyFrom-append done o (x ∷ es) e h i =
        (h.0, SafelyFrom-append (done ++ (x ∷ [])) (effect_if (doing done x) x o) es e h.1 i)

    Safely-append :
        (es : List (Event peers)) (e : Event peers)
        → Safely es
        → IsSafe (opened (es ++ (e ∷ [])))
        → Safely (es ++ (e ∷ []))
    Safely-append es e h i = SafelyFrom-append [] nothing_open es e h i

    SafelyFrom-prefix :
        (done : List (Event peers)) (o : Opened) (xs ys : List (Event peers))
        → SafelyFrom done o (xs ++ ys)
        → IsSafe (opened_from done o xs)
    unfolding opened_from
    SafelyFrom-prefix done o [] [] h = h
    SafelyFrom-prefix done o [] (y ∷ ys) h = h.0
    SafelyFrom-prefix done o (x ∷ xs) ys h =
        SafelyFrom-prefix (done ++ (x ∷ [])) (effect_if (doing done x) x o) xs ys h.1

    pub Safely-prefix : (xs ys : List (Event peers)) → Safely (xs ++ ys) → IsSafe (opened xs)
    Safely-prefix xs ys h = SafelyFrom-prefix [] nothing_open xs ys h

    -- These calls leave this open.
    abbrev pub At : Opened → List (Event peers) → Type 0
    At o es = Safely es × (opened es ≡ o)

    pub At-nil : At nothing_open []
    unfolding opened_from
    At-nil = (nothing_open-IsSafe, refl)

    pub At-IsSafe : {o : Opened} (es : List (Event peers)) → At o es → IsSafe o
    At-IsSafe {o} es (s, e) =
        subst IsSafe e (Safely-prefix es [] (subst Safely (sym (append-nil es)) s))

    pub At-append :
        {o o' : Opened} (es : List (Event peers)) (e : Event peers)
        → At o es
        → effect_if (doing es e) e o ≡ o'
        → IsSafe o'
        → At o' (es ++ (e ∷ []))
    At-append es e (s, p) q i =
        let all = opened-append es e ∙ ap (effect_if (doing es e) e) p ∙ q in
        (Safely-append es e s (subst IsSafe (sym all) i), all)
