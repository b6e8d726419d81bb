-- ===== src/Life/Rounds.antt =====
-- What the loops of `StartNodeHandlers` and `ShutdownNode` leave open.
use goxic.Prelude.{
  ◌≡◌, refl, sym, ap, subst, ◌∙◌, inl, inr, Bool, true, false, not, Bool-cases, List, [], ◌∷◌, ◌++◌,
  append_assoc, append-nil, map,
}
use goxic.Node.Registry.{until_error}
use goxic.Node.Registry.Found.{until_error_cons, until_error_stop}
use goxic.Node.Run.{Peers, close_host, close_store}
use goxic.Node.Setup.{NodeHandler}
use goxic.Node.Shutdown.Order.{handler, host, store, close_part}
use goxic.Life.{Event, made, starts, stops, Doing, perform, shutdown_calls}
use goxic.Life.Opened.{
  Opened, nothing_open, without_head, IsSafe, nothing_open-IsSafe, effect, effect_if, opened,
  Safely, At, At-IsSafe, At-append,
}
use goxic.Life.Assembled.{store_open, store_open-IsSafe}

-- A node whose handlers run.
abbrev pub running : List NodeHandler → Opened
running hs = record { handlers = hs; host = true; store = true }

pub running-IsSafe : (hs : List NodeHandler) → IsSafe (running hs)
running-IsSafe hs = record { on_host = λ n. refl; on_store = λ h. refl }

module _ (peers : Peers) (doing : Doing peers) where
  abbrev pub Round : Type 0
  Round = List (Event peers) × Bool

  -- One round of a loop that ends at an error: the call is made, and has its effect or fails.
  attempt :
      {A : Type 0} (act : A → List (Event peers) → Round) (P : Round → Type 0) (x : A) (xs : List A)
      (e : Event peers) (o o' : Opened) (done : List (Event peers))
      → act x done ≡ perform peers doing e done
      → effect peers e o ≡ o'
      → IsSafe o'
      → At peers doing o done
      → (At peers doing o (done ++ (e ∷ [])) → P (done ++ (e ∷ []), true))
      → (At peers doing o' (done ++ (e ∷ [])) → P (until_error act xs (done ++ (e ∷ []))))
      → P (until_error act (x ∷ xs) done)
  attempt act P x xs e o o' done one opens safe a stop next = elim (Bool-cases (doing done e)) [
    | inl t ↦
        subst P
          (sym (
            until_error_cons act x xs done (done ++ (e ∷ []))
              (one ∙ ap (λ b. (done ++ (e ∷ []), not b)) t)))
          (next (At-append peers doing done e a (ap (λ b. effect_if peers b e o) t ∙ opens) safe))
    | inr f ↦
        subst P
          (sym (
            until_error_stop act x xs done (done ++ (e ∷ []))
              (one ∙ ap (λ b. (done ++ (e ∷ []), not b)) f)))
          (stop (
            At-append peers doing done e a (ap (λ b. effect_if peers b e o) f)
              (At-IsSafe peers doing done a)))
  ]

  -- `StartNodeHandlers`: all run, or the host and the store stay open.
  abbrev pub Started : List NodeHandler → Round → Type 0
  Started hs r =
      Safely peers doing r.0
      × (r.1 ≡ false → opened peers doing r.0 ≡ running hs)
      × (r.1 ≡ true
          → ((opened peers doing r.0).host ≡ true) × ((opened peers doing r.0).store ≡ true))

  pub starts-Started :
      (before hs : List NodeHandler) (done : List (Event peers))
      → At peers doing (running before) done
      → Started (before ++ hs) (until_error (λ h. perform peers doing (starts h)) hs done)
  unfolding until_error
  starts-Started before [] done a =
      (a.0, λ h. a.1 ∙ sym (ap running (append-nil before)), λ h. cc h)
  starts-Started before (h ∷ hs) done a =
      attempt (λ g. perform peers doing (starts g)) (Started (before ++ h ∷ hs)) h hs (starts h)
        (running before) (running (before ++ (h ∷ []))) done refl refl (running-IsSafe _) a
        (λ k. (k.0, λ e. cc e, λ e. (ap (λ o. o.host) k.1, ap (λ o. o.store) k.1)))
        (λ k.
          subst
            (λ all.
              Started all
                (until_error (λ g. perform peers doing (starts g)) hs (done ++ (starts h ∷ []))))
            (append_assoc before (h ∷ []) hs)
            (starts-Started (before ++ (h ∷ [])) hs (done ++ (starts h ∷ [])) k))

  -- `ShutdownNode`: all is closed, or the store at least stays open.
  abbrev pub Shut : Round → Type 0
  Shut r =
      Safely peers doing r.0
      × (r.1 ≡ false → opened peers doing r.0 ≡ nothing_open)
      × (r.1 ≡ true → (opened peers doing r.0).store ≡ true)

  stopped_at :
      (o : Opened) (es : List (Event peers))
      → o.store ≡ true
      → At peers doing o es
      → Shut (es, true)
  stopped_at o es h a = (a.0, λ e. cc e, λ e. ap (λ p. p.store) a.1 ∙ h)

  pub closes-Shut :
      (hs : List NodeHandler) (done : List (Event peers))
      → At peers doing (running hs) done
      → Shut (
          until_error
            (close_part (shutdown_calls peers doing))
            (map handler hs ++ (host ∷ store ∷ []))
            done)
  unfolding until_error
  closes-Shut [] done a =
      attempt (close_part (shutdown_calls peers doing)) Shut host (store ∷ []) (made close_host)
        (running []) store_open done refl refl store_open-IsSafe a (stopped_at (running []) _ refl)
        (λ k.
          attempt (close_part (shutdown_calls peers doing)) Shut store [] (made close_store)
            store_open nothing_open _ refl refl nothing_open-IsSafe k (stopped_at store_open _ refl)
            (λ l. (l.0, λ e. l.1, λ e. cc e)))
  closes-Shut (h ∷ hs) done a =
      attempt (close_part (shutdown_calls peers doing)) Shut (handler h) _ (stops h)
        (running (h ∷ hs)) (running hs) done refl (ap running (without_head h hs))
        (running-IsSafe hs) a (stopped_at (running (h ∷ hs)) _ refl)
        (closes-Shut hs (done ++ (stops h ∷ [])))
