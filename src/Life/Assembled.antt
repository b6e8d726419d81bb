-- ===== src/Life/Assembled.antt =====
-- What `Run` leaves open.
use goxic.Prelude.{
  ◌≡◌, refl, sym, ap, subst, ◌∙◌, Bool, true, false, List, [], ◌∷◌, ◌++◌, Option, none, some, map,
}
use mathlib.Core.List.{map-append}
use goxic.Config.Record.{Config}
use goxic.Node.Run.{
  Peers, Call, generate_key, load_key, new_datastore, new_auto_relay, Ended, runs, fails, panics,
  Ran, go_on, checked, must, tried, tried_if, str2_peers, after_dials, dial_all, after_host,
  after_parse, run,
}
use goxic.Life.{Event, made, Doing, run_env}
use goxic.Life.Opened.{
  Opened, nothing_open, IsSafe, nothing_open-IsSafe, effect, effect_if, Safely, opened, At, At-nil,
  At-IsSafe, At-append,
}

abbrev pub store_open : Opened
store_open = record { handlers = []; host = false; store = true }

abbrev pub node_open : Opened
node_open = record { handlers = []; host = true; store = true }

pub store_open-IsSafe : IsSafe store_open
store_open-IsSafe = record { on_host = λ n. absurd (n refl); on_store = λ h. refl }

node_open-IsSafe : IsSafe node_open
node_open-IsSafe = record { on_host = λ n. refl; on_store = λ h. refl }

module _ (peers : Peers) (doing : Doing peers) where
  abbrev events : List (Call peers) → List (Event peers)
  events = map made

  abbrev Assembles : Ran peers → Type 0
  Assembles r =
      Safely peers doing (events r.0) × (r.1 ≡ runs → opened peers doing (events r.0) ≡ node_open)

  abbrev Good : Opened → (List (Call peers) → Ran peers) → Type 0
  Good o f = (done : List (Call peers)) → At peers doing o (events done) → Assembles (f done)

  made_append :
      (o : Opened) (done : List (Call peers)) (call : Call peers)
      → At peers doing o (events done ++ (made call ∷ []))
      → At peers doing o (events (done ++ (call ∷ [])))
  made_append o done call = subst (At peers doing o) (sym (map-append made done (call ∷ [])))

  module _ (o o' : Opened) (call : Call peers) (rest : List (Call peers) → Ran peers)
      (opens : effect peers (made call) o ≡ o') (safe : IsSafe o') (good : Good o' rest) where
    go_on-Good :
        (ended : Ended peers) (done : List (Call peers)) (b : Bool)
        → (ended ≡ runs → ⊥)
        → At peers doing o (events done)
        → run_env peers doing done call ≡ b
        → Assembles (go_on peers b rest ended (done ++ (call ∷ [])))
    go_on-Good ended done true n a e = good (done ++ (call ∷ [])) (
        made_append o' done call (
          At-append peers doing (events done) (made call) a
            (ap (λ b. effect_if peers b (made call) o) e ∙ opens) safe))
    go_on-Good ended done false n a e =
        let kept = made_append o done call (
          At-append peers doing (events done) (made call) a
            (ap (λ b. effect_if peers b (made call) o) e)
            (At-IsSafe peers doing (events done) a)) in
        (kept.0, λ h. absurd (n h))

    checked-Good : Good o (checked peers (run_env peers doing) call rest)
    checked-Good done a = go_on-Good fails done (run_env peers doing done call) (λ h. cc h) a refl

    must-Good : Good o (must peers (run_env peers doing) call rest)
    must-Good done a = go_on-Good panics done (run_env peers doing done call) (λ h. cc h) a refl

  effect_if_idle :
      (o : Opened) (call : Call peers) (b : Bool)
      → effect peers (made call) o ≡ o
      → effect_if peers b (made call) o ≡ o
  effect_if_idle o call true h = h
  effect_if_idle o call false h = refl

  -- A call whose success does not matter opens nothing.
  tried-Good :
      {o : Opened} (call : Call peers) (rest : List (Call peers) → Ran peers)
      → effect peers (made call) o ≡ o
      → Good o rest
      → Good o (tried peers call rest)
  tried-Good {o} call rest idle good done a = good (done ++ (call ∷ [])) (
      made_append o done call (
        At-append peers doing (events done) (made call) a
          (effect_if_idle o call (doing (events done) (made call)) idle)
          (At-IsSafe peers doing (events done) a)))

  tried_if-Good :
      (test : Bool) (rest : List (Call peers) → Ran peers)
      → Good node_open rest
      → Good node_open (tried_if peers test new_auto_relay rest)
  tried_if-Good true rest good = tried-Good new_auto_relay rest refl good
  tried_if-Good false rest good = good

  -- With the node's host and store open.
  running-Good :
      (call : Call peers) (rest : List (Call peers) → Ran peers)
      → effect peers (made call) node_open ≡ node_open
      → Good node_open rest
      → Good node_open (checked peers (run_env peers doing) call rest)
  running-Good call rest idle good =
      checked-Good node_open node_open call rest idle node_open-IsSafe good

  module _ (c : Config) where
    after_dials-Good : Good node_open (after_dials peers (run_env peers doing) c)
    unfolding after_dials
    after_dials-Good =
        tried-Good _ _ refl
          (running-Good _ _ refl (running-Good _ _ refl (λ done a. (a.0, λ h. a.1))))

    dial_all-Good :
        (infos : List peers.AddrInfo)
        → Good node_open (dial_all peers (run_env peers doing) c infos)
    unfolding dial_all
    dial_all-Good [] = after_dials-Good
    dial_all-Good (info ∷ infos) = tried-Good _ _ refl (dial_all-Good infos)

    after_parse-Good :
        (parsed : Option (List peers.AddrInfo))
        → Good store_open (after_parse peers (run_env peers doing) c parsed)
    unfolding after_parse after_host
    after_parse-Good none done a = (a.0, λ h. cc h)
    after_parse-Good (some infos) done a =
        must-Good store_open store_open _ _ refl store_open-IsSafe
          (checked-Good store_open node_open _ _ refl node_open-IsSafe (
            tried_if-Good c.network.enable_auto_relay _
              (running-Good _ _ refl (dial_all-Good infos))))
          done a

    -- `Run` never has its host open without its store, and a node that it returns has both open.
    pub run-Assembles : Assembles (run peers (run_env peers doing) c)
    unfolding run
    run-Assembles =
        must-Good nothing_open nothing_open generate_key _ refl nothing_open-IsSafe
          (checked-Good nothing_open nothing_open load_key _ refl nothing_open-IsSafe (
            tried-Good _ _ refl (
              checked-Good nothing_open store_open new_datastore _ refl store_open-IsSafe (
                checked-Good store_open store_open _ _ refl store_open-IsSafe
                  (after_parse-Good (str2_peers peers c.network.boostrap_nodes))))))
          [] (At-nil peers doing)
