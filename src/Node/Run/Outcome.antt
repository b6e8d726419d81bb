-- ===== src/Node/Run/Outcome.antt =====
-- How `Run` ends, and what it leaves open.
use goxic.Prelude.{
  ◌≡◌, ◌≢◌, ◌⊎◌, inl, inr, refl, Bool, true, false, List, [], ◌∷◌, ◌++◌, Option, none, some, All,
  All-append, Elem,
}
use goxic.Config.Record.{Config}
use goxic.Node.Run.{
  Peers, Call, generate_key, load_key, new_conn_manager, new_datastore, new_peerstore,
  new_auto_relay, dial_bootstrap, advertise, close_host, close_store, Environment, Ended, runs,
  fails, panics, Ran, go_on, checked, must, tried, tried_if, str2_peers, after_dials, dial_all,
  after_host, after_parse, run,
}

module _ {A : Type 0} where
  pub Elem-append_left : (a : A) (xs ys : List A) → Elem a xs → Elem a (xs ++ ys)
  Elem-append_left a [] ys h = elim h [ ]
  Elem-append_left a (x ∷ xs) ys (inl e) = inl e
  Elem-append_left a (x ∷ xs) ys (inr h) = inr (Elem-append_left a xs ys h)

  pub Elem-append_right : (a : A) (xs ys : List A) → Elem a ys → Elem a (xs ++ ys)
  Elem-append_right a [] ys h = h
  Elem-append_right a (x ∷ xs) ys h = inr (Elem-append_right a xs ys h)

module _ (peers : Peers) where
  -- The calls whose error is not only logged or overwritten.
  abbrev is_checked : Call peers → Bool
  is_checked (new_conn_manager low high) = false
  is_checked new_auto_relay = false
  is_checked (dial_bootstrap info) = false
  is_checked (advertise name) = false
  is_checked other = true

  abbrev IsOpening : Call peers → Type 0
  IsOpening call = (call ≢ close_host) × (call ≢ close_store)

  -- A list of calls in which every call that is checked has succeeded.
  pub data Made (env : Environment peers) : List (Call peers) → Type 0 where
    nothing : Made env []
    after :
        {done all : List (Call peers)}
        → Made env done
        → (call : Call peers) → all ≡ done ++ (call ∷ [])
        → (is_checked call ≡ true → env done call ≡ true)
        → Made env all

  -- Nothing was closed, and the store is open.
  abbrev Unclosed : Environment peers → List (Call peers) → Type 0
  Unclosed env done = Made env done × All IsOpening done

  abbrev pub Opened : Environment peers → List (Call peers) → Type 0
  Opened env done = Unclosed env done × Elem new_datastore done

  -- The store's opening is among the calls before this one, if it is not the one or the key's.
  abbrev IsPast : List (Call peers) → Call peers → Type 0
  IsPast before call = (call ≡ load_key) ⊎ ((call ≡ new_datastore) ⊎ Elem new_datastore before)

  abbrev pub Ends : Environment peers → Ran peers → Type 0
  Ends env r =
      (r.1 ≡ runs → Opened env r.0)
      × (r.1 ≡ fails
          → (before : List (Call peers)) × (call : Call peers) × (r.0 ≡ before ++ (call ∷ []))
            × (env before call ≡ false)
            × Unclosed env before
            × IsPast before call)
      × (r.1 ≡ panics
          → All IsOpening r.0
            × (((r.0 ≡ generate_key ∷ []) × (env [] generate_key ≡ false))
                ⊎ Elem new_datastore r.0))

  abbrev Good :
      Environment peers → (List (Call peers) → Type 0) → (List (Call peers) → Ran peers) → Type 0
  Good env P f = (done : List (Call peers)) → P done → Ends env (f done)

  module _ (env : Environment peers) (P Q : List (Call peers) → Type 0) (call : Call peers)
      (rest : List (Call peers) → Ran peers) (good : Good env Q rest) where
    go_on-Ends :
        (done : List (Call peers)) (b : Bool) (ended : Ended peers)
        → (env done call ≡ true → Q (done ++ (call ∷ [])))
        → (env done call ≡ false → Ends env (done ++ (call ∷ []), ended))
        → env done call ≡ b
        → Ends env (go_on peers b rest ended (done ++ (call ∷ [])))
    go_on-Ends done true ended step stop e = good (done ++ (call ∷ [])) (step e)
    go_on-Ends done false ended step stop e = stop e

    tried-Good :
        ((done : List (Call peers)) → P done → Q (done ++ (call ∷ [])))
        → Good env P (tried peers call rest)
    tried-Good step done p = good (done ++ (call ∷ [])) (step done p)

    checked-Good :
        ((done : List (Call peers)) → P done → env done call ≡ true → Q (done ++ (call ∷ [])))
        → ((done : List (Call peers)) → P done → Unclosed env done × IsPast done call)
        → Good env P (checked peers env call rest)
    checked-Good step left done p =
        go_on-Ends done (env done call) fails (step done p)
          (λ e.
            let (u, q) = left done p in
            ((λ h. cc h), (λ h. (done, call, refl, e, u, q)), (λ h. cc h)))
          refl

  module _ (env : Environment peers) where
    Unclosed-append :
        (call : Call peers)
        → IsOpening call
        → (done : List (Call peers)) → Unclosed env done
        → (is_checked call ≡ true → env done call ≡ true)
        → Unclosed env (done ++ (call ∷ []))
    Unclosed-append call o done (m, u) e =
        (after m call refl e, All-append IsOpening done (call ∷ []) u (o, _))

    Opened-append :
        (call : Call peers)
        → IsOpening call
        → (done : List (Call peers)) → Opened env done
        → (is_checked call ≡ true → env done call ≡ true)
        → Opened env (done ++ (call ∷ []))
    Opened-append call o done (u, e) c =
        (Unclosed-append call o done u c, Elem-append_left new_datastore done (call ∷ []) e)

    opens :
        {call : Call peers} {rest : List (Call peers) → Ran peers}
        → IsOpening call
        → Good env (Opened env) rest
        → Good env (Opened env) (checked peers env call rest)
    opens {call} {rest} o good =
        checked-Good env (Opened env) (Opened env) call rest good
          (λ done p e. Opened-append call o done p (λ c. e)) (λ done (u, e). (u, inr (inr e)))

    logs :
        {call : Call peers} {rest : List (Call peers) → Ran peers}
        → IsOpening call
        → is_checked call ≡ false
        → Good env (Opened env) rest
        → Good env (Opened env) (tried peers call rest)
    logs {call} {rest} o n good =
        tried-Good env (Opened env) (Opened env) call rest good
          (λ done p. Opened-append call o done p (λ c. cc (n, c)))

    must-Good :
        {call : Call peers} {rest : List (Call peers) → Ran peers}
        → IsOpening call
        → Good env (Opened env) rest
        → Good env (Opened env) (must peers env call rest)
    must-Good {call} {rest} o good done p =
        go_on-Ends env (Opened env) (Opened env) call rest good done (env done call) panics
          (λ e. Opened-append call o done p (λ c. e))
          (λ e. (
            (λ h. cc h),
            (λ h. cc h),
            (λ h. (
              All-append IsOpening done (call ∷ []) p.0.1 (o, _),
              inr (Elem-append_left new_datastore done (call ∷ []) p.1),
            )),
          ))
          refl

  module _ (env : Environment peers) (c : Config) where
    after_dials-Good : Good env (Opened env) (after_dials peers env c)
    unfolding after_dials
    after_dials-Good =
        logs env ((λ e. cc e), (λ e. cc e)) refl
          (opens env ((λ e. cc e), (λ e. cc e))
            (opens env ((λ e. cc e), (λ e. cc e)) (λ done p. ((λ h. p), (λ h. cc h), (λ h. cc h)))))

    dial_all-Good :
        (infos : List peers.AddrInfo) → Good env (Opened env) (dial_all peers env c infos)
    unfolding dial_all
    dial_all-Good [] = after_dials-Good
    dial_all-Good (info ∷ infos) = logs env ((λ e. cc e), (λ e. cc e)) refl (dial_all-Good infos)

    tried_if-Good :
        (test : Bool) (rest : List (Call peers) → Ran peers)
        → Good env (Opened env) rest
        → Good env (Opened env) (tried_if peers test new_auto_relay rest)
    tried_if-Good true rest good = logs env ((λ e. cc e), (λ e. cc e)) refl good
    tried_if-Good false rest good = good

    after_host-Good :
        (infos : List peers.AddrInfo) → Good env (Opened env) (after_host peers env c infos)
    unfolding after_host
    after_host-Good infos =
        tried_if-Good c.network.enable_auto_relay _
          (opens env ((λ e. cc e), (λ e. cc e)) (dial_all-Good infos))

    after_parse-Good :
        (parsed : Option (List peers.AddrInfo))
        → Good env (Opened env) (after_parse peers env c parsed)
    unfolding after_parse
    after_parse-Good none done p = ((λ h. cc h), (λ h. cc h), (λ h. (p.0.1, inr p.1)))
    after_parse-Good (some infos) done p =
        must-Good env ((λ e. cc e), (λ e. cc e))
          (opens env ((λ e. cc e), (λ e. cc e)) (after_host-Good infos)) done p

    with_key : List (Call peers) → Ran peers
    with_key = checked peers env load_key (
        tried peers (new_conn_manager c.network.min_connections c.network.max_connections) (
          checked peers env new_datastore (
            checked peers env new_peerstore
              (after_parse peers env c (str2_peers peers c.network.boostrap_nodes)))))

    with_key-Good : Good env (Unclosed env) with_key
    unfolding with_key
    with_key-Good =
        checked-Good env (Unclosed env) (Unclosed env) load_key _
          (tried-Good env (Unclosed env) (Unclosed env) _ _
            (checked-Good env (Unclosed env) (Opened env) new_datastore _
              (opens env ((λ e. cc e), (λ e. cc e))
                (after_parse-Good (str2_peers peers c.network.boostrap_nodes)))
              (λ done p e. (
                Unclosed-append env new_datastore ((λ f. cc f), (λ f. cc f)) done p (λ f. e),
                Elem-append_right new_datastore done (new_datastore ∷ []) (inl refl),
              ))
              (λ done p. (p, inr (inl refl))))
            (λ done p. Unclosed-append env _ ((λ e. cc e), (λ e. cc e)) done p (λ e. cc e)))
          (λ done p e. Unclosed-append env load_key ((λ f. cc f), (λ f. cc f)) done p (λ f. e))
          (λ done p. (p, inl refl))

    -- `Run` in every environment. Where it returns a node, every call whose error it looks at has
    -- succeeded. Where it returns an error, that comes from the last call, and the checked calls
    -- before it have succeeded; unless the call is that of the key or of the store, the store was
    -- opened before it. Where it panics, either `FetchPrivKey` had to generate a key and got none,
    -- and nothing else was called, or the store was opened. In each case no call before the last one
    -- closes the host or the store.
    pub run-Ends : Ends env (run peers env c)
    unfolding run with_key
    run-Ends =
        go_on-Ends env (Unclosed env) (Unclosed env) generate_key with_key with_key-Good []
          (env [] generate_key) panics
          (λ e.
            Unclosed-append env generate_key ((λ f. cc f), (λ f. cc f)) [] (nothing, _) (λ f. e))
          (λ e. ((λ h. cc h), (λ h. cc h), (λ h. ((((λ f. cc f), (λ f. cc f)), _), inl (refl, e)))))
          refl
