-- ===== src/Node/Setup/Wiring.antt =====
-- Which handlers a node gets by its configuration.
use goxic.Prelude.{
  ◌≡◌, ◌↔◌, ◌⊎◌, ◌++◌, refl, sym, ◌∙◌, ap, Bool, true, false, Bool-cases, inl, inr, List, [], ◌∷◌,
  Option, none, some, Bytes, text_eq, if◌then◌else◌, arith, Option-cases,
}
use goxic.Prelude.Int.{pos, ltb_ℤ}
use goxic.Prelude.Dict.{insert}
use goxic.Relay.Protocol.{SubMatches, find_submatch, protocol_match}
use goxic.Relay.Protocol.Language.{Matches, find_submatch_iff}
use goxic.Config.Record.{
  Config, client_mode, server_mode, bootstrap_mode, is_server_mode, is_bootstrap_mode,
}
use goxic.Config.Load.Usable.{IsUsable}
use goxic.Node.Registry.{
  Pattern, new_registry, put_pattern, register_stream_handler, register_node_handler,
}
use goxic.Node.Setup.{
  StreamHandler, relay_handler, NodeHandler, socks5_handler, server_discovery, protocol, Handlers,
  node_type, register_relay, register_if, setup_client_handlers, setup_server_handlers,
  setup_handlers, accepts,
}

module _ (compile : Bytes → Option Pattern) where
  put_pattern_kept :
      (name : Bytes) (p : Option Pattern) (r : Handlers)
      → ((put_pattern protocol compile name p r).0.node_handlers ≡ r.node_handlers)
        × ((put_pattern protocol compile name p r).0.stream_handlers ≡ r.stream_handlers)
  unfolding put_pattern
  put_pattern_kept name none r = (refl, refl)
  put_pattern_kept name (some p) r = (refl, refl)

  register_relay-node_handlers :
      (enabled : Bool) (r : Handlers)
      → (register_relay compile enabled r).node_handlers ≡ r.node_handlers
  unfolding register_relay register_stream_handler
  register_relay-node_handlers false r = refl
  register_relay-node_handlers true r = (put_pattern_kept _ _ _).0

  -- A configuration's mode decides what is registered.
  setup_client :
      (c : Config)
      → c.mode ≡ client_mode
      → setup_handlers compile c (node_type c) ≡ setup_client_handlers compile c new_registry
  unfolding setup_handlers node_type is_bootstrap_mode is_server_mode text_eq
  setup_client c h = rw h refl

  setup_server :
      (c : Config)
      → c.mode ≡ server_mode
      → setup_handlers compile c (node_type c) ≡ setup_server_handlers compile c new_registry
  unfolding setup_handlers node_type is_bootstrap_mode is_server_mode text_eq
  setup_server c h = rw h refl

  setup_bootstrap :
      (c : Config) → c.mode ≡ bootstrap_mode → setup_handlers compile c (node_type c) ≡ new_registry
  unfolding setup_handlers node_type is_bootstrap_mode is_server_mode text_eq
  setup_bootstrap c h = rw h refl

  register_if-node_handlers :
      (test : Bool) (h : NodeHandler) (r : Handlers)
      → (register_if compile test h r).node_handlers
        ≡ (if test then r.node_handlers ++ (h ∷ []) else r.node_handlers)
  unfolding register_if register_node_handler
  register_if-node_handlers true h r = refl
  register_if-node_handlers false h r = refl

  register_if-stream_handlers :
      (test : Bool) (h : NodeHandler) (r : Handlers)
      → (register_if compile test h r).stream_handlers ≡ r.stream_handlers
  unfolding register_if register_node_handler
  register_if-stream_handlers true h r = refl
  register_if-stream_handlers false h r = refl

  client_handlers :
      (c : Config)
      → (setup_client_handlers compile c new_registry).node_handlers
        ≡ (if c.socks5.enabled then socks5_handler ∷ [] else [])
  unfolding setup_client_handlers register_if register_node_handler
  client_handlers c =
      register_relay-node_handlers c.relay.enabled _
      ∙ register_if-node_handlers c.socks5.enabled socks5_handler new_registry

  server_handlers :
      (c : Config)
      → (setup_server_handlers compile c new_registry).node_handlers
        ≡ (if ltb_ℤ (pos 0) c.discovery.update_interval_sec then server_discovery ∷ [] else [])
  unfolding setup_server_handlers register_if register_node_handler
  server_handlers c =
      let wanted = ltb_ℤ (pos 0) c.discovery.update_interval_sec in
      register_if-node_handlers wanted server_discovery _
      ∙ ap (λ hs. if wanted then hs ++ (server_discovery ∷ []) else hs)
          (register_relay-node_handlers c.relay.enabled new_registry)

  -- The bug: where the mode of a usable configuration of a server is then changed to client, as the
  -- -mode flag does, the node runs no handler, and so no SOCKS5 proxy.
  setup_handlers-overridden :
      (c : Config)
      → IsUsable c
      → c.mode ≡ server_mode
      → (setup_handlers compile
          (record c { mode = client_mode })
          (node_type (record c { mode = client_mode }))).node_handlers
        ≡ []
  setup_handlers-overridden c u server =
      let d = record c { mode = client_mode } in
      ap (λ r. r.node_handlers) (setup_client d refl)
      ∙ client_handlers d
      ∙ ap (λ b. if b then socks5_handler ∷ [] else []) (u.server_socks5 server)

  -- With a usable configuration a client runs the SOCKS5 proxy and nothing else, a server runs server
  -- discovery if its interval is positive and nothing else, and a bootstrap node runs nothing.
  pub setup_handlers-node_handlers :
      (c : Config)
      → IsUsable c
      → (c.mode ≡ client_mode
          → (setup_handlers compile c (node_type c)).node_handlers ≡ socks5_handler ∷ [])
        × (c.mode ≡ server_mode
            → (setup_handlers compile c (node_type c)).node_handlers ≡ (
                if ltb_ℤ (pos 0) c.discovery.update_interval_sec
                then server_discovery ∷ []
                else []))
        × (c.mode ≡ bootstrap_mode → (setup_handlers compile c (node_type c)).node_handlers ≡ [])
  setup_handlers-node_handlers c u = (
    λ client.
        ap (λ r. r.node_handlers) (setup_client c client)
        ∙ client_handlers c
        ∙ ap (λ b. if b then socks5_handler ∷ [] else []) (u.client_socks5 client),
    λ server. ap (λ r. r.node_handlers) (setup_server c server) ∙ server_handlers c,
    λ bootstrap. ap (λ r. r.node_handlers) (setup_bootstrap c bootstrap),
  )

  register_relay-stream_handlers :
      (enabled : Bool) (r : Handlers)
      → r.stream_handlers ≡ []
      → (register_relay compile enabled r).stream_handlers
        ≡ (if enabled then (protocol relay_handler, relay_handler) ∷ [] else [])
  unfolding register_relay register_stream_handler insert
  register_relay-stream_handlers false r h = h
  register_relay-stream_handlers true r h =
      (put_pattern_kept _ _ _).1 ∙ ap (insert text_eq (protocol relay_handler) relay_handler) h

  stream_handlers :
      (c : Config)
      → (c.mode ≡ client_mode) ⊎ (c.mode ≡ server_mode)
      → (setup_handlers compile c (node_type c)).stream_handlers
        ≡ (if c.relay.enabled then (protocol relay_handler, relay_handler) ∷ [] else [])
  unfolding setup_client_handlers setup_server_handlers register_if register_node_handler
  stream_handlers c (inl client) =
      ap (λ r. r.stream_handlers) (setup_client c client)
      ∙ register_relay-stream_handlers c.relay.enabled _
          (register_if-stream_handlers c.socks5.enabled socks5_handler new_registry)
  stream_handlers c (inr server) =
      ap (λ r. r.stream_handlers) (setup_server c server)
      ∙ register_if-stream_handlers _ server_discovery _
      ∙ register_relay-stream_handlers c.relay.enabled new_registry refl

  -- With the relay enabled, its handler.
  abbrev pub relay_streams : Config → List (Bytes × StreamHandler)
  relay_streams c = if c.relay.enabled then (protocol relay_handler, relay_handler) ∷ [] else []

  pub setup_handlers-stream_handlers :
      (c : Config)
      → (c.mode ≡ client_mode
          → (setup_handlers compile c (node_type c)).stream_handlers ≡ relay_streams c)
        × (c.mode ≡ server_mode
            → (setup_handlers compile c (node_type c)).stream_handlers ≡ relay_streams c)
        × (c.mode ≡ bootstrap_mode → (setup_handlers compile c (node_type c)).stream_handlers ≡ [])
  setup_handlers-stream_handlers c = (
    λ client. stream_handlers c (inl client),
    λ server. stream_handlers c (inr server),
    λ bootstrap. ap (λ r. r.stream_handlers) (setup_bootstrap c bootstrap),
  )

  accepts_relay :
      (name : Bytes)
      → (accepts ((protocol relay_handler, relay_handler) ∷ []) name ≡ true)
        ↔ ((m : SubMatches) × Matches name m)
  unfolding accepts protocol_match
  accepts_relay name = (
    λ h. elim (Option-cases (find_submatch name)) [
      | inl e ↦ ground (arith, e)
      | inr (m, e) ↦ (m, (find_submatch_iff name m).0 e)
    ],
    λ (m, k). ground (arith, (find_submatch_iff name m).1 k),
  )

  -- A client or a server with its relay enabled is handed exactly the streams whose protocol is
  -- spelled by the relay pattern; with its relay disabled, none.
  pub setup_handlers-accepts :
      (c : Config) (name : Bytes)
      → (c.mode ≡ client_mode) ⊎ (c.mode ≡ server_mode)
      → (accepts ((setup_handlers compile c (node_type c)).stream_handlers) name ≡ true)
        ↔ ((c.relay.enabled ≡ true) × ((m : SubMatches) × Matches name m))
  unfolding accepts
  setup_handlers-accepts c name mode = elim (Bool-cases (c.relay.enabled)) [
    | inl e ↦
        let only =
          stream_handlers c mode
          ∙ ap (λ b. if b then (protocol relay_handler, relay_handler) ∷ [] else []) e in
        (
          λ h. (e, (accepts_relay name).0 (sym (ap (λ hs. accepts hs name) only) ∙ h)),
          λ (on, k). ap (λ hs. accepts hs name) only ∙ (accepts_relay name).1 k,
        )
    | inr e ↦
        let none_left =
          stream_handlers c mode
          ∙ ap (λ b. if b then (protocol relay_handler, relay_handler) ∷ [] else []) e in
        (λ h. absurd (cc (ap (λ hs. accepts hs name) none_left, h)), λ (on, k). absurd (cc (on, e)))
  ]
