-- ===== src/Config/Validate/Checks.antt =====
-- When each check of `Validate` passes, and what it leaves.
use goxic.Prelude.{
  ◌≡◌, ◌≢◌, ◌↔◌, refl, sym, ◌∙◌, inl, inr, Bool, true, false, Bool-cases, not, ◌&&◌, List, [], ◌∷◌,
  Option, none, some, Option-cases, Bytes, text_eq, text_eq_iff, text_eq_sound, is_empty,
  if◌then◌else◌, arith, ap, All, Elem,
}
use goxic.Prelude.Int.{◌≤ℤ◌}
use goxic.Discovery.Select.{selection_preferred}
use goxic.Config.Record.{Config}
use goxic.Config.Validate.{
  System, is_abs, nodes_of, modes, valid_log_levels, formats, valid_strategies, check_mode,
  check_nodes, check_name, check_port, check_socks5_port, check_limits, check_data_dir,
  check_networks, check_socks5, check_level, set_level, check_format, check_strategy,
  check_preferred, find_level, reject_if, invalid_allowed_network, invalid_mode,
  boostrap_nodes_required, ◌>=>◌, invalid_bind_address, name_required, network_port_range,
  socks5_port_range, min_above_max_connections, invalid_format, invalid_selection_strategy,
  preferred_exit_nodes_required,
}
use goxic.Config.Validate.Lower.{to_lower}
use goxic.Config.Validate.Steps.{
  PassesIff, InRange, then_lem, reject_if_lem, not-one_of_iff, is_empty_iff, out_of_range_iff,
  find_level-some, find_level_sound,
}

guarded_iff :
    (guard : Bool) {test : Bool} {P : Type 0}
    → (test ≡ false) ↔ P
    → ((guard && test) ≡ false) ↔ (guard ≡ true → P)
guarded_iff true h = (λ e f. h.0 e, λ k. h.1 (k refl))
guarded_iff false h = (λ e f. absurd (cc f), λ k. refl)

preferred_iff :
    (strategy : Bytes) (nodes : Option (List Bytes))
    → ((text_eq strategy selection_preferred && is_empty (nodes_of nodes)) ≡ false)
      ↔ (strategy ≡ selection_preferred → nodes_of nodes ≢ [])
preferred_iff strategy nodes =
    let test = guarded_iff (text_eq strategy selection_preferred) (is_empty_iff (nodes_of nodes)) in
    (
      λ e s. test.0 e ((text_eq_iff strategy selection_preferred).1 s),
      λ k. test.1 (λ t. k (text_eq_sound strategy selection_preferred t)),
    )

module _ (sys : System) where
  abbrev pub absolute : Bytes → Bytes
  absolute dir = if is_abs dir then dir else elim (sys.abs dir) [ some abs ↦ abs | none ↦ dir ]

  abbrev pub with_dir : Config → Config
  with_dir c = record c { data_dir = absolute c.data_dir }

  -- The data directory absolute, and the log level in lower case.
  abbrev pub normalised : Config → Config
  normalised c = record c {
    data_dir = absolute c.data_dir;
    logging = record (c.logging) { level = to_lower c.logging.level };
  }

  pub data_dir_lem :
      (c : Config)
      → PassesIff
          (check_data_dir sys)
          c
          (with_dir c)
          (is_abs c.data_dir ≡ false → sys.abs c.data_dir ≢ none)
  unfolding check_data_dir
  data_dir_lem c x = elim (Bool-cases (is_abs c.data_dir)) [
    | inl e ↦ (λ h. ((λ f. cc), cc), λ (p, q). rw (q, e) refl)
    | inr e ↦ elim (Option-cases (sys.abs c.data_dir)) [
      | inl f ↦ (λ h. cc, λ (p, q). absurd (p e f))
      | inr (d, f) ↦ (λ h. ((λ g k. cc), cc), λ (p, q). rw (q, e, f) refl)
    ]
  ]

  networks_lem :
      (ns : List Bytes) (c : Config)
      → PassesIff (check_networks sys ns) c c (All (λ n. sys.parse_cidr n ≡ true) ns)
  unfolding check_networks
  networks_lem [] c = λ x. (λ h. (tt, cc), λ (p, q). rw q refl)
  networks_lem (n ∷ ns) c =
      then_lem (reject_if (not (sys.parse_cidr n)) (invalid_allowed_network n))
        (check_networks sys ns) c c c _ _ (reject_if_lem _ _ c _ (ground arith)) (networks_lem ns c)

  pub socks5_lem :
      (c : Config)
      → PassesIff (check_socks5 sys) c c (
          (c.socks5.enabled ≡ true → sys.parse_ip c.socks5.bind_address ≡ true)
          × (c.socks5.enabled ≡ true
              → All (λ n. sys.parse_cidr n ≡ true) c.socks5.allowed_networks))
  unfolding check_socks5
  socks5_lem c x = elim (Bool-cases (c.socks5.enabled)) [
    | inr e ↦ (λ h. (((λ f. cc), (λ f. absurd (cc (e, f)))), cc), λ (p, q). rw (q, e) refl)
    | inl e ↦
        let ip_check = reject_if (not (sys.parse_ip c.socks5.bind_address)) invalid_bind_address in
        let run : check_socks5 sys c
            ≡ (ip_check >=> check_networks sys c.socks5.allowed_networks) c =
          rw e in
        let both =
          then_lem ip_check (check_networks sys c.socks5.allowed_networks) c c c _ _
            (reject_if_lem _ _ c (sys.parse_ip c.socks5.bind_address ≡ true) (ground arith))
            (networks_lem c.socks5.allowed_networks c) x in
        (
          λ h. let ((ip, nets), q) = both.0 (sym run ∙ h) in (((λ f. ip), (λ f. nets)), q),
          λ ((ip, nets), q). run ∙ both.1 ((ip e, nets e), q),
        )
  ]

pub level_lem :
    (c : Config)
    → PassesIff check_level c
        (record c { logging = record (c.logging) { level = to_lower c.logging.level } })
        (Elem (to_lower c.logging.level) valid_log_levels)
unfolding check_level set_level
level_lem c x = (
  λ h. elim (Option-cases (find_level c.logging.level valid_log_levels)) [
    | inl e ↦ cc
    | inr (l, e) ↦
        let m = find_level_sound c.logging.level valid_log_levels l e in
        (m, cc (h, e, find_level-some c.logging.level valid_log_levels m))
  ],
  λ (m, q).
      ap (set_level c) (find_level-some c.logging.level valid_log_levels m)
      ∙ ap (λ y. (y, none)) (sym q),
)

pub mode_lem : (c : Config) → PassesIff check_mode c c (Elem c.mode modes)
unfolding check_mode
mode_lem c = reject_if_lem _ invalid_mode c _ (not-one_of_iff c.mode modes)

pub nodes_lem : (c : Config) → PassesIff check_nodes c c (c.network.boostrap_nodes ≢ [])
unfolding check_nodes
nodes_lem c = reject_if_lem _ boostrap_nodes_required c _ (is_empty_iff c.network.boostrap_nodes)

pub name_lem : (c : Config) → PassesIff check_name c c (c.network.name ≢ [])
unfolding check_name
name_lem c = reject_if_lem _ name_required c _ (is_empty_iff c.network.name)

pub port_lem : (c : Config) → PassesIff check_port c c (InRange c.network.port)
unfolding check_port
port_lem c = reject_if_lem _ network_port_range c _ (out_of_range_iff c.network.port)

pub socks5_port_lem :
    (c : Config) → PassesIff check_socks5_port c c (c.socks5.enabled ≡ true → InRange c.socks5.port)
unfolding check_socks5_port
socks5_port_lem c =
    reject_if_lem _ socks5_port_range c _
      (guarded_iff c.socks5.enabled (out_of_range_iff c.socks5.port))

pub limits_lem :
    (c : Config)
    → PassesIff check_limits c c (c.network.min_connections ≤ℤ c.network.max_connections)
unfolding check_limits
limits_lem c = reject_if_lem _ min_above_max_connections c _ (ground arith)

pub format_lem : (c : Config) → PassesIff check_format c c (Elem c.logging.format formats)
unfolding check_format
format_lem c = reject_if_lem _ invalid_format c _ (not-one_of_iff c.logging.format formats)

pub strategy_lem :
    (c : Config)
    → PassesIff check_strategy c c (Elem c.discovery.selection_strategy valid_strategies)
unfolding check_strategy
strategy_lem c =
    reject_if_lem _ invalid_selection_strategy c _
      (not-one_of_iff c.discovery.selection_strategy valid_strategies)

pub preferred_lem :
    (c : Config)
    → PassesIff check_preferred c c (
        c.discovery.selection_strategy ≡ selection_preferred
        → nodes_of c.discovery.preferred_exit_nodes ≢ [])
unfolding check_preferred
preferred_lem c =
    reject_if_lem _ preferred_exit_nodes_required c _
      (preferred_iff c.discovery.selection_strategy c.discovery.preferred_exit_nodes)
