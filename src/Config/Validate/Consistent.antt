-- ===== src/Config/Validate/Consistent.antt =====
-- What `Validate` accepts, and the configuration that it leaves.
use goxic.Prelude.{◌≡◌, ◌≢◌, ◌↔◌, true, false, [], none, All, Elem}
use goxic.Prelude.Int.{◌≤ℤ◌}
use goxic.Discovery.Select.{selection_preferred}
use goxic.Config.Record.{Config}
use goxic.Config.Validate.{
  System, Check, is_abs, nodes_of, modes, valid_log_levels, formats, valid_strategies, check_mode,
  check_nodes, check_name, check_port, check_socks5_port, check_limits, check_data_dir,
  check_socks5, check_level, check_format, check_strategy, check_preferred, validate, ◌>=>◌,
}
use goxic.Config.Validate.Lower.{to_lower}
use goxic.Config.Validate.Steps.{PassesIff, InRange, then_lem}
use goxic.Config.Validate.Checks.{
  with_dir, normalised, mode_lem, nodes_lem, name_lem, port_lem, socks5_port_lem, limits_lem,
  format_lem, strategy_lem, preferred_lem, data_dir_lem, socks5_lem, level_lem,
}

module _ (sys : System) where
  -- The configurations that are accepted.
  pub record IsConsistent (c : Config) : Type 0 where
    pub mode : Elem c.mode modes
    pub boostrap_nodes : c.network.boostrap_nodes ≢ []
    pub name : c.network.name ≢ []
    pub port : InRange c.network.port
    pub socks5_port : c.socks5.enabled ≡ true → InRange c.socks5.port
    pub connections : c.network.min_connections ≤ℤ c.network.max_connections
    pub data_dir : is_abs c.data_dir ≡ false → sys.abs c.data_dir ≢ none
    pub bind_address : c.socks5.enabled ≡ true → sys.parse_ip c.socks5.bind_address ≡ true
    pub allowed_networks :
        c.socks5.enabled ≡ true → All (λ n. sys.parse_cidr n ≡ true) c.socks5.allowed_networks
    pub level : Elem (to_lower c.logging.level) valid_log_levels
    pub format : Elem c.logging.format formats
    pub selection_strategy : Elem c.discovery.selection_strategy valid_strategies
    pub preferred_exit_nodes :
        c.discovery.selection_strategy ≡ selection_preferred
        → nodes_of c.discovery.preferred_exit_nodes ≢ []

module _ (sys : System) where
  -- The conditions in the order of the checks.
  abbrev Conditions : Config → Type 0
  Conditions c =
      Elem c.mode modes
      × ((c.network.boostrap_nodes ≢ [])
          × ((c.network.name ≢ [])
              × (InRange c.network.port
                  × ((c.socks5.enabled ≡ true → InRange c.socks5.port)
                      × ((c.network.min_connections ≤ℤ c.network.max_connections)
                          × ((is_abs c.data_dir ≡ false → sys.abs c.data_dir ≢ none)
                              × (((c.socks5.enabled ≡ true
                                      → sys.parse_ip c.socks5.bind_address ≡ true)
                                    × (c.socks5.enabled ≡ true
                                        → All (λ n. sys.parse_cidr n ≡ true)
                                            c.socks5.allowed_networks))
                                  × (Elem (to_lower c.logging.level) valid_log_levels
                                      × (Elem c.logging.format formats
                                          × (Elem c.discovery.selection_strategy valid_strategies
                                              × (c.discovery.selection_strategy
                                                    ≡ selection_preferred
                                                  → nodes_of c.discovery.preferred_exit_nodes
                                                    ≢ [])))))))))))

  Conditions-IsConsistent : (c : Config) → Conditions c → IsConsistent sys c
  Conditions-IsConsistent c
        (
          mode,
          (
            nodes,
            (
              name,
              (
                port,
                (socks5, (limits, (dir, ((ip, nets), (level, (form, (strategy, preferred))))))),
              ),
            ),
          ),
        ) =
      record {
        mode = mode;
        boostrap_nodes = nodes;
        name = name;
        port = port;
        socks5_port = socks5;
        connections = limits;
        data_dir = dir;
        bind_address = ip;
        allowed_networks = nets;
        level = level;
        format = form;
        selection_strategy = strategy;
        preferred_exit_nodes = preferred;
      }

  IsConsistent-Conditions : (c : Config) → IsConsistent sys c → Conditions c
  IsConsistent-Conditions c k = (
    k.mode,
    (
      k.boostrap_nodes,
      (
        k.name,
        (
          k.port,
          (
            k.socks5_port,
            (
              k.connections,
              (
                k.data_dir,
                (
                  (k.bind_address, k.allowed_networks),
                  (k.level, (k.format, (k.selection_strategy, k.preferred_exit_nodes))),
                ),
              ),
            ),
          ),
        ),
      ),
    ),
  )

  validate-Conditions : (c : Config) → PassesIff (validate sys) c (normalised sys c) (Conditions c)
  unfolding validate
  validate-Conditions c =
      let c1 = with_dir sys c in
      let c2 = normalised sys c in
      let from_strategy : Check = check_strategy >=> check_preferred in
      let from_format : Check = check_format >=> from_strategy in
      let from_level : Check = check_level >=> from_format in
      let from_socks5 : Check = (check_socks5 sys) >=> from_level in
      let from_dir : Check = (check_data_dir sys) >=> from_socks5 in
      let from_limits : Check = check_limits >=> from_dir in
      let from_socks5_port : Check = check_socks5_port >=> from_limits in
      let from_port : Check = check_port >=> from_socks5_port in
      let from_name : Check = check_name >=> from_port in
      let from_nodes : Check = check_nodes >=> from_name in
      then_lem check_mode from_nodes c c c2 _ _ (mode_lem c) (
        then_lem check_nodes from_name c c c2 _ _ (nodes_lem c) (
          then_lem check_name from_port c c c2 _ _ (name_lem c) (
            then_lem check_port from_socks5_port c c c2 _ _ (port_lem c) (
              then_lem check_socks5_port from_limits c c c2 _ _ (socks5_port_lem c) (
                then_lem check_limits from_dir c c c2 _ _ (limits_lem c) (
                  then_lem (check_data_dir sys) from_socks5 c c1 c2 _ _ (data_dir_lem sys c) (
                    then_lem (check_socks5 sys) from_level c1 c1 c2 _ _ (socks5_lem sys c1) (
                      then_lem check_level from_format c1 c2 c2 _ _ (level_lem c1) (
                        then_lem check_format from_strategy c2 c2 c2 _ _ (format_lem c2) (
                          then_lem check_strategy check_preferred c2 c2 c2 _ _ (strategy_lem c2)
                            (preferred_lem c2)))))))))))

  -- `Validate` accepts exactly the consistent configurations, and then it leaves the configuration
  -- with its data directory made absolute and its log level in lower case, and nothing else changed.
  pub validate_iff :
      (c d : Config) → (validate sys c ≡ (d, none)) ↔ (IsConsistent sys c × (d ≡ normalised sys c))
  validate_iff c d = (
    λ h. let (k, q) = (validate-Conditions c d).0 h in (Conditions-IsConsistent c k, q),
    λ (k, q). (validate-Conditions c d).1 (IsConsistent-Conditions c k, q),
  )
