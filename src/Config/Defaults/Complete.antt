-- ===== src/Config/Defaults/Complete.antt =====
-- What `ApplyDefaults` leaves behind.
use goxic.Prelude.{
  ◌≡◌, ◌↔◌, refl, subst, ◌∙◌, Bool, true, false, Bool-cases, inl, inr, Bytes, text_eq,
  text_eq_sound, ap,
}
use goxic.Config.Record.{Config, client_mode, server_mode}
use goxic.Config.Defaults.{socks5_by_mode, fill_defaults, adjust_mode, apply_defaults}
use goxic.Config.Defaults.Parts.{
  IsFilled, IsCompleteNetwork, IsCompleteSocks5, IsCompleteRelay, IsCompleteDiscovery,
  IsCompleteLogging, list_or_kept, list_or-IsFilled, network_defaults_kept,
  network_defaults-IsComplete, socks5_defaults_kept, socks5_defaults-IsComplete,
  relay_defaults_kept, relay_defaults-IsComplete, discovery_defaults_kept,
  discovery_defaults-IsComplete, logging_defaults_kept, logging_defaults-IsComplete,
}

-- A complete configuration: in every part nothing is missing that has a default, a server has its
-- SOCKS5 proxy off, and a client has it on.
pub record IsComplete (c : Config) : Type 0 where
  pub mode : IsFilled c.mode
  pub data_dir : IsFilled c.data_dir
  pub config_dir : IsFilled c.config_dir
  pub network : IsCompleteNetwork c.network
  pub socks5 : IsCompleteSocks5 c.socks5
  pub relay : IsCompleteRelay c.relay
  pub discovery : IsCompleteDiscovery c.discovery
  pub logging : IsCompleteLogging c.logging
  pub server_socks5 : c.mode ≡ server_mode → c.socks5.enabled ≡ false
  pub client_socks5 : c.mode ≡ client_mode → c.socks5.enabled ≡ true

socks5_by_mode-server : (enabled : Bool) → socks5_by_mode server_mode enabled ≡ false
unfolding socks5_by_mode text_eq
socks5_by_mode-server enabled = refl

socks5_by_mode-client : (enabled : Bool) → socks5_by_mode client_mode enabled ≡ true
unfolding socks5_by_mode text_eq
socks5_by_mode-client enabled = refl

socks5_by_mode_kept :
    (mode : Bytes) (enabled : Bool)
    → (mode ≡ server_mode → enabled ≡ false)
    → (mode ≡ client_mode → enabled ≡ true)
    → socks5_by_mode mode enabled ≡ enabled
unfolding socks5_by_mode
socks5_by_mode_kept mode enabled hs hc = elim (Bool-cases (text_eq mode server_mode)) [
  | inl e ↦ rw (e, hs (text_eq_sound mode server_mode e))
  | inr e ↦ elim (Bool-cases (text_eq mode client_mode)) [
    | inl f ↦ rw (e, f, hc (text_eq_sound mode client_mode f))
    | inr f ↦ rw (e, f)
  ]
]

fill_defaults_kept : (c : Config) → IsComplete c → fill_defaults c ≡ c
unfolding fill_defaults
fill_defaults_kept c h = rw (
  list_or_kept c.mode _ h.mode,
  list_or_kept c.data_dir _ h.data_dir,
  list_or_kept c.config_dir _ h.config_dir,
  network_defaults_kept c.network h.network,
  socks5_defaults_kept c.socks5 h.socks5,
  relay_defaults_kept c.relay h.relay,
  discovery_defaults_kept c.discovery h.discovery,
  logging_defaults_kept c.logging h.logging,
)

adjust_mode_kept : (c : Config) → IsComplete c → adjust_mode c ≡ c
unfolding adjust_mode
adjust_mode_kept c h =
    rw (socks5_by_mode_kept c.mode c.socks5.enabled h.server_socks5 h.client_socks5)

apply_defaults_kept : (c : Config) → IsComplete c → apply_defaults c ≡ c
unfolding apply_defaults
apply_defaults_kept c h = ap adjust_mode (fill_defaults_kept c h) ∙ adjust_mode_kept c h

-- Whatever the file said, after `ApplyDefaults` every number that has a default is not zero, every
-- text and list that has one that is not empty is not empty, a server has SOCKS5 off, and a client
-- has it on.
pub apply_defaults-IsComplete : (c : Config) → IsComplete (apply_defaults c)
unfolding apply_defaults fill_defaults adjust_mode
apply_defaults-IsComplete c = record {
  mode = list_or-IsFilled c.mode _ (λ e. cc);
  data_dir = list_or-IsFilled c.data_dir _ (λ e. cc);
  config_dir = list_or-IsFilled c.config_dir _ (λ e. cc);
  network = network_defaults-IsComplete c.network;
  socks5 =
      let h = socks5_defaults-IsComplete c.socks5 in
      record {
        port = h.port;
        bind_address = h.bind_address;
        allowed_networks = h.allowed_networks;
        max_connections = h.max_connections;
        connection_timeout = h.connection_timeout;
      };
  relay = relay_defaults-IsComplete c.relay;
  discovery = discovery_defaults-IsComplete c.discovery;
  logging = logging_defaults-IsComplete c.logging;
  server_socks5 = λ e. rw e (socks5_by_mode-server _);
  client_socks5 = λ e. rw e (socks5_by_mode-client _);
}

-- `ApplyDefaults` leaves a configuration as it is exactly if it is complete.
apply_defaults_iff : (c : Config) → (apply_defaults c ≡ c) ↔ IsComplete c
apply_defaults_iff c =
    (λ e. subst IsComplete e (apply_defaults-IsComplete c), apply_defaults_kept c)
