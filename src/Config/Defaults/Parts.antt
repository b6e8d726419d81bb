-- ===== src/Config/Defaults/Parts.antt =====
-- What the parts of `ApplyDefaults` leave behind, and what they leave alone.
use goxic.Prelude.{◌≡◌, ◌≢◌, refl, Bool-cases, inl, inr, List, [], ◌∷◌, Option, none, some, arith}
use goxic.Prelude.Int.{ℤ, pos, eqb_ℤ, eqb_ℤ_sound}
use goxic.Config.Record.{NetworkConfig, Socks5Config, RelayConfig, DiscoveryConfig, LoggingConfig}
use goxic.Config.Defaults.{
  int_or, list_or, slice_or, network_defaults, socks5_defaults, relay_defaults, discovery_defaults,
  logging_defaults,
}

-- A number that is set, and a list or text that is not empty.
abbrev IsGiven : ℤ → Type 0
IsGiven n = n ≢ pos 0

abbrev pub IsFilled : {A : Type 0} → List A → Type 0
IsFilled s = s ≢ []

int_or-IsGiven : (n d : ℤ) → IsGiven d → IsGiven (int_or n d)
unfolding int_or
int_or-IsGiven n d h = ground arith

int_or_kept : (n d : ℤ) → IsGiven n → int_or n d ≡ n
unfolding int_or
int_or_kept n d h = elim (Bool-cases (eqb_ℤ n (pos 0))) [
  | inl e ↦ absurd (h (eqb_ℤ_sound n (pos 0) e))
  | inr e ↦ rw e
]

pub list_or-IsFilled : {A : Type 0} (s d : List A) → IsFilled d → IsFilled (list_or s d)
unfolding list_or
list_or-IsFilled [] d h = h
list_or-IsFilled (x ∷ s) d h = λ e. cc

pub list_or_kept : {A : Type 0} (s d : List A) → IsFilled s → list_or s d ≡ s
unfolding list_or
list_or_kept [] d h = absurd (h refl)
list_or_kept (x ∷ s) d h = refl

-- Every number and text that has a default is there.
pub record IsCompleteNetwork (n : NetworkConfig) : Type 0 where
  pub port : IsGiven n.port
  pub name : IsFilled n.name
  pub max_connections : IsGiven n.max_connections
  pub min_connections : IsGiven n.min_connections
  pub connection_timeout : IsGiven n.connection_timeout
  pub dial_timeout : IsGiven n.dial_timeout

pub record IsCompleteSocks5 (s : Socks5Config) : Type 0 where
  pub port : IsGiven s.port
  pub bind_address : IsFilled s.bind_address
  pub allowed_networks : IsFilled s.allowed_networks
  pub max_connections : IsGiven s.max_connections
  pub connection_timeout : IsGiven s.connection_timeout

pub record IsCompleteRelay (r : RelayConfig) : Type 0 where
  pub max_hops : IsGiven r.max_hops
  pub buffer_size : IsGiven r.buffer_size

pub record IsCompleteDiscovery (d : DiscoveryConfig) : Type 0 where
  pub update_interval_sec : IsGiven d.update_interval_sec
  pub advertise_interval_sec : IsGiven d.advertise_interval_sec
  pub query_timeout_sec : IsGiven d.query_timeout_sec
  pub cache_validity_min : IsGiven d.cache_validity_min
  pub max_servers : IsGiven d.max_servers
  pub selection_strategy : IsFilled d.selection_strategy
  pub preferred_exit_nodes : d.preferred_exit_nodes ≢ none

pub record IsCompleteLogging (l : LoggingConfig) : Type 0 where
  pub level : IsFilled l.level
  pub format : IsFilled l.format
  pub max_size_mb : IsGiven l.max_size_mb
  pub max_backups : IsGiven l.max_backups

pub network_defaults_kept : (n : NetworkConfig) → IsCompleteNetwork n → network_defaults n ≡ n
unfolding network_defaults
network_defaults_kept n h = rw (
  int_or_kept n.port _ h.port,
  list_or_kept n.name _ h.name,
  int_or_kept n.max_connections _ h.max_connections,
  int_or_kept n.min_connections _ h.min_connections,
  int_or_kept n.connection_timeout _ h.connection_timeout,
  int_or_kept n.dial_timeout _ h.dial_timeout,
)

pub network_defaults-IsComplete : (n : NetworkConfig) → IsCompleteNetwork (network_defaults n)
unfolding network_defaults
network_defaults-IsComplete n = record {
  port = int_or-IsGiven n.port _ (ground arith);
  name = list_or-IsFilled n.name _ (λ e. cc);
  max_connections = int_or-IsGiven n.max_connections _ (ground arith);
  min_connections = int_or-IsGiven n.min_connections _ (ground arith);
  connection_timeout = int_or-IsGiven n.connection_timeout _ (ground arith);
  dial_timeout = int_or-IsGiven n.dial_timeout _ (ground arith);
}

pub socks5_defaults_kept : (s : Socks5Config) → IsCompleteSocks5 s → socks5_defaults s ≡ s
unfolding socks5_defaults
socks5_defaults_kept s h = rw (
  int_or_kept s.port _ h.port,
  list_or_kept s.bind_address _ h.bind_address,
  list_or_kept s.allowed_networks _ h.allowed_networks,
  int_or_kept s.max_connections _ h.max_connections,
  int_or_kept s.connection_timeout _ h.connection_timeout,
)

pub socks5_defaults-IsComplete : (s : Socks5Config) → IsCompleteSocks5 (socks5_defaults s)
unfolding socks5_defaults
socks5_defaults-IsComplete s = record {
  port = int_or-IsGiven s.port _ (ground arith);
  bind_address = list_or-IsFilled s.bind_address _ (λ e. cc);
  allowed_networks = list_or-IsFilled s.allowed_networks _ (λ e. cc);
  max_connections = int_or-IsGiven s.max_connections _ (ground arith);
  connection_timeout = int_or-IsGiven s.connection_timeout _ (ground arith);
}

pub relay_defaults_kept : (r : RelayConfig) → IsCompleteRelay r → relay_defaults r ≡ r
unfolding relay_defaults
relay_defaults_kept r h =
    rw (int_or_kept r.max_hops _ h.max_hops, int_or_kept r.buffer_size _ h.buffer_size)

pub relay_defaults-IsComplete : (r : RelayConfig) → IsCompleteRelay (relay_defaults r)
unfolding relay_defaults
relay_defaults-IsComplete r = record {
  max_hops = int_or-IsGiven r.max_hops _ (ground arith);
  buffer_size = int_or-IsGiven r.buffer_size _ (ground arith);
}

slice_or_kept : {A : Type 0} (s d : Option A) → s ≢ none → slice_or s d ≡ s
unfolding slice_or
slice_or_kept none d h = absurd (h refl)
slice_or_kept (some a) d h = refl

slice_or-filled : {A : Type 0} (s d : Option A) → d ≢ none → slice_or s d ≢ none
unfolding slice_or
slice_or-filled none d h = h
slice_or-filled (some a) d h = λ e. cc

pub discovery_defaults_kept :
    (d : DiscoveryConfig) → IsCompleteDiscovery d → discovery_defaults d ≡ d
unfolding discovery_defaults
discovery_defaults_kept d h = rw (
  int_or_kept d.update_interval_sec _ h.update_interval_sec,
  int_or_kept d.advertise_interval_sec _ h.advertise_interval_sec,
  int_or_kept d.query_timeout_sec _ h.query_timeout_sec,
  int_or_kept d.cache_validity_min _ h.cache_validity_min,
  int_or_kept d.max_servers _ h.max_servers,
  list_or_kept d.selection_strategy _ h.selection_strategy,
  slice_or_kept d.preferred_exit_nodes _ h.preferred_exit_nodes,
)

pub discovery_defaults-IsComplete :
    (d : DiscoveryConfig) → IsCompleteDiscovery (discovery_defaults d)
unfolding discovery_defaults
discovery_defaults-IsComplete d = record {
  update_interval_sec = int_or-IsGiven d.update_interval_sec _ (ground arith);
  advertise_interval_sec = int_or-IsGiven d.advertise_interval_sec _ (ground arith);
  query_timeout_sec = int_or-IsGiven d.query_timeout_sec _ (ground arith);
  cache_validity_min = int_or-IsGiven d.cache_validity_min _ (ground arith);
  max_servers = int_or-IsGiven d.max_servers _ (ground arith);
  selection_strategy = list_or-IsFilled d.selection_strategy _ (λ e. cc);
  preferred_exit_nodes = slice_or-filled d.preferred_exit_nodes _ (λ e. cc);
}

pub logging_defaults_kept : (l : LoggingConfig) → IsCompleteLogging l → logging_defaults l ≡ l
unfolding logging_defaults
logging_defaults_kept l h = rw (
  list_or_kept l.level _ h.level,
  list_or_kept l.format _ h.format,
  int_or_kept l.max_size_mb _ h.max_size_mb,
  int_or_kept l.max_backups _ h.max_backups,
)

pub logging_defaults-IsComplete : (l : LoggingConfig) → IsCompleteLogging (logging_defaults l)
unfolding logging_defaults
logging_defaults-IsComplete l = record {
  level = list_or-IsFilled l.level _ (λ e. cc);
  format = list_or-IsFilled l.format _ (λ e. cc);
  max_size_mb = int_or-IsGiven l.max_size_mb _ (ground arith);
  max_backups = int_or-IsGiven l.max_backups _ (ground arith);
}
