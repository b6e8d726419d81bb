-- ===== src/Node/Run/Advertise.antt =====
-- The advertisement goroutine of `Run`, and an interval that the configuration may have.
use goxic.Prelude.{
  false_of_ne_true, ℕ, suc, ◌<◌, ◌≤◌, ◌≡◌, refl, ap, ◌∙◌, inr, false, List, [], ◌∷◌, Option, none,
  some, Bytes, if◌then◌else◌, arith,
}
use goxic.Prelude.Int.{ℤ, pos, negsuc, eqb_ℤ, seconds}
use goxic.Discovery.Periodic.{Signal, ticked, done, ticker_starts, ticker_starts-seconds}
use goxic.Config.Record.{Config, default_discovery}
use goxic.Config.Defaults.{apply_defaults}
use goxic.Config.Validate.{System, validate}
use goxic.Config.Validate.Consistent.{IsConsistent, validate_iff}
use goxic.Config.Load.{load_config}
use goxic.Config.Load.Usable.{load_config_inv, load_config_lem}

-- The calls of `Advertise`, one for each tick until the context is done.
advertise_on_ticks : List Signal → ℕ
advertise_on_ticks [] = 0
advertise_on_ticks (done ∷ signals) = 0
advertise_on_ticks (ticked ∷ signals) = suc (advertise_on_ticks signals)

-- None for the panic of `time.NewTicker`, which ends the program.
unfoldable pub start_advertising : Config → List Signal → Option ℕ
unfolding advertise_on_ticks
start_advertising c signals =
    if ticker_starts (seconds c.discovery.advertise_interval_sec)
    then some (advertise_on_ticks signals)
    else none

abbrev pub with_interval : ℤ → Config → Config
with_interval x c = record c { discovery = record (c.discovery) { advertise_interval_sec = x } }

-- From -9223372036 up to -1, or from 9223372037 up to 18446744073.
abbrev IsUnfit : ℤ → Type 0
IsUnfit (pos n) = (9223372036 < n) × (n ≤ 18446744073)
IsUnfit (negsuc n) = n < 9223372036

kept_unfit : (x y : ℤ) → IsUnfit x → (if eqb_ℤ x (pos 0) then y else x) ≡ x
kept_unfit (pos n) y (big, l) = ground arith
kept_unfit (negsuc n) y l = ground arith

apply_defaults-with_interval :
    (x : ℤ) (c : Config)
    → IsUnfit x
    → apply_defaults (with_interval x c) ≡ with_interval x (apply_defaults c)
unfolding apply_defaults
apply_defaults-with_interval x c unfit =
    ap (λ y. with_interval y (apply_defaults c))
      (kept_unfit x default_discovery.advertise_interval_sec unfit)

IsConsistent-with_interval :
    (sys : System) (x : ℤ) (c : Config) → IsConsistent sys c → IsConsistent sys (with_interval x c)
IsConsistent-with_interval sys x c k = record {
  mode = k.mode;
  boostrap_nodes = k.boostrap_nodes;
  name = k.name;
  port = k.port;
  socks5_port = k.socks5_port;
  connections = k.connections;
  data_dir = k.data_dir;
  bind_address = k.bind_address;
  allowed_networks = k.allowed_networks;
  level = k.level;
  format = k.format;
  selection_strategy = k.selection_strategy;
  preferred_exit_nodes = k.preferred_exit_nodes;
}

negative_stops : (n : ℕ) → n < 9223372036 → ticker_starts (seconds (negsuc n)) ≡ false
unfolding seconds
negative_stops n l = ground arith

unfit_stops : (x : ℤ) → IsUnfit x → ticker_starts (seconds x) ≡ false
unfit_stops (pos n) (big, l) =
    false_of_ne_true (ticker_starts (seconds (pos n)))
      (λ t. omega (arith, big, ((ticker_starts-seconds n l).0 t).1))
unfit_stops (negsuc n) l = negative_stops n l

-- The bug: `LoadConfig` accepts an interval of the advertisement from -9223372036 up to -1 seconds,
-- and one from 9223372037 up to 18446744073 seconds, whose nanoseconds overflow a `Duration`, in
-- every file that it would accept with another interval; it keeps the interval, and the program then
-- panics in the goroutine of `Run`. Beyond these bounds the overflow may give a positive interval.
pub load_config-start_advertising :
    (sys : System) (unmarshal : Bytes → Option Config) (file file' : Bytes) (x : ℤ) (c d : Config)
    (signals : List Signal)
    → unmarshal file ≡ some c
    → unmarshal file' ≡ some (with_interval x c)
    → load_config sys unmarshal (some file) ≡ inr d
    → IsUnfit x
    → (load_config sys unmarshal (some file') ≡ inr (with_interval x d))
      × (start_advertising (with_interval x d) signals ≡ none)
unfolding start_advertising
load_config-start_advertising sys unmarshal file file' x c d signals u u' l unfit =
    let (k, same) =
      (validate_iff sys (apply_defaults c) d).0 (load_config_inv sys unmarshal file c d u l) in
    (
      load_config_lem sys unmarshal file' (with_interval x c) (with_interval x d) u' (
          ap (validate sys) (apply_defaults-with_interval x c unfit)
          ∙ (validate_iff sys (with_interval x (apply_defaults c)) (with_interval x d)).1
              (IsConsistent-with_interval sys x (apply_defaults c) k, ap (with_interval x) same)),
      rw (unfit_stops x unfit) refl,
    )
