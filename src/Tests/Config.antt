-- ===== src/Tests/Config.antt =====
-- The theorems about the configuration at a concrete file of a server.
use goxic.Prelude.{
  ◌≡◌, ◌↔◌, refl, true, false, [], ◌∷◌, ◌++◌, Option, none, some, Bytes, codes, inr, text_eq,
}
use goxic.Config.Record.{
  Config, client_mode, server_mode, new_default_config, default_network, default_logging,
}
use goxic.Config.Defaults.{apply_defaults}
use goxic.Config.Validate.{System, is_abs, validate, one_of}
use goxic.Config.Validate.Lower.{to_lower}
use goxic.Config.Validate.Checks.{normalised}
use goxic.Config.Validate.Consistent.{IsConsistent, validate_iff}
use goxic.Config.Load.{load_config, override_mode}
use goxic.Config.Load.Usable.{IsUsable, load_config-IsUsable, override_mode-server_config}

-- The directory of the program is /srv, and every text is an address.
abbrev pub unix : System
unix = record {
  abs = λ path. some (codes "/srv/" ++ path);
  parse_ip = λ s. true;
  parse_cidr = λ s. true;
}

pub unix-is_abs : (s t : Bytes) → unix.abs s ≡ some t → is_abs t ≡ true
unix-is_abs s t h = cc

-- What the file says: a server, one bootstrap node, and the level in capitals.
abbrev pub in_file : Config
in_file = record new_default_config {
  mode = server_mode;
  data_dir = codes "data";
  network = record default_network { boostrap_nodes = codes "/ip4/192.0.2.1/tcp/4001" ∷ [] };
  logging = record default_logging { level = codes "WARN" };
}

validate_iff_example :
    (validate unix in_file ≡ (normalised unix in_file, none))
    ↔ (IsConsistent unix in_file × (normalised unix in_file ≡ normalised unix in_file))
validate_iff_example = validate_iff unix in_file (normalised unix in_file)

abbrev pub loaded : Config
loaded = normalised unix (apply_defaults in_file)

abbrev pub parse : Bytes → Option Config
parse file = some in_file

pub loads : load_config unix parse (some []) ≡ inr loaded
unfolding load_config apply_defaults validate text_eq one_of to_lower
loads = refl

load_config-IsUsable_example : IsUsable loaded
load_config-IsUsable_example = load_config-IsUsable unix unix-is_abs parse (some []) loaded loads

override_mode-server_config_example :
    (d : Config) × (override_mode client_mode loaded ≡ some d)
    × (d.mode ≡ client_mode)
    × (d.socks5.enabled ≡ false)
unfolding apply_defaults
override_mode-server_config_example =
    override_mode-server_config unix unix-is_abs parse (some []) loaded loads refl
