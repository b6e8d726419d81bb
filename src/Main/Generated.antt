-- ===== src/Main/Generated.antt =====
-- The configuration that `-generate-config` writes, read by the next start.
use goxic.Prelude.{
  ℕ, ◌≡◌, ◌≢◌, inl, inr, refl, ap, ◌∙◌, true, false, [], ◌∷◌, Option, none, some, Bytes, codes,
  arith, text_eq, is_empty,
}
use goxic.Files.{Location, file, Disk, Answer, done, missing, refused, open_path, write_file}
use goxic.Files.Opened.{open_path-write_file}
use goxic.Files.Made.{mkdir_all-Leaves}
use goxic.Config.Record.{Config, client_mode, is_server_mode, is_bootstrap_mode}
use goxic.Config.Defaults.{apply_defaults}
use goxic.Config.Validate.{System, is_abs, validate}
use goxic.Config.Validate.Lower.{to_lower}
use goxic.Config.Validate.Checks.{normalised}
use goxic.Config.Validate.Consistent.{IsConsistent, validate_iff}
use goxic.Config.Load.{load_config, override_mode}
use goxic.Config.Load.Usable.{IsUsable, load_config_lem, load_config-IsUsable}
use goxic.Config.Save.{
  FilePath, directory, place, make_parent, SaveError, save_result, save_bytes, save_config,
}
use goxic.Node.Setup.{node_type, node_type_client}
use goxic.Main.{
  Flags, generated, sets_up, generated_config, read_file, read_opened, save_generated,
  generate_default_config, initialize_logging, start_logged, start_overridden, start_loaded,
  start_generated, start,
}

make_parent-nodes :
    (cwd : Location) (path : FilePath) (d : Disk)
    → (make_parent path.parent d).0.nodes (place cwd path) ≡ d.nodes (place cwd path)
unfolding make_parent
make_parent-nodes cwd path d = by_parent path.parent
  where
    by_parent :
        (parent : Option Location)
        → (make_parent parent d).0.nodes (path.name ∷ directory cwd parent)
          ≡ d.nodes (path.name ∷ directory cwd parent)
    by_parent none = refl
    by_parent (some p) = mkdir_all-Leaves (path.name ∷ p) d 493 p (omega arith)

-- The file at a path holds what was marshalled.
abbrev Saved : Location → Option Bytes → Disk × Option SaveError → Type 0
Saved path m r = r.1 ≡ none → (bytes : Bytes) × (m ≡ some bytes) × (read_file r.0 path ≡ some bytes)

save_result-Saved :
    (path : Location) (bytes : Bytes) (r : Disk × Answer Unit)
    → (r.1 ≡ done _ → (k : ℕ) × (open_path r.0 path ≡ done (file k bytes)))
    → Saved path (some bytes) (save_result r)
unfolding save_result read_file read_opened
save_result-Saved path bytes (d, done u) w h = let (k, o) = w refl in (bytes, refl, rw o refl)
save_result-Saved path bytes (d, missing) w h = ground (arith, h)
save_result-Saved path bytes (d, refused) w h = ground (arith, h)

save_bytes-Saved :
    (c : Bytes) (p : Location) (m : Option Bytes) (r : Disk × Answer Unit)
    → r.0.nodes (c ∷ p) ≡ none
    → Saved (c ∷ p) m (save_bytes (c ∷ p) m r)
unfolding save_bytes
save_bytes-Saved c p none (d, done u) f h = ground (arith, h)
save_bytes-Saved c p (some bytes) (d, done u) f h =
    save_result-Saved (c ∷ p) bytes (write_file d 420 (c ∷ p) bytes)
      (open_path-write_file d c p bytes f) h
save_bytes-Saved c p m (d, missing) f h = ground (arith, h)
save_bytes-Saved c p m (d, refused) f h = ground (arith, h)

defaults_generated : apply_defaults generated_config ≡ generated_config
unfolding apply_defaults text_eq
defaults_generated = refl

-- The flags `-generate-config`, and none, with `-config`.
abbrev pub generating : FilePath → Flags
generating path = record {
  config = path;
  mode = [];
  generate_config = true;
  version = false;
  help = false;
}

abbrev pub plainly : FilePath → Flags
plainly path = record (generating path) { generate_config = false }

start_generated_inv :
    (r : Disk × Option SaveError)
    → (start_generated r).1 ≡ generated
    → (r.1 ≡ none) × ((start_generated r).0 ≡ r.0)
unfolding start_generated
start_generated_inv (d, none) h = (refl, refl)
start_generated_inv (d, some e) h = ground (arith, h)

save_generated-Saved :
    (marshal : Config → Option Bytes) (cwd : Location) (path : FilePath) (r : Disk × Answer Unit)
    → r.0.nodes (place cwd path) ≡ none
    → Saved (place cwd path) (marshal generated_config) (save_generated marshal cwd path r)
unfolding save_generated save_config
save_generated-Saved marshal cwd path (d, done u) f h =
    save_bytes-Saved path.name (directory cwd path.parent) (marshal generated_config)
      (make_parent path.parent d) (make_parent-nodes cwd path d ∙ f) h
save_generated-Saved marshal cwd path (d, missing) f h = ground (arith, h)
save_generated-Saved marshal cwd path (d, refused) f h = ground (arith, h)

generate_default_config-Saved :
    (marshal : Config → Option Bytes) (cwd : Location) (path : FilePath) (d : Disk)
    → d.nodes (place cwd path) ≡ none
    → Saved (place cwd path) (marshal generated_config) (generate_default_config marshal cwd path d)
unfolding generate_default_config
generate_default_config-Saved marshal cwd path d f =
    save_generated-Saved marshal cwd path (make_parent path.parent d)
      (make_parent-nodes cwd path d ∙ f)

start-loaded :
    (to_path : Bytes → FilePath) (cwd : Location) (d : Disk) (c : Config)
    → is_empty c.logging.output_file ≡ true
    → node_type c ≡ node_type_client
    → start_loaded to_path cwd [] (inr c) d ≡ (d, sets_up c node_type_client none)
unfolding start_loaded start_overridden override_mode start_logged initialize_logging
start-loaded to_path cwd d c o n = rw (o, n) refl

module _ (sys : System) (abs-is_abs : (s t : Bytes) → sys.abs s ≡ some t → is_abs t ≡ true)
    (ip : sys.parse_ip (codes "127.0.0.1") ≡ true)
    (nets : (sys.parse_cidr (codes "127.0.0.0/8") ≡ true)
      × (sys.parse_cidr (codes "::1/128") ≡ true))
    (here : sys.abs (codes "./data") ≢ none) where
  generated-IsConsistent : IsConsistent sys generated_config
  unfolding to_lower
  generated-IsConsistent = record {
    mode = inl refl;
    boostrap_nodes = λ e. cc e;
    name = λ e. cc e;
    port = (omega arith);
    socks5_port = λ e. omega arith;
    connections = omega arith;
    data_dir = λ e. here;
    bind_address = λ e. ip;
    allowed_networks = λ e. (nets.0, (nets.1, _));
    level = inr (inl refl);
    format = inl refl;
    selection_strategy = inr (inr (inl refl));
    preferred_exit_nodes = λ e. cc e;
  }

  load-generated :
      (unmarshal : Bytes → Option Config) (bytes : Bytes)
      → unmarshal bytes ≡ some generated_config
      → load_config sys unmarshal (some bytes) ≡ inr (normalised sys generated_config)
  load-generated unmarshal bytes u =
      let accepted =
        (validate_iff sys generated_config (normalised sys generated_config)).1
          (generated-IsConsistent, refl) in
      load_config_lem sys unmarshal bytes generated_config (normalised sys generated_config) u
        (ap (validate sys) defaults_generated ∙ accepted)

  module _ (marshal : Config → Option Bytes) (unmarshal : Bytes → Option Config)
      (to_path : Bytes → FilePath) (cwd : Location)
      (unmarshal-marshal : (bytes : Bytes)
        → marshal generated_config ≡ some bytes
        → unmarshal bytes ≡ some generated_config) where
    client : node_type (normalised sys generated_config) ≡ node_type_client
    unfolding node_type is_server_mode is_bootstrap_mode text_eq
    client = refl

    -- Where the JSON package reads the generated configuration back as it was written, the loopback
    -- address and the two local networks parse, and the data directory has an absolute path: when
    -- `-generate-config` has ended well, at a path where nothing stood, the next start with no other
    -- flag loads the file and comes to its call of `SetupNode`, for a client with a usable
    -- configuration, and has changed nothing on the disk up to that call.
    pub start-generated :
        (path : FilePath) (d : Disk)
        → d.nodes (place cwd path) ≡ none
        → (start sys marshal unmarshal to_path cwd (generating path) d).1 ≡ generated
        → let d' = (start sys marshal unmarshal to_path cwd (generating path) d).0 in
          (c : Config) × (start sys marshal unmarshal to_path cwd (plainly path) d'
            ≡ (d', sets_up c node_type_client none))
          × IsUsable c
          × (c.mode ≡ client_mode)
    unfolding start
    start-generated path d f h =
        let (written, same) = start_generated_inv (generate_default_config marshal cwd path d) h in
        let (bytes, m, stands) = generate_default_config-Saved marshal cwd path d f written in
        let loads = load-generated unmarshal bytes (unmarshal-marshal bytes m) in
        let reads : read_file (start_generated (generate_default_config marshal cwd path d)).0
              (place cwd path)
            ≡ some bytes =
          rw same stands in
        (
          normalised sys generated_config,
          rw (reads, loads)
              (start-loaded to_path cwd _ (normalised sys generated_config) refl client),
          load_config-IsUsable sys abs-is_abs unmarshal (some bytes)
              (normalised sys generated_config) loads,
          refl,
        )
