-- ===== src/Discovery/Select/Strategy.antt =====
-- What each strategy selects.
use mathlib.Core.Bool.{false≢true}
use goxic.Prelude.{
  ℕ, zero, suc, ◌<◌, ◌≡◌, ◌⊎◌, inl, inr, refl, sym, ap, subst, ◌∙◌, Bool, true, false, List, [],
  ◌∷◌, Option, none, some, arith, Bytes, if◌then◌else◌, Elem, Bool-cases, get_elem?, length,
  text_eq, text_eq_iff, text_eq_sound, All-Elem,
}
use goxic.Prelude.Int.{ℤ, pos, ◌≤ℤ◌, max_int}
use goxic.Peer.{PeerIds}
use goxic.Discovery.State.{AddrInfo, ServerDiscovery}
use goxic.Discovery.Loads.{track_connection, current_load}
use goxic.Discovery.Select.{
  is_preferred, preferred_servers, select_first_server, select_random_server,
  select_load_balanced_server, select_preferred_server, select_by, select_server,
}
use goxic.Discovery.Select.Least.{IsLeast, best_server-IsLeast}

module _ (peers : PeerIds) where
  open peers use {PeerId, to_text}

  -- The state's loads are 64-bit integers.
  abbrev pub HasInt64Loads : ServerDiscovery PeerId → Type 0
  HasInt64Loads sd = (p : PeerId) → current_load peers sd p ≤ℤ pos max_int

  -- On a list with at least one server, and with loads that are 64-bit integers, load balancing
  -- selects a server of the list with the fewest active connections, and tracks one more for it.
  pub select_load_balanced_server-IsLeast :
      (now : ℕ) (sd : ServerDiscovery PeerId) (s : AddrInfo PeerId) (ss : List (AddrInfo PeerId))
      → HasInt64Loads sd
      → (t : AddrInfo PeerId) × (select_load_balanced_server peers now sd (s ∷ ss)
          ≡ some (t, track_connection peers now t.id sd))
        × IsLeast peers (current_load peers sd) (s ∷ ss) t
  unfolding select_load_balanced_server
  select_load_balanced_server-IsLeast now sd s ss h =
      let (t, e, l) = best_server-IsLeast peers (current_load peers sd) s ss (h s.id) in
      (t, rw (e, select_load_balanced_server), l)

  -- The configuration names the server.
  abbrev IsNamed : List Bytes → AddrInfo PeerId → Type 0
  IsNamed ids s = Elem (to_text s.id) ids

  is_preferred-IsNamed :
      (ids : List Bytes) (s : AddrInfo PeerId) → is_preferred peers ids s ≡ true → IsNamed ids s
  unfolding is_preferred
  is_preferred-IsNamed [] s h = false≢true h
  is_preferred-IsNamed (id ∷ ids) s h = elim (Bool-cases (text_eq (to_text s.id) id)) [
    | inl e ↦ inl (text_eq_sound (to_text s.id) id e)
    | inr e ↦ inr (is_preferred-IsNamed ids s (ground (arith, e)))
  ]

  IsNamed-is_preferred :
      (ids : List Bytes) (s : AddrInfo PeerId) → IsNamed ids s → is_preferred peers ids s ≡ true
  unfolding is_preferred
  IsNamed-is_preferred [] s h = elim h [ ]
  IsNamed-is_preferred (id ∷ ids) s (inl e) = ground (arith, (text_eq_iff (to_text s.id) id).1 e)
  IsNamed-is_preferred (id ∷ ids) s (inr h) = ground (arith, IsNamed-is_preferred ids s h)

  kept :
      (ids : List Bytes) (s : AddrInfo PeerId) (ss : List (AddrInfo PeerId))
      → is_preferred peers ids s ≡ true
      → preferred_servers peers ids (s ∷ ss) ≡ s ∷ preferred_servers peers ids ss
  unfolding preferred_servers
  kept ids s ss e = rw e

  dropped :
      (ids : List Bytes) (s : AddrInfo PeerId) (ss : List (AddrInfo PeerId))
      → is_preferred peers ids s ≡ false
      → preferred_servers peers ids (s ∷ ss) ≡ preferred_servers peers ids ss
  unfolding preferred_servers
  dropped ids s ss e = rw e

  Elem-preferred_servers :
      (ids : List Bytes) (t : AddrInfo PeerId) (ss : List (AddrInfo PeerId))
      → Elem t (preferred_servers peers ids ss)
      → Elem t ss × IsNamed ids t
  Elem-preferred_servers ids t [] h =
      let nothing : ⊥ = unfold preferred_servers in h in absurd nothing
  Elem-preferred_servers ids t (s ∷ ss) h = elim (Bool-cases (is_preferred peers ids s)) [
    | inl e ↦ elim (subst (Elem t) (kept ids s ss e) h) [
      | inl f ↦ (inl f, is_preferred-IsNamed ids t (ap (is_preferred peers ids) f ∙ e))
      | inr m ↦ let (a, b) = Elem-preferred_servers ids t ss m in (inr a, b)
    ]
    | inr e ↦
        let (a, b) = Elem-preferred_servers ids t ss (subst (Elem t) (dropped ids s ss e) h) in
        (inr a, b)
  ]

  preferred_servers-Elem :
      (ids : List Bytes) (t : AddrInfo PeerId) (ss : List (AddrInfo PeerId))
      → Elem t ss
      → IsNamed ids t
      → Elem t (preferred_servers peers ids ss)
  preferred_servers-Elem ids t [] h n = elim h [ ]
  preferred_servers-Elem ids t (s ∷ ss) (inl f) n =
      subst (Elem t)
        (sym (kept ids s ss (ap (is_preferred peers ids) (sym f) ∙ IsNamed-is_preferred ids t n)))
        (inl f)
  preferred_servers-Elem ids t (s ∷ ss) (inr m) n =
      let ih = preferred_servers-Elem ids t ss m n in
      elim (Bool-cases (is_preferred peers ids s)) [
        | inl e ↦ subst (Elem t) (sym (kept ids s ss e)) (inr ih)
        | inr e ↦ subst (Elem t) (sym (dropped ids s ss e)) ih
      ]

  -- What `selectPreferredServer` should select: a named server with the lowest load of those, or,
  -- where none is named, a server with the lowest load of all.
  abbrev IsBestPreferred :
      List Bytes → (PeerId → ℤ) → List (AddrInfo PeerId) → AddrInfo PeerId → Type 0
  IsBestPreferred ids load servers t =
      (IsNamed ids t
        × ((u : AddrInfo PeerId) → Elem u servers → IsNamed ids u → load t.id ≤ℤ load u.id))
      ⊎ (((u : AddrInfo PeerId) → Elem u servers → ¬ IsNamed ids u)
          × ((u : AddrInfo PeerId) → Elem u servers → load t.id ≤ℤ load u.id))

  select_preferred_from :
      (ids : List Bytes) (now : ℕ) (sd : ServerDiscovery PeerId) (s : AddrInfo PeerId)
      (ss preferred : List (AddrInfo PeerId))
      → HasInt64Loads sd
      → preferred_servers peers ids (s ∷ ss) ≡ preferred
      → (t : AddrInfo PeerId) × (select_preferred_server peers ids now sd (s ∷ ss)
          ≡ some (t, track_connection peers now t.id sd))
        × Elem t (s ∷ ss)
        × IsBestPreferred ids (current_load peers sd) (s ∷ ss) t
  unfolding select_preferred_server
  select_preferred_from ids now sd s ss [] h e =
      let (t, f, l) = select_load_balanced_server-IsLeast now sd s ss h in
      (
        t,
        rw (e, select_preferred_server) f,
        l.listed,
        inr (
          λ u m n. subst (Elem u) e (preferred_servers-Elem ids u (s ∷ ss) m n),
          λ u m. All-Elem _ u (s ∷ ss) l.least m,
        ),
      )
  select_preferred_from ids now sd s ss (p ∷ ps) h e =
      let (t, f, l) = select_load_balanced_server-IsLeast now sd p ps h in
      let (m, n) = Elem-preferred_servers ids t (s ∷ ss) (subst (Elem t) (sym e) l.listed) in
      (
        t,
        rw (e, select_preferred_server) f,
        m,
        inl (
          n,
          λ u k j.
              All-Elem _ u (p ∷ ps) l.least
                (subst (Elem u) e (preferred_servers-Elem ids u (s ∷ ss) k j)),
        ),
      )

  -- On a list with at least one server, and with loads that are 64-bit integers, the preferred
  -- strategy selects a server of the list, and tracks one connection to it: where the configuration
  -- names servers of the list, one of them that has the fewest connections among them, and otherwise
  -- one that has the fewest of all.
  select_preferred_server-IsBest :
      (ids : List Bytes) (now : ℕ) (sd : ServerDiscovery PeerId) (s : AddrInfo PeerId)
      (ss : List (AddrInfo PeerId))
      → HasInt64Loads sd
      → (t : AddrInfo PeerId) × (select_preferred_server peers ids now sd (s ∷ ss)
          ≡ some (t, track_connection peers now t.id sd))
        × Elem t (s ∷ ss)
        × IsBestPreferred ids (current_load peers sd) (s ∷ ss) t
  select_preferred_server-IsBest ids now sd s ss h = select_preferred_from ids now sd s ss _ h refl

  -- A selection that gives a server of the list and tracks one connection to it.
  abbrev Selects :
      ℕ
      → ServerDiscovery PeerId
      → List (AddrInfo PeerId)
      → Option (AddrInfo PeerId × ServerDiscovery PeerId)
      → Type 0
  Selects now sd servers r =
      (t : AddrInfo PeerId) × (r ≡ some (t, track_connection peers now t.id sd)) × Elem t servers

  get_elem?-Elem :
      (servers : List (AddrInfo PeerId)) (i : ℕ)
      → i < length servers
      → (t : AddrInfo PeerId) × (get_elem? servers i ≡ some t) × Elem t servers
  get_elem?-Elem [] i h = elim h [ ]
  get_elem?-Elem (s ∷ ss) zero h = (s, refl, inl refl)
  get_elem?-Elem (s ∷ ss) (suc i) h =
      let (t, e, m) = get_elem?-Elem ss i (omega arith) in (t, e, inr m)

  select_random_server-Selects :
      (index now : ℕ) (sd : ServerDiscovery PeerId) (servers : List (AddrInfo PeerId))
      → index < length servers
      → Selects now sd servers (select_random_server peers index now sd servers)
  unfolding select_random_server
  select_random_server-Selects index now sd servers h =
      let (t, e, m) = get_elem?-Elem servers index h in (t, rw e, m)

  select_first_server-Selects :
      (now : ℕ) (sd : ServerDiscovery PeerId) (s : AddrInfo PeerId) (ss : List (AddrInfo PeerId))
      → Selects now sd (s ∷ ss) (select_first_server peers now sd (s ∷ ss))
  unfolding select_first_server
  select_first_server-Selects now sd s ss = (s, refl, inl refl)

  if-Selects :
      (b : Bool) (now : ℕ) (sd : ServerDiscovery PeerId) (servers : List (AddrInfo PeerId))
      (x y : Option (AddrInfo PeerId × ServerDiscovery PeerId))
      → Selects now sd servers x
      → Selects now sd servers y
      → Selects now sd servers (if b then x else y)
  if-Selects true now sd servers x y hx hy = hx
  if-Selects false now sd servers x y hx hy = hy

  -- Whatever the strategy is, unknown ones included, `SelectServer` fails exactly if no server is
  -- available, and otherwise selects an available server and tracks one connection to it. The
  -- loads are 64-bit integers, and the number that `rand.Intn` gives lies below its bound.
  pub select_server-Selects :
      (strategy : Bytes) (ids : List Bytes) (rand_intn : ℕ → ℕ) (now : ℕ)
      (sd : ServerDiscovery PeerId) (servers : List (AddrInfo PeerId))
      → HasInt64Loads sd
      → ((n : ℕ) → 0 < n → rand_intn n < n)
      → ((servers ≡ []) × (select_server peers strategy ids rand_intn now sd servers ≡ none))
        ⊎ Selects now sd servers (select_server peers strategy ids rand_intn now sd servers)
  unfolding select_server select_by
  select_server-Selects strategy ids rand_intn now sd [] h r = inl (refl, refl)
  select_server-Selects strategy ids rand_intn now sd (s ∷ ss) h r =
      let servers = s ∷ ss in
      let first = select_first_server-Selects now sd s ss in
      let (t, e, l) = select_load_balanced_server-IsLeast now sd s ss h in
      let (u, f, m, _) = select_preferred_server-IsBest ids now sd s ss h in
      inr (
        if-Selects _ now sd servers _ _ first (
          if-Selects _ now sd servers _ _
            (select_random_server-Selects _ now sd servers (r (length servers) (omega arith)))
            (if-Selects _ now sd servers _ _ (t, e, l.listed)
              (if-Selects _ now sd servers _ _ (u, f, m) first))))
