-- ===== src/Discovery/Select.antt =====
-- `SelectServer` behind its list of available servers, and the four selection functions.
pub mod Least
pub mod Strategy
pub mod Shared
pub mod Kept
use goxic.Prelude.{
  ℕ, Bool, true, false, not, List, [], ◌∷◌, ◌++◌, Option, none, some, Bytes, codes, if◌then◌else◌,
  get_elem?, is_empty, length, text_eq, ◌||◌, ◌>>=?◌,
}
use goxic.Prelude.Int.{ℤ, pos, ltb_ℤ, max_int}
use goxic.Peer.{PeerIds}
use goxic.Discovery.State.{AddrInfo, ServerDiscovery}
use goxic.Discovery.Loads.{track_connection, current_load}

-- The strategies of server/model/config.go.
abbrev pub selection_first : Bytes
selection_first = codes "first"

abbrev pub selection_random : Bytes
selection_random = codes "random"

abbrev pub selection_load_balance : Bytes
selection_load_balance = codes "load_balance"

abbrev pub selection_preferred : Bytes
selection_preferred = codes "preferred"

module _ (peers : PeerIds) where
  open peers use {PeerId, to_text}

  -- A selected server, and the state in which its connection is tracked. `none` is an index out of
  -- range.
  abbrev pub Selection : Type 0
  Selection = Option (AddrInfo PeerId × ServerDiscovery PeerId)

  selected : ℕ → ServerDiscovery PeerId → Option (AddrInfo PeerId) → Selection
  selected now sd server = server >>=? λ s. some (s, track_connection peers now s.id sd)

  pub select_first_server : ℕ → ServerDiscovery PeerId → List (AddrInfo PeerId) → Selection
  unfolding selected
  select_first_server now sd servers = selected now sd (get_elem? servers 0)

  -- The index is the result of `rand.Intn(len(servers))`.
  pub select_random_server : ℕ → ℕ → ServerDiscovery PeerId → List (AddrInfo PeerId) → Selection
  unfolding selected
  select_random_server index now sd servers = selected now sd (get_elem? servers index)

  -- The loop of `selectLoadBalancedServer`: `bestServer` and `bestLoad` so far.
  balance :
      (PeerId → ℤ)
      → List (AddrInfo PeerId)
      → Option (AddrInfo PeerId) × ℤ
      → Option (AddrInfo PeerId) × ℤ
  balance load [] best = best
  balance load (s ∷ ss) best =
      balance load ss (if ltb_ℤ (load s.id) best.1 then (some s, load s.id) else best)

  -- The server with the lowest load, or the first one.
  pub best_server : (PeerId → ℤ) → List (AddrInfo PeerId) → Option (AddrInfo PeerId)
  unfolding balance
  best_server load servers = elim ((balance load servers (none, pos max_int)).0) [
    | some s ↦ some s
    | none ↦ get_elem? servers 0
  ]

  pub select_load_balanced_server : ℕ → ServerDiscovery PeerId → List (AddrInfo PeerId) → Selection
  unfolding selected
  select_load_balanced_server now sd servers =
      selected now sd (best_server (current_load peers sd) servers)

  -- The inner loop of `selectPreferredServer`.
  pub is_preferred : List Bytes → AddrInfo PeerId → Bool
  is_preferred [] s = false
  is_preferred (id ∷ ids) s = text_eq (to_text s.id) id || is_preferred ids s

  pub preferred_servers : List Bytes → List (AddrInfo PeerId) → List (AddrInfo PeerId)
  preferred_servers ids [] = []
  preferred_servers ids (s ∷ ss) =
      let rest = preferred_servers ids ss in if is_preferred ids s then s ∷ rest else rest

  pub select_preferred_server :
      List Bytes → ℕ → ServerDiscovery PeerId → List (AddrInfo PeerId) → Selection
  unfolding select_load_balanced_server
  select_preferred_server ids now sd servers =
      let preferred = preferred_servers ids servers in
      if not (is_empty preferred)
      then select_load_balanced_server now sd preferred
      else select_load_balanced_server now sd servers

  -- The `switch strategy` of `SelectServer`. The number is what `rand.Intn` would give.
  pub select_by :
      Bytes → List Bytes → ℕ → ℕ → ServerDiscovery PeerId → List (AddrInfo PeerId) → Selection
  unfolding select_first_server select_random_server select_load_balanced_server
      select_preferred_server
  select_by strategy ids index now sd servers =
      if text_eq strategy selection_first
      then select_first_server now sd servers
      else if text_eq strategy selection_random
      then select_random_server index now sd servers
      else if text_eq strategy selection_load_balance
      then select_load_balanced_server now sd servers
      else if text_eq strategy selection_preferred
      then select_preferred_server ids now sd servers
      else select_first_server now sd servers

  -- `SelectServer`: an error where no server is available.
  unfoldable pub select_server :
      Bytes → List Bytes → (ℕ → ℕ) → ℕ → ServerDiscovery PeerId → List (AddrInfo PeerId) → Selection
  unfolding select_by
  select_server strategy ids rand_intn now sd servers =
      if is_empty servers
      then none
      else select_by strategy ids (rand_intn (length servers)) now sd servers
