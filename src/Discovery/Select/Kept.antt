-- ===== src/Discovery/Select/Kept.antt =====
-- What a selection keeps: a property of discovery that tracking a connection keeps.
use goxic.Prelude.{
  ℕ, Bool, true, false, List, Option, none, some, Bytes, if◌then◌else◌, length, is_empty, get_elem?,
}
use goxic.Peer.{PeerIds}
use goxic.Discovery.State.{AddrInfo, ServerDiscovery}
use goxic.Discovery.Loads.{track_connection, current_load}
use goxic.Discovery.Select.{
  Selection, selected, select_first_server, select_random_server, best_server,
  select_load_balanced_server, preferred_servers, select_preferred_server, select_by, select_server,
}

module _ (peers : PeerIds) where
  open peers use {PeerId}

  -- The discovery behind a selection.
  unfoldable pub behind : ServerDiscovery PeerId → Selection peers → ServerDiscovery PeerId
  behind sd none = sd
  behind sd (some (server, sd')) = sd'

  module _ (K : ServerDiscovery PeerId → Type 0)
      (tracks : (now : ℕ) (p : PeerId) (sd : ServerDiscovery PeerId)
        → K sd
        → K (track_connection peers now p sd))
      (now : ℕ) (sd : ServerDiscovery PeerId) (kept : K sd) where
    if-keeps :
        (b : Bool) (x y : Selection peers)
        → K (behind sd x)
        → K (behind sd y)
        → K (behind sd (if b then x else y))
    if-keeps true x y hx hy = hx
    if-keeps false x y hx hy = hy

    selected-keeps :
        (server : Option (AddrInfo PeerId)) → K (behind sd (selected peers now sd server))
    unfolding selected behind
    selected-keeps none = kept
    selected-keeps (some server) = tracks now server.id sd kept

    select_load_balanced_server-keeps :
        (servers : List (AddrInfo PeerId))
        → K (behind sd (select_load_balanced_server peers now sd servers))
    unfolding select_load_balanced_server
    select_load_balanced_server-keeps servers =
        selected-keeps (best_server peers (current_load peers sd) servers)

    select_preferred_server-keeps :
        (ids : List Bytes) (servers : List (AddrInfo PeerId))
        → K (behind sd (select_preferred_server peers ids now sd servers))
    unfolding select_preferred_server
    select_preferred_server-keeps ids servers =
        if-keeps _ _ _ (select_load_balanced_server-keeps (preferred_servers peers ids servers))
          (select_load_balanced_server-keeps servers)

    select_by-keeps :
        (strategy : Bytes) (ids : List Bytes) (index : ℕ) (servers : List (AddrInfo PeerId))
        → K (behind sd (select_by peers strategy ids index now sd servers))
    unfolding select_by select_first_server select_random_server
    select_by-keeps strategy ids index servers =
        let first = selected-keeps (get_elem? servers 0) in
        if-keeps _ _ _ first (
          if-keeps _ _ _ (selected-keeps (get_elem? servers index)) (
            if-keeps _ _ _ (select_load_balanced_server-keeps servers)
              (if-keeps _ _ _ (select_preferred_server-keeps ids servers) first)))

    pub select_server-keeps :
        (strategy : Bytes) (ids : List Bytes) (rand_intn : ℕ → ℕ) (servers : List (AddrInfo PeerId))
        → K (behind sd (select_server peers strategy ids rand_intn now sd servers))
    unfolding select_server behind
    select_server-keeps strategy ids rand_intn servers =
        if-keeps (is_empty servers) none _ kept
          (select_by-keeps strategy ids (rand_intn (length servers)) servers)
