-- ===== src/Discovery/Select/Shared.antt =====
-- `selectLoadBalancedServer` called for several connections at a time. The lock of the loads is held
-- while they are read, and again in `TrackConnection`, but not in between.
pub mod Even
pub mod AtOnce
use goxic.Prelude.{ℕ, List, [], ◌∷◌, ◌++◌, Option, none, some, ◌==◌, if◌then◌else◌, map}
use goxic.Peer.{PeerIds}
use goxic.Discovery.State.{AddrInfo, ServerDiscovery}
use goxic.Discovery.Loads.{track_connection, current_load}
use goxic.Discovery.Select.{best_server}

-- A caller, and the time at which it tracks its connection.
abbrev pub Caller : Type 0
Caller = ℕ × ℕ

-- What happens under the lock: a caller reads the loads and keeps its best server, or it tracks a
-- connection to that server.
pub data Turn : Type 0 where
  reads : Caller → Turn
  tracks : Caller → Turn

-- Each caller is done before the next one starts.
abbrev pub one_by_one : List Caller → List Turn
one_by_one [] = []
one_by_one (c ∷ cs) = reads c ∷ tracks c ∷ one_by_one cs

-- All callers have read before one of them tracks.
abbrev pub at_once : List Caller → List Turn
at_once cs = map reads cs ++ map tracks cs

module _ (peers : PeerIds) where
  open peers use {PeerId}

  -- The records of discovery, and the server that each caller has chosen.
  pub record Shared : Type 0 where
    pub sd : ServerDiscovery PeerId
    pub chosen : ℕ → Option (AddrInfo PeerId)

  abbrev choose : ℕ → Option (AddrInfo PeerId) → Shared → Shared
  choose n server sh = record sh { chosen = λ m. if m == n then server else sh.chosen m }

  unfoldable pub track_chosen : ℕ → Option (AddrInfo PeerId) → Shared → Shared
  track_chosen now none sh = sh
  track_chosen now (some s) sh = record sh { sd = track_connection peers now s.id sh.sd }

  module _ (servers : List (AddrInfo PeerId)) where
    unfoldable pub turn : Shared → Turn → Shared
    unfolding track_chosen
    turn sh (reads (n, now)) = choose n (best_server peers (current_load peers sh.sd) servers) sh
    turn sh (tracks (n, now)) = track_chosen now (sh.chosen n) sh

    unfoldable pub turns : Shared → List Turn → Shared
    unfolding turn
    turns sh [] = sh
    turns sh (t ∷ ts) = turns (turn sh t) ts
