-- ===== src/Discovery/State.antt =====
-- The records of server/handlers/discovery.go, and the host of libp2p, which is not in the
-- repository and is a parameter.
use goxic.Prelude.{ℕ, ◌*◌, ◌^◌, Bool, false, List, [], Option, Bytes}
use goxic.Prelude.Int.{ℤ, pos, seconds}

-- `peer.AddrInfo`.
pub record AddrInfo (PeerId : Type 0) : Type 0 where
  pub id : PeerId
  pub addrs : List Bytes

-- `ServerLoadInfo`. Its `ResponseTime` is never set.
pub record ServerLoadInfo (PeerId : Type 0) : Type 0 where
  pub peer_id : PeerId
  pub active_conns : ℤ
  pub total_conns : ℤ
  pub last_used : ℕ

-- `PeerFailureInfo`. Time is counted in nanoseconds from Go's zero time.
pub record PeerFailureInfo (PeerId : Type 0) : Type 0 where
  pub peer_id : PeerId
  pub failure_count : ℤ
  pub last_failure : ℕ
  pub last_success : ℕ

-- `ServerSelectionStrategy` is a string, kept as its bytes. The other fields of `DiscoveryConfig`
-- are read elsewhere.
pub record ServerDiscovery (PeerId : Type 0) : Type 0 where
  pub server_peers : List (AddrInfo PeerId)
  pub last_update : ℕ
  pub update_interval : ℤ
  pub server_loads : List (PeerId × ServerLoadInfo PeerId)
  pub peer_failures : List (PeerId × PeerFailureInfo PeerId)
  pub max_failures : ℤ
  pub blacklist_time : ℤ
  pub started : Bool

abbrev pub ten_minutes : ℕ
ten_minutes = 10 * 60 * 10 ^ 9

-- `NewServerDiscovery`, given `Discovery.UpdateIntervalSec`.
unfoldable pub new_server_discovery : {PeerId : Type 0} → ℤ → ServerDiscovery PeerId
new_server_discovery update_interval_sec = record {
  server_peers = [];
  last_update = 0;
  update_interval = seconds update_interval_sec;
  server_loads = [];
  peer_failures = [];
  max_failures = pos 3;
  blacklist_time = pos ten_minutes;
  started = false;
}

-- libp2p's host and DHT. A call may change the state of the network, and time passes with it.
pub record Host (PeerId : Type 0) : Type 1 where
  pub World : Type 0
  pub self : PeerId
  -- `Network().Connectedness`: 0 is not connected, 1 is connected.
  pub connectedness : World → PeerId → ℕ
  -- `Connect` within a timeout; the result says whether it succeeded.
  pub connect : World → ℤ → AddrInfo PeerId → World × Bool
  pub close_peer : World → PeerId → World
  -- `Peerstore().GetProtocols`; `none` is an error.
  pub protocols : World → PeerId → Option (List Bytes)
  -- `FindPeers` for a service within a timeout: what its channel delivers, or an error.
  pub find_peers : World → ℤ → Bytes → World × Option (List (AddrInfo PeerId))
  pub sleep : World → ℕ → World
  pub now : World → ℕ

-- What discovery reads of the configuration: `Network.Name`, `Network.ConnectionTimeout`,
-- `Discovery.QueryTimeoutSec`, `MaxServers`, `SelectionStrategy` and `PreferredExitNodes`.
pub record DiscoverySettings : Type 0 where
  pub network_name : Bytes
  pub connection_timeout : ℤ
  pub query_timeout_sec : ℤ
  pub max_servers : ℤ
  pub selection_strategy : Bytes
  pub preferred_exit_nodes : List Bytes
