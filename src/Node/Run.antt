-- ===== src/Node/Run.antt =====
-- `Run` of server/node/node.go and `Str2Peers` of server/utils/p2p.go. Whether a call of libp2p
-- succeeds is up to an environment, which knows the calls before it.
pub mod Outcome
pub mod Source
pub mod Advertise
use goxic.Prelude.{
  ℕ, suc, Bool, true, false, not, List, [], ◌∷◌, ◌++◌, Option, none, some, Bytes, codes, map, leb,
  if◌then◌else◌,
}
use goxic.Prelude.Int.{ℤ, seconds}
use goxic.Config.Record.{Config, NetworkConfig}

-- `peer.AddrInfoFromString` and `fmt.Sprintf` of an int, with libp2p's names of peers and their test
-- for equality.
pub record Peers : Type 1 where
  pub AddrInfo : Type 0
  pub addr_info_from_string : Bytes → Option AddrInfo
  pub PeerId : Type 0
  pub id : AddrInfo → PeerId
  pub same : PeerId → PeerId → Bool
  pub shown : ℤ → Bytes

-- The listen addresses.
listen_addrs : (ℤ → Bytes) → NetworkConfig → List Bytes
listen_addrs shown n =
    let port = shown n.port in
    let ip4 : List Bytes =
      (codes "/ip4/0.0.0.0/tcp/" ++ port)
      ∷ (codes "/ip4/0.0.0.0/udp/" ++ (port ++ codes "/quic-v1"))
      ∷ [] in
    let ip6 : List Bytes =
      (codes "/ip6/::/tcp/" ++ port) ∷ (codes "/ip6/::/udp/" ++ (port ++ codes "/quic-v1")) ∷ [] in
    if n.enable_ipv6 then ip4 ++ ip6 else ip4

module _ (peers : Peers) where
  open peers use {AddrInfo, addr_info_from_string, PeerId, id, same, shown}

  -- `Str2Peers`, which panics at an address that does not parse.
  unfoldable pub str2_peers : List Bytes → Option (List AddrInfo)
  str2_peers [] = some []
  str2_peers (s ∷ ss) = elim (addr_info_from_string s) [
    | none ↦ none
    | some info ↦ elim (str2_peers ss) [ none ↦ none | some infos ↦ some (info ∷ infos) ]
  ]

  -- The calls of `Run`, in its order; those of a goroutine for a bootstrap node are one. A host is
  -- made with its listen addresses, with hole punching or else as a relay client, and with the
  -- timeout of a dial. `FetchPrivKey` is two calls: `generate_key` fails where it has to make a key
  -- and gets none, whose nil value panics in `MarshalPrivateKey`; `load_key` is what it returns. The
  -- last two calls are those of `ShutdownNode`.
  pub data Call : Type 0 where
    generate_key : Call
    load_key : Call
    new_conn_manager : ℤ → ℤ → Call
    new_datastore : Call
    new_peerstore : Call
    new_dht : List AddrInfo → Bytes → Call
    new_host : List Bytes → Bool → ℤ → Call
    new_auto_relay : Call
    new_id_service : Call
    dial_bootstrap : AddrInfo → Call
    advertise : Bytes → Call
    bootstrap : Call
    new_gossip_sub : Call
    close_host : Call
    close_store : Call

  -- Whether a call succeeds after these.
  abbrev pub Environment : Type 0
  Environment = List Call → Call → Bool

  pub data Ended : Type 0 where
    runs : Ended
    fails : Ended
    panics : Ended

  -- The calls that were made, and the end.
  abbrev pub Ran : Type 0
  Ran = List Call × Ended

  abbrev pub go_on : Bool → (List Call → Ran) → Ended → List Call → Ran
  go_on true rest ended done = rest done
  go_on false rest ended done = (done, ended)

  -- `x, err := call(); if err != nil { return nil, err }`, with what follows.
  abbrev pub checked : Environment → Call → (List Call → Ran) → List Call → Ran
  checked env call rest done = go_on (env done call) rest fails (done ++ (call ∷ []))

  -- With `panic(err)`.
  abbrev pub must : Environment → Call → (List Call → Ran) → List Call → Ran
  must env call rest done = go_on (env done call) rest panics (done ++ (call ∷ []))

  -- With an error that is logged at most.
  abbrev pub tried : Call → (List Call → Ran) → List Call → Ran
  tried call rest done = rest (done ++ (call ∷ []))

  abbrev pub tried_if : Bool → Call → (List Call → Ran) → List Call → Ran
  tried_if test call rest done = rest (if test then done ++ (call ∷ []) else done)

  module _ (env : Environment) (c : Config) where
    unfoldable pub after_dials : List Call → Ran
    after_dials =
        tried (advertise c.network.name)
          (checked env bootstrap (checked env new_gossip_sub (λ (done : List Call). (done, runs))))

    unfoldable pub dial_all : List AddrInfo → List Call → Ran
    unfolding after_dials
    dial_all [] done = after_dials done
    dial_all (info ∷ infos) done = tried (dial_bootstrap info) (dial_all infos) done

    unfoldable pub after_host : List AddrInfo → List Call → Ran
    unfolding dial_all
    after_host infos =
        tried_if c.network.enable_auto_relay new_auto_relay
          (checked env new_id_service (dial_all infos))

    unfoldable pub after_parse : Option (List AddrInfo) → List Call → Ran
    unfolding after_host listen_addrs
    after_parse none done = (done, panics)
    after_parse (some infos) done =
        must env (new_dht infos (codes "/" ++ c.network.name))
          (checked env
            (new_host (listen_addrs shown c.network) c.network.enable_hole_punching
              (seconds c.network.dial_timeout))
            (after_host infos))
          done

    -- The error of `NewConnManager` is overwritten.
    unfoldable pub run : Ran
    unfolding after_parse
    run =
        must env generate_key
          (checked env load_key (
            tried (new_conn_manager c.network.min_connections c.network.max_connections) (
              checked env new_datastore
                (checked env new_peerstore (after_parse (str2_peers c.network.boostrap_nodes))))))
          []

  -- The goroutine of `peerSource`: the peers that `FindPeers` delivers, none where it fails, and what
  -- is sent to the channel. `sent` says whether the `select` takes the send, at each count.
  module _ (self : PeerId) (num : ℕ) (sent : ℕ → Bool) where
    unfoldable pub offer : List AddrInfo → ℕ → List AddrInfo
    offer [] count = []
    offer (info ∷ infos) count =
        let rest = offer infos (if same (id info) self then count else suc count) in
        if leb num count
        then []
        else if same (id info) self
        then rest
        else if sent count
        then info ∷ rest
        else []

    unfoldable pub peer_source : Option (List AddrInfo) → List AddrInfo
    unfolding offer
    peer_source none = []
    peer_source (some found) = offer found 0
