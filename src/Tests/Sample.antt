-- ===== src/Tests/Sample.antt =====
-- A network of three peers, and a host that stays connected to all of them.
use goxic.Prelude.{
  ℕ, ◌+◌, ◌≡◌, refl, ◌↔◌, Bool, true, false, [], ◌∷◌, Option, none, some, arith, Bytes, codes,
  text_eq, if◌then◌else◌,
}
use goxic.Prelude.Int.{pos}
use goxic.Peer.{PeerIds}
use goxic.Discovery.State.{AddrInfo, Host, DiscoverySettings}

pub data Name : Type 0 where
  alice bob carol : Name

abbrev pub same_name : Name → Name → Bool
same_name alice alice = true
same_name bob bob = true
same_name carol carol = true
same_name _ _ = false

pub same_name_iff : (a b : Name) → (same_name a b ≡ true) ↔ (a ≡ b)
same_name_iff a b = (λ h. ground arith, λ h. ground arith)

abbrev pub name_text : Name → Bytes
name_text alice = codes "Qa"
name_text bob = codes "Qb"
name_text carol = codes "Qc"

abbrev name_decode : Bytes → Option Name
name_decode s =
    if text_eq s (codes "Qa")
    then some alice
    else if text_eq s (codes "Qb")
    then some bob
    else if text_eq s (codes "Qc")
    then some carol
    else none

pub name_decode-name_text : (a : Name) → name_decode (name_text a) ≡ some a
unfolding text_eq
name_decode-name_text alice = refl
name_decode-name_text bob = refl
name_decode-name_text carol = refl

abbrev pub three : PeerIds
three = record {
  PeerId = Name;
  same = same_name;
  same_iff = same_name_iff;
  to_text = name_text;
  decode = name_decode;
  decode-to_text = name_decode-name_text;
}

abbrev pub addr : Name → AddrInfo Name
addr a = record { id = a; addrs = [] }

-- The state of the network is a clock. Alice is this node; everyone offers the relay protocol.
abbrev pub calm : Host Name
calm = record {
  World = ℕ;
  self = alice;
  connectedness = λ w p. 1;
  connect = λ w timeout p. (w, true);
  close_peer = λ w p. w;
  protocols = λ w p. some (codes "/goxic-proxy/relay/1.0.0" ∷ []);
  find_peers = λ w timeout name. (w, some (addr alice ∷ addr bob ∷ addr carol ∷ []));
  sleep = λ w d. w + d;
  now = λ w. w;
}

abbrev pub settings : DiscoverySettings
settings = record {
  network_name = codes "goxic-proxy";
  connection_timeout = pos 30;
  query_timeout_sec = pos 10;
  max_servers = pos 50;
  selection_strategy = codes "preferred";
  preferred_exit_nodes = codes "Qc" ∷ [];
}
