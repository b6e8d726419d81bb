-- ===== src/Tests/Relay.antt =====
-- The relay theorems at concrete inputs.
use goxic.Prelude.{
  ◌≡◌, ◌≢◌, ◌≤◌, ◌↔◌, ◌%◌, refl, true, false, contains, strip_prefix, List, [], ◌∷◌, ◌++◌, some,
  arith, Bytes, codes, length, take, drop, flatten, replicate,
}
use goxic.Wire.{Conn, conn, ok}
use goxic.Wire.Laws.{IsDelivered}
use goxic.Relay.Protocol.{SubMatches, find_submatch}
use goxic.Relay.Protocol.Language.{Matches, find_submatch_iff}
use goxic.Relay.Hop.{open_relay, travel, exited, unfinished}
use goxic.Relay.Hop.Route.{IsName, travel-open_relay}
use goxic.Relay.Hop.Bounded.{travel-finished}
use goxic.Relay.Closure.{GoError, is_normal_connection_closure}
use goxic.Relay.Target.{read_target_addr, send_target_addr}
use goxic.Relay.Target.RoundTrip.{framed, read-send, read-send_truncated}
use goxic.Tests.Sample.{Name, alice, bob, carol, three, name_text}

pub names : (a : Name) → IsName (name_text a)
names alice = ((λ e. cc, omega arith), omega arith)
names bob = ((λ e. cc, omega arith), omega arith)
names carol = ((λ e. cc, omega arith), omega arith)

abbrev proxy_7 : Bytes
proxy_7 = codes "proxy-7"

travel-open_relay_example :
    (protocol : Bytes) × (open_relay three proxy_7 (alice ∷ bob ∷ carol ∷ [])
      ≡ some (alice, protocol))
    × (travel three 3 protocol ≡ (bob ∷ carol ∷ [], exited (codes "1.0.0") proxy_7))
travel-open_relay_example =
    travel-open_relay three names proxy_7 alice (bob ∷ carol ∷ []) 3 (λ e. cc, omega arith)
      (omega arith)

abbrev odd_protocol : Bytes
odd_protocol = codes "/goxic-proxy/relay/x/proxy/y/next/Qb/next//next/Qz"

travel-finished_example :
    ((travel three 60 odd_protocol).1 ≢ unfinished)
    × (length (travel three 60 odd_protocol).0 ≤ length odd_protocol)
travel-finished_example = travel-finished three odd_protocol 60 (omega arith)

abbrev odd_groups : SubMatches
odd_groups = record {
  version = codes "x";
  proxy_id = codes "y";
  next_peers = codes "Qb/next//next/Qz";
}

find_submatch_iff_example :
    (find_submatch odd_protocol ≡ some odd_groups) ↔ Matches odd_protocol odd_groups
find_submatch_iff_example = find_submatch_iff odd_protocol odd_groups

abbrev host_port : Bytes
host_port = codes "example.org:443"

-- The framed address cut into two segments, with the first bytes of the payload behind it.
abbrev pub cut_inbox : List Bytes
cut_inbox = take 5 (framed host_port) ∷ (drop 5 (framed host_port) ++ codes "GET") ∷ []

read-send_example :
    (left : List Bytes) × (read_target_addr (conn cut_inbox [] true)
      ≡ ok host_port (conn left [] true))
    × (flatten left ≡ codes "GET")
read-send_example =
    read-send host_port (codes "GET") (conn cut_inbox [] true) ((λ e. cc), ((λ e. cc), tt)) refl
      (omega arith) (omega arith)

abbrev long_address : Bytes
long_address = replicate 260 b'a'

read-send_truncated_example :
    (sent : Bytes) × (send_target_addr long_address (conn [] [] true)
      ≡ ok tt (conn [] ([] ++ sent) true))
    × ((rest : Bytes) (c : Conn)
        → IsDelivered c.inbox
        → flatten c.inbox ≡ sent ++ rest
        → (left : List Bytes) × (read_target_addr c
            ≡ ok (take (length long_address % 256) long_address) (record c { inbox = left }))
          × (flatten left ≡ drop (length long_address % 256) long_address ++ rest)
          × (take (length long_address % 256) long_address ≢ long_address))
read-send_truncated_example =
    read-send_truncated long_address (conn [] [] true) refl (omega arith) (omega arith)

-- A stream that was cut off within a read, and a refused connection.
abbrev cut_off : GoError
cut_off = record { wraps = λ t. false; text = codes "unexpected EOF" }

abbrev no_listener : GoError
no_listener = record { wraps = λ t. false; text = codes "connection refused" }

cut_off_is_normal : is_normal_connection_closure (some cut_off) ≡ true
unfolding is_normal_connection_closure contains strip_prefix
cut_off_is_normal = refl

no_listener_is_logged : is_normal_connection_closure (some no_listener) ≡ false
unfolding is_normal_connection_closure contains strip_prefix
no_listener_is_logged = refl
