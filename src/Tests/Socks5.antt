-- ===== src/Tests/Socks5.antt =====
-- The theorems about the SOCKS5 handshake at concrete inputs.
use goxic.Prelude.{
  ◌+◌, ◌*◌, ◌≡◌, refl, [], ◌∷◌, ◌++◌, arith, Bytes, codes, length, replicate, ◌==◌, if◌then◌else◌,
  true,
}
use goxic.Wire.{conn, remaining, ok, err, unsupported_version}
use goxic.Socks5.Address.{itoa, join_host_port}
use goxic.Socks5.Handshake.{handle_authentication, handle_request}
use goxic.Socks5.Handshake.Greeting.{negotiated, handle_authentication_lem}
use goxic.Socks5.Handshake.Request.{
  Destination, domain, address_bytes, host_text, handle_request_connect, handle_request_split,
}
use goxic.Discovery.State.{DiscoverySettings}
use goxic.Prelude.{ℕ, ◌≢◌, none, some, false, text_eq}
use goxic.Prelude.Int.{pos}
use goxic.Discovery.Refresh.{State}
use goxic.Discovery.Available.{select_available_server}
use goxic.Socks5.Connection.{Streams, serve_connection}
use goxic.Socks5.Connection.Accounts.{Accounts, serve_connection-Accounts}
use goxic.Discovery.Loads.Count.{current_load_empty}
use goxic.Socks5.Connection.Delivered.{asks}
use goxic.Socks5.Limit.{arrives, ends, new_server, run_events}
use goxic.Socks5.Limit.Drift.{IsDrifted, at, pairs, run_events-IsDrifted, run_events-unlimited}
use goxic.Tests.Sample.{Name, alice, bob, carol, same_name, three, addr, calm, settings}

abbrev pub offered : Bytes
offered = 2 ∷ 0 ∷ []

handle_authentication_lem_example :
    handle_authentication (conn ((5 ∷ 2 ∷ (offered ++ 5 ∷ 1 ∷ [])) ∷ []) [] true) ≡ (
      if 5 == 5
      then negotiated offered (remaining (5 ∷ 1 ∷ []) []) []
      else err (unsupported_version 5) (conn (remaining (offered ++ 5 ∷ 1 ∷ []) []) [] true))
handle_authentication_lem_example = handle_authentication_lem 5 offered (5 ∷ 1 ∷ []) [] []

abbrev pub target : Destination
target = domain (codes "example.org")

handle_request_connect_example :
    handle_request
      (conn ((5 ∷ 1 ∷ 0 ∷ 3 ∷ (address_bytes target ++ (1 ∷ 187 ∷ codes "GET"))) ∷ []) [] true)
    ≡ ok
        (join_host_port (host_text target) (itoa (1 * 256 + 187)))
        (conn (remaining (codes "GET") []) [] true)
handle_request_connect_example =
    handle_request_connect target 0 1 187 (codes "GET") [] [] true tt (omega arith)

-- "example.org" whose last four bytes come in a second segment.
handle_request_split_example :
    handle_request (
      conn
        ((5 ∷ 1 ∷ 0 ∷ 3 ∷ (length (codes "example") + 4) ∷ codes "example")
          ∷ (46 ∷ 111 ∷ (114 ∷ 103 ∷ 1 ∷ 187 ∷ []))
          ∷ [])
        []
        true)
    ≡ ok
        (join_host_port (codes "example" ++ replicate 4 0) (itoa (46 * 256 + 111)))
        (conn (remaining (114 ∷ 103 ∷ 1 ∷ 187 ∷ []) []) [] true)
handle_request_split_example =
    handle_request_split (codes "example") (114 ∷ 103 ∷ 1 ∷ 187 ∷ []) 0 46 111 4 [] [] true
      (λ e. cc) (omega arith)

run_events-IsDrifted_example :
    IsDrifted (run_events (pos 1) new_server (arrives ∷ arrives ∷ arrives ∷ ends ∷ []))
run_events-IsDrifted_example =
    run_events-IsDrifted (pos 1) (arrives ∷ arrives ∷ arrives ∷ ends ∷ []) (omega arith)

run_events-unlimited_example :
    run_events (pos 100) new_server (replicate 101 arrives ++ pairs 100 (omega arith) 50)
    ≡ at 100 (omega arith) 101 (101 + 50) 50
run_events-unlimited_example = run_events-unlimited 100 (omega arith) 50

-- Every stream opens, except to Bob, and nothing is bridged.
abbrev pub net : Streams Name ℕ
net = record {
  new_stream = λ w p protocol. if same_name p bob then (w, none) else (w, some (conn [] [] true));
  bridge = λ w client stream. (w + 1, (client, stream));
  unix_nano = λ w. w;
  rand_intn = λ n. 0;
}

abbrev pub by_order : DiscoverySettings
by_order = record settings { selection_strategy = codes "first" }

abbrev pub known : Name → State three calm
known p = (
  7,
  record {
    server_peers = addr p ∷ [];
    last_update = 5;
    update_interval = pos 1000;
    server_loads = [];
    peer_failures = [];
    max_failures = pos 3;
    blacklist_time = pos 10;
    started = false;
  },
)

abbrev pub after : Name → State three calm
after p = (select_available_server three calm by_order net.rand_intn (known p)).0

pub chooses :
    (p : Name)
    → p ≢ alice
    → select_available_server three calm by_order net.rand_intn (known p) ≡ (after p, some (addr p))
unfolding select_available_server text_eq
chooses alice h = absurd (h refl)
chooses bob h = refl
chooses carol h = refl

-- Carol's stream opens, and the traffic is bridged.
serve_connection-Accounts_example :
    let client = conn (asks offered 0 target 1 187 [] []) [] true in
    Accounts three calm net by_order
      (λ p. 0)
      (known carol)
      client
      (serve_connection three calm net by_order (known carol) client)
serve_connection-Accounts_example =
    serve_connection-Accounts three calm net by_order (λ p. 0) (λ p. omega arith) (λ n h. h)
      (known carol) (λ p. current_load_empty three (known carol).1 p refl)
      (conn (asks offered 0 target 1 187 [] []) [] true)
