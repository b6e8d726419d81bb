-- ===== src/Tests/Session.antt =====
-- A whole session, and the assembly of a node, at concrete inputs.
use goxic.Prelude.{
  ℕ, ◌+◌, ◌≡◌, refl, true, List, [], ◌∷◌, ◌++◌, none, some, Bytes, codes, arith, flatten, has_byte,
  text_eq,
}
use goxic.Wire.{conn, remaining}
use goxic.Relay.Protocol.{relay_version, base_protocol}
use goxic.Relay.Target.RoundTrip.{framed}
use goxic.Relay.Exit.{Dialer, after_dial, handle_stream}
use goxic.Discovery.Loads.{release_connection}
use goxic.Discovery.Available.{select_available_server}
use goxic.Socks5.Address.{join_host_port, itoa}
use goxic.Socks5.Handshake.Request.{reply}
use goxic.Socks5.Connection.{serve_connection, proxy_name}
use goxic.Socks5.Connection.Delivered.{asks, target_of}
use goxic.Session.{serve_connection-handle_stream}
use goxic.Tests.Sample.{Name, carol, three, addr, calm}
use goxic.Tests.Relay.{names, cut_inbox}
use goxic.Tests.Socks5.{offered, target, net, by_order, known, after, chooses}

-- Carol's network: every target answers "HTTP" at once.
abbrev far : Dialer Name ℕ
far = record {
  new_stream = λ v p protocol. (v, none);
  dial_timeout = λ v address. (v, some (conn (codes "HTTP" ∷ []) [] true));
  bridge = λ v stream conn. (v + 1, (stream, conn));
}

serve_connection-handle_stream_example :
    (serve_connection three calm net by_order
        (known carol)
        (conn (asks offered 0 target 1 187 [] []) [] true)
      ≡ (let (w', (client, stream)) =
            net.bridge 7
              (conn (remaining [] []) ((5 ∷ 0 ∷ []) ++ reply 0) true)
              (conn [] (framed (target_of target 1 187)) true) in
          ((w', release_connection three carol (after carol).1), (client, some stream))))
    × ((left : List Bytes) × (flatten left ≡ codes "GET")
        × (handle_stream three far
              (base_protocol relay_version (proxy_name 7))
              (conn cut_inbox [] true)
              9
            ≡ after_dial three far
                (target_of target 1 187)
                (conn left [] true)
                (far.dial_timeout 9 (target_of target 1 187))))
unfolding has_byte select_available_server text_eq join_host_port itoa
serve_connection-handle_stream_example =
    serve_connection-handle_stream three names calm net by_order offered [] 0 1 187 target [] refl
      tt (omega arith) (omega arith) (known carol) (after carol) (addr carol) 7 [] far
      (conn cut_inbox [] true) (codes "GET") 9 (chooses carol (λ e. cc)) refl
      ((λ e. cc), ((λ e. cc), tt)) refl
