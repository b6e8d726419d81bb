-- ===== src/Socks5/Tests.antt =====
-- Runs of the SOCKS5 side at concrete inputs.
use goxic.Prelude.{◌≡◌, refl, [], ◌∷◌, ◌++◌, codes, replicate, text_eq}
use goxic.Socks5.Address.{itoa, ip_string}

itoa_port : itoa 65535 ≡ codes "65535"
unfolding itoa
itoa_port = refl

ipv4_text : ip_string (127 ∷ 0 ∷ 0 ∷ 1 ∷ []) ≡ codes "127.0.0.1"
unfolding ip_string
ipv4_text = refl

loopback_text : ip_string (replicate 15 0 ++ 1 ∷ []) ≡ codes "::1"
unfolding ip_string text_eq
loopback_text = refl

ipv6_text :
    ip_string (0x20 ∷ 0x01 ∷ 0x0d ∷ 0xb8 ∷ 0 ∷ 0 ∷ 0 ∷ 1 ∷ 0 ∷ 0 ∷ 0 ∷ 0 ∷ 0 ∷ 0 ∷ 0xab ∷ 0x0c ∷ [])
    ≡ codes "2001:db8:0:1::ab0c"
unfolding ip_string text_eq
ipv6_text = refl

any_text : ip_string (replicate 16 0) ≡ codes "::"
unfolding ip_string text_eq
any_text = refl
