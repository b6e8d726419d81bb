-- ===== src/Socks5/Handshake/Request.antt =====
-- What a client's request asks for, and what is replied to one that is not supported.
use goxic.Prelude.{
  ℕ, ◌+◌, ◌-◌, ◌*◌, ◌<◌, ◌≡◌, ◌≢◌, refl, sym, ◌^◌, ◌%◌, ◌&&◌, ◌||◌, append-nil, Bool-cases, inl,
  inr, ◌∙◌, ap, Bool, true, false, not, List, [], ◌∷◌, ◌++◌, arith, Bytes, ◌==◌, if◌then◌else◌,
  length, replicate,
}
use goxic.Wire.{
  conn, remaining, ok, err, WireError, unsupported_version, unsupported_command,
  unsupported_address_type, read, write, write_unchecked, fail, ◌>>◌,
}
use goxic.Wire.Laws.{read_exact, read_short, read-remaining, >>=_ok, >>=_err}
use goxic.Socks5.Address.{itoa, ip_string, join_host_port}
use goxic.Socks5.Handshake.{send_connect_response, read_address, read_target, handle_request}

-- A destination as the protocol (RFC 1928) has it.
pub data Destination : Type 0 where
  ipv4 : ℕ → ℕ → ℕ → ℕ → Destination
  domain : Bytes → Destination
  ipv6 : Bytes → Destination

abbrev pub address_type : Destination → ℕ
address_type (ipv4 a b c d) = 1
address_type (domain name) = 3
address_type (ipv6 ip) = 4

abbrev pub address_bytes : Destination → Bytes
address_bytes (ipv4 a b c d) = a ∷ b ∷ c ∷ d ∷ []
address_bytes (domain name) = length name ∷ name
address_bytes (ipv6 ip) = ip

abbrev pub host_text : Destination → Bytes
host_text (ipv4 a b c d) = ip_string (a ∷ b ∷ c ∷ d ∷ [])
host_text (domain name) = name
host_text (ipv6 ip) = ip_string ip

-- An IPv6 address has 16 bytes.
abbrev pub IsWellFormed : Destination → Type 0
IsWellFormed (ipv6 ip) = length ip ≡ 16
IsWellFormed _ = Unit {0}

read_address_lem :
    (t : Destination) (more : Bytes) (later : List Bytes) (out : Bytes) (w : Bool)
    → IsWellFormed t
    → read_address (address_type t) (conn (remaining (address_bytes t ++ more) later) out w)
      ≡ ok (host_text t) (conn (remaining more later) out w)
unfolding read_address
read_address_lem (ipv4 a b c d) more later out w h =
    let ip = a ∷ b ∷ c ∷ d ∷ [] in
    >>=_ok (read 4) _ _ ip (conn (remaining more later) out w) (read-remaining ip more later out w)
read_address_lem (domain name) more later out w h =
    let len = length name ∷ [] in
    >>=_ok (read 1) _ _ len (conn (remaining (name ++ more) later) out w)
      (read-remaining len (name ++ more) later out w)
    ∙ read-remaining name more later out w
read_address_lem (ipv6 ip) more later out w h =
    >>=_ok (read 16) _ _ ip (conn (remaining more later) out w) (
      ap (λ n. read n (conn (remaining (ip ++ more) later) out w)) (sym h)
      ∙ read-remaining ip more later out w)

read_target_lem :
    (t : Destination) (p q : ℕ) (more : Bytes) (later : List Bytes) (out : Bytes) (w : Bool)
    → IsWellFormed t
    → p < 256
    → read_target
        (address_type t)
        (conn (remaining (address_bytes t ++ (p ∷ q ∷ more)) later) out w)
      ≡ ok (join_host_port (host_text t) (itoa (p * 256 + q))) (conn (remaining more later) out w)
unfolding read_target
read_target_lem t p q more later out w h byte =
    let port : (p * 2 ^ 8) % 2 ^ 16 + q ≡ p * 256 + q = omega arith in
    >>=_ok (read_address (address_type t)) _ _ (host_text t)
      (conn (remaining (p ∷ q ∷ more) later) out w)
      (read_address_lem t (p ∷ q ∷ more) later out w h)
    ∙ >>=_ok (read 2) _ _ (p ∷ q ∷ []) (conn (remaining more later) out w)
        (read-remaining (p ∷ q ∷ []) more later out w)
    ∙ ap (λ n. ok (join_host_port (host_text t) (itoa n)) (conn (remaining more later) out w)) port

-- The four bytes in front of the address, read in one go.
module _ (version cmd rsv atyp : ℕ) (more : Bytes) (later : List Bytes) (out : Bytes)
    (w : Bool) where
  request_head :
      read 4 (conn ((version ∷ cmd ∷ rsv ∷ atyp ∷ more) ∷ later) out w)
      ≡ ok (version ∷ cmd ∷ rsv ∷ atyp ∷ []) (conn (remaining more later) out w)
  request_head = read_exact (version ∷ cmd ∷ rsv ∷ atyp ∷ []) more later out w (λ e. cc)

-- A CONNECT request that has arrived, for an IPv4 address, a domain name or an IPv6 address of 16
-- bytes, and a port in two bytes: the
-- target is the host and the port that it asks for, nothing is written, and what the client sends
-- behind the request stays to be read.
pub handle_request_connect :
    (t : Destination) (rsv p q : ℕ) (more : Bytes) (later : List Bytes) (out : Bytes) (w : Bool)
    → IsWellFormed t
    → p < 256
    → handle_request
        (conn ((5 ∷ 1 ∷ rsv ∷ address_type t ∷ (address_bytes t ++ (p ∷ q ∷ more))) ∷ later) out w)
      ≡ ok (join_host_port (host_text t) (itoa (p * 256 + q))) (conn (remaining more later) out w)
unfolding handle_request
handle_request_connect t rsv p q more later out w h byte =
    let rest = address_bytes t ++ (p ∷ q ∷ more) in
    >>=_ok (read 4) _ _ (5 ∷ 1 ∷ rsv ∷ address_type t ∷ []) (conn (remaining rest later) out w)
      (request_head 5 1 rsv (address_type t) rest later out w)
    ∙ read_target_lem t p q more later out w h byte

-- The reply of `sendConnectResponse` with a status.
abbrev pub reply : ℕ → Bytes
reply status = 5 ∷ status ∷ 0 ∷ 1 ∷ 0 ∷ 0 ∷ 0 ∷ 0 ∷ 0 ∷ 0 ∷ []

pub send_connect_response_lem :
    (status : ℕ) (inbox : List Bytes) (out : Bytes)
    → send_connect_response status (conn inbox out true)
      ≡ ok tt (conn inbox (out ++ reply status) true)
unfolding send_connect_response write_unchecked write
send_connect_response_lem status inbox out = refl

-- What a request that is refused gets: another version no answer, another command status 7, an
-- unknown type of address status 8.
abbrev refusal : ℕ → ℕ → ℕ → WireError × Bytes
refusal version cmd atyp =
    if not (version == 5)
    then (unsupported_version version, [])
    else if not (cmd == 1)
    then (unsupported_command cmd, reply 7)
    else (unsupported_address_type atyp, reply 8)

abbrev is_supported : ℕ → ℕ → ℕ → Bool
is_supported version cmd atyp =
    (version == 5) && (cmd == 1) && ((atyp == 1) || (atyp == 3) || (atyp == 4))

read_target_unknown :
    (atyp : ℕ) (inbox : List Bytes) (out : Bytes)
    → (atyp == 1 || atyp == 3 || atyp == 4) ≡ false
    → read_target atyp (conn inbox out true)
      ≡ err (unsupported_address_type atyp) (conn inbox (out ++ reply 8) true)
unfolding read_target read_address send_connect_response write_unchecked write
read_target_unknown atyp inbox out h =
    >>=_err (read_address atyp) _ (conn inbox out true) (unsupported_address_type atyp)
      (conn inbox (out ++ reply 8) true) (ground arith)

refused :
    (version cmd atyp : ℕ) (inbox : List Bytes) (out : Bytes)
    → is_supported version cmd atyp ≡ false
    → (if not (version == 5)
          then fail (unsupported_version version)
          else if not (cmd == 1)
          then send_connect_response 7 >> fail (unsupported_command cmd)
          else read_target atyp)
        (conn inbox out true)
      ≡ err (refusal version cmd atyp).0 (conn inbox (out ++ (refusal version cmd atyp).1) true)
unfolding send_connect_response write_unchecked write
refused version cmd atyp inbox out h = elim (Bool-cases (version == 5)) [
  | inr v ↦ rw (v, append-nil out)
  | inl v ↦ elim (Bool-cases (cmd == 1)) [
    | inr c ↦ rw (v, c)
    | inl c ↦ rw (v, c) (read_target_unknown atyp inbox out (ground (arith, v, c)))
  ]
]

-- A request whose four bytes in front of the address have arrived and that is not supported is
-- refused before any of its address is read: with another version there is no answer, and with
-- another command or type of address the client is sent its status.
handle_request_refuse :
    (version cmd rsv atyp : ℕ) (more : Bytes) (later : List Bytes) (out : Bytes)
    → is_supported version cmd atyp ≡ false
    → handle_request (conn ((version ∷ cmd ∷ rsv ∷ atyp ∷ more) ∷ later) out true)
      ≡ err
          (refusal version cmd atyp).0
          (conn (remaining more later) (out ++ (refusal version cmd atyp).1) true)
unfolding handle_request
handle_request_refuse version cmd rsv atyp more later out h =
    >>=_ok (read 4) _ _ (version ∷ cmd ∷ rsv ∷ atyp ∷ []) (conn (remaining more later) out true)
      (request_head version cmd rsv atyp more later out true)
    ∙ refused version cmd atyp (remaining more later) out h

read_address_split :
    (name : Bytes) (missing : ℕ) (later : List Bytes) (out : Bytes) (w : Bool)
    → name ≢ []
    → read_address 3 (conn (((length name + missing) ∷ name) ∷ later) out w)
      ≡ ok (name ++ replicate missing 0) (conn later out w)
unfolding read_address
read_address_split [] missing later out w h = absurd (h refl)
read_address_split (c ∷ name) missing later out w h =
    let n = length (c ∷ name) + missing in
    let gap : n - length (c ∷ name) ≡ missing = omega arith in
    >>=_ok (read 1) _ _ (n ∷ []) (conn ((c ∷ name) ∷ later) out w)
      (read_exact (n ∷ []) (c ∷ name) later out w (λ e. cc))
    ∙ read_short n (c ∷ name) later out w h (omega arith)
    ∙ ap (λ k. ok ((c ∷ name) ++ replicate k 0) (conn later out w)) gap

-- The bug: where a request's first segment ends within its domain name, behind at least one of its
-- bytes, the end is not waited for. The target's name
-- ends in zero bytes in place of the missing ones, and the port is taken from the missing ones.
pub handle_request_split :
    (name more : Bytes) (rsv p q missing : ℕ) (later : List Bytes) (out : Bytes) (w : Bool)
    → name ≢ []
    → p < 256
    → handle_request
        (conn ((5 ∷ 1 ∷ rsv ∷ 3 ∷ (length name + missing) ∷ name) ∷ (p ∷ q ∷ more) ∷ later) out w)
      ≡ ok
          (join_host_port (name ++ replicate missing 0) (itoa (p * 256 + q)))
          (conn (remaining more later) out w)
unfolding handle_request read_target
handle_request_split name more rsv p q missing later out w h byte =
    let rest = (length name + missing) ∷ name in
    let port : (p * 2 ^ 8) % 2 ^ 16 + q ≡ p * 256 + q = omega arith in
    >>=_ok (read 4) _ _ (5 ∷ 1 ∷ rsv ∷ 3 ∷ []) (conn (rest ∷ (p ∷ q ∷ more) ∷ later) out w)
      (request_head 5 1 rsv 3 rest ((p ∷ q ∷ more) ∷ later) out w)
    ∙ >>=_ok (read_address 3) _ _ (name ++ replicate missing 0)
        (conn ((p ∷ q ∷ more) ∷ later) out w)
        (read_address_split name missing ((p ∷ q ∷ more) ∷ later) out w h)
    ∙ >>=_ok (read 2) _ _ (p ∷ q ∷ []) (conn (remaining more later) out w)
        (read-remaining (p ∷ q ∷ []) more later out w)
    ∙ ap
        (λ n.
          ok (join_host_port (name ++ replicate missing 0) (itoa n))
            (conn (remaining more later) out w))
        port
