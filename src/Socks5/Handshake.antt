-- ===== src/Socks5/Handshake.antt =====
-- The greeting and the request of a SOCKS5 client: `handleAuthentication`, `handleRequest` and
-- `sendConnectResponse`.
pub mod Greeting
pub mod Request
use goxic.Prelude.{
  ℕ, ◌+◌, ◌*◌, ◌%◌, Bool, not, List, [], ◌∷◌, Bytes, ◌==◌, if◌then◌else◌, get_or, ◌^◌, has_byte,
}
use goxic.Wire.{
  Io, Outcome, ok, err, ◌>>=◌, ◌>>◌, pure, fail, unsupported_version, no_acceptable_methods,
  unsupported_command, unsupported_address_type, read, write, write_unchecked,
}
use goxic.Socks5.Address.{itoa, ip_string, join_host_port}

-- `buf[i]`; the buffer is long enough wherever it is used.
abbrev byte_at : Bytes → ℕ → ℕ
byte_at buf i = get_or buf i 0

pub negotiate : Bytes → Io (Unit {0})
negotiate methods =
    if has_byte 0 methods
    then write (5 ∷ 0 ∷ [])
    else do write_unchecked (5 ∷ 255 ∷ []); fail no_acceptable_methods

pub handle_authentication : Io (Unit {0})
handle_authentication = do
  buf ← read 2
  if not (byte_at buf 0 == 5)
      then fail (unsupported_version (byte_at buf 0))
      else do methods ← read (byte_at buf 1); negotiate methods

pub send_connect_response : ℕ → Io (Unit {0})
send_connect_response status = write_unchecked (5 ∷ status ∷ 0 ∷ 1 ∷ 0 ∷ 0 ∷ 0 ∷ 0 ∷ 0 ∷ 0 ∷ [])

-- The `switch atyp`.
pub read_address : ℕ → Io Bytes
read_address atyp =
    if atyp == 1
    then (do ip ← read 4; pure (ip_string ip))
    else if atyp == 3
    then (do len ← read 1; read (byte_at len 0))
    else if atyp == 4
    then (do ip ← read 16; pure (ip_string ip))
    else do send_connect_response 8; fail (unsupported_address_type atyp)

-- The shifted byte has no low bits, so `|` is a sum.
abbrev port_of : Bytes → ℕ
port_of buf = (byte_at buf 0 * 2 ^ 8) % 2 ^ 16 + byte_at buf 1

pub read_target : ℕ → Io Bytes
read_target atyp = do
  addr ← read_address atyp
  port_buf ← read 2
  pure (join_host_port addr (itoa (port_of port_buf)))

pub handle_request : Io Bytes
handle_request = do
  buf ← read 4
  if not (byte_at buf 0 == 5)
      then fail (unsupported_version (byte_at buf 0))
      else if not (byte_at buf 1 == 1)
      then (do send_connect_response 7; fail (unsupported_command (byte_at buf 1)))
      else read_target (byte_at buf 3)
