-- ===== src/Relay/Target.antt =====
-- The target address on its way to the exit node: `sendTargetAddr` of server/handlers/socks5.go and
-- `readTargetAddr` of server/handlers/relay.go. A length byte stands before the address.
pub mod RoundTrip
use goxic.Prelude.{ℕ, ◌%◌, [], ◌∷◌, Bytes, ◌||◌, if◌then◌else◌, ◌==◌, ltb, length}
use goxic.Wire.{
  Io, Outcome, ok, err, ◌>>=◌, ◌>>◌, fail, invalid_address_length, read, read_full, write,
}

-- `byte(len(addrBytes))` keeps the low eight bits of the length.
pub send_target_addr : Bytes → Io (Unit {0})
send_target_addr addr = do write (length addr % 256 ∷ []); write addr

-- `buf[0]` of a buffer of one byte.
abbrev first_byte : Bytes → ℕ
first_byte [] = 0
first_byte (b ∷ s) = b

pub read_target_addr : Io Bytes
read_target_addr = do
  length_bytes ← read 1
  let addr_length = first_byte length_bytes
  if addr_length == 0 || ltb 255 addr_length
      then fail (invalid_address_length addr_length)
      else read_full addr_length
