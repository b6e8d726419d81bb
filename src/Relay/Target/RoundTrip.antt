-- ===== src/Relay/Target/RoundTrip.antt =====
-- What the exit node reads of the address that the client sends.
use goxic.Prelude.{
  ◌%◌, ◌≤◌, ◌<◌, ◌≡◌, ◌∙◌, ap, List, [], ◌∷◌, ◌++◌, append_assoc, true, arith, Bytes, length,
  length-append, take, drop, flatten, take_all, drop_all, length-take_of_le, ◌≢◌, take-append_of_le,
  drop-append_of_le,
}
use goxic.Wire.{Conn, ok, write}
use goxic.Wire.Laws.{IsDelivered, write_ok, >>=_ok, read_one, read_full_enough}
use goxic.Relay.Target.{send_target_addr, read_target_addr}

-- The bytes that `sendTargetAddr` puts on the stream.
abbrev pub framed : Bytes → Bytes
framed addr = length addr % 256 ∷ addr

pub send_target_addr-outbox :
    (addr : Bytes) (c : Conn)
    → c.writable ≡ true
    → send_target_addr addr c ≡ ok tt (record c { outbox = c.outbox ++ framed addr })
unfolding send_target_addr
send_target_addr-outbox addr c h =
    let head = length addr % 256 ∷ [] in
    >>=_ok (write head) _ c tt _ (write_ok head c h)
    ∙ write_ok addr (record c { outbox = c.outbox ++ head }) h
    ∙ ap (λ o. ok tt (record c { outbox = o })) (append_assoc c.outbox head addr)

module _ (addr rest : Bytes) (c : Conn) (delivered : IsDelivered c.inbox)
    (sent : flatten c.inbox ≡ framed addr ++ rest) where
  read-framed :
      0 < length addr % 256
      → (left : List Bytes) × (read_target_addr c
          ≡ ok (take (length addr % 256) addr) (record c { inbox = left }))
        × (flatten left ≡ drop (length addr % 256) addr ++ rest)
  unfolding read_target_addr
  read-framed pos =
      let k = length addr % 256 in
      let (l1, e1, f1) = read_one c k (addr ++ rest) delivered sent in
      let fits : k ≤ length addr = omega arith in
      let (l2, e2, f2) =
        read_full_enough k (record c { inbox = l1 })
          (omega (arith, ap length f1, length-append addr rest)) in
      (
        l2,
        ground (arith, e1, e2, ap (take k) f1, take-append_of_le k addr rest fits),
        f2 ∙ ap (drop k) f1 ∙ drop-append_of_le k addr rest fits,
      )

  -- Where a stream delivers a framed address of 1 to 255 bytes and more bytes behind it, in segments
  -- that are not empty, the address is read back whole, and what follows stays for the target.
  pub read-send :
      0 < length addr
      → length addr ≤ 255
      → (left : List Bytes) × (read_target_addr c ≡ ok addr (record c { inbox = left }))
        × (flatten left ≡ rest)
  read-send pos fits =
      let (left, e, f) = read-framed (omega arith) in
      let whole : length addr % 256 ≡ length addr = omega arith in
      (
        left,
        cc (e, ap (λ k. take k addr) whole, take_all addr),
        cc (f, ap (λ k. drop k addr) whole, drop_all addr),
      )

  read-framed_truncated :
      255 < length addr
      → 0 < length addr % 256
      → (left : List Bytes) × (read_target_addr c
          ≡ ok (take (length addr % 256) addr) (record c { inbox = left }))
        × (flatten left ≡ drop (length addr % 256) addr ++ rest)
        × (take (length addr % 256) addr ≢ addr)
  read-framed_truncated long pos =
      let (left, e, f) = read-framed pos in
      (
        left,
        e,
        f,
        λ same.
            omega (arith, ap length same, length-take_of_le (length addr % 256) addr (omega arith)),
      )

-- The bug: on a stream that can be written, `sendTargetAddr` succeeds for an address longer than 255
-- bytes. Where the length is no multiple of 256, an exit node to which just what was sent is
-- delivered, with more bytes behind it and in segments that are not empty, reads only as many bytes
-- as the length modulo 256: it dials a cut address, and the target gets the end of the address as
-- data.
pub read-send_truncated :
    (addr : Bytes) (sender : Conn)
    → sender.writable ≡ true
    → 255 < length addr
    → 0 < length addr % 256
    → (sent : Bytes) × (send_target_addr addr sender
        ≡ ok tt (record sender { outbox = sender.outbox ++ sent }))
      × ((rest : Bytes) (c : Conn)
          → IsDelivered c.inbox
          → flatten c.inbox ≡ sent ++ rest
          → (left : List Bytes) × (read_target_addr c
              ≡ ok (take (length addr % 256) addr) (record c { inbox = left }))
            × (flatten left ≡ drop (length addr % 256) addr ++ rest)
            × (take (length addr % 256) addr ≢ addr))
read-send_truncated addr sender w long pos = (
  framed addr,
  send_target_addr-outbox addr sender w,
  λ rest c delivered sent. read-framed_truncated addr rest c delivered sent long pos,
)
