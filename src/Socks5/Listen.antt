-- ===== src/Socks5/Listen.antt =====
-- The address that `Start` of server/handlers/socks5.go listens on, and `net.SplitHostPort`, by which
-- `net.Listen` reads it.
use goxic.Prelude.{
  ℕ, suc, Bool, false, ◌||◌, [], ◌∷◌, ◌++◌, Option, none, some, Bytes, ◌==◌, ◌≡◌, refl,
  if◌then◌else◌, has_byte, Lacks-has_byte, span_not, Lacks, drop, text_eq, arith,
}
use goxic.Prelude.Int.{ℤ, pos, negsuc}
use goxic.Socks5.Address.{itoa}
use goxic.Socks5.Digits.{itoa-Lacks}

-- `%d` of an int.
abbrev format_int : ℤ → Bytes
format_int (pos n) = itoa n
format_int (negsuc n) = b'-' ∷ itoa (suc n)

-- `fmt.Sprintf("%s:%d", node.Config.SOCKS5.BindAddress, s.port)`.
abbrev pub listen_addr : Bytes → ℤ → Bytes
listen_addr bind_address port = bind_address ++ (b':' ∷ format_int port)

-- The text around the last of a byte.
unfoldable split_last : ℕ → Bytes → Option (Bytes × Bytes)
split_last b [] = none
split_last b (c ∷ s) = elim (split_last b s) [
  | some (h, p) ↦ some (c ∷ h, p)
  | none ↦ if c == b then some ([], s) else none
]

abbrev opens_bracket : Bytes → Bool
opens_bracket [] = false
opens_bracket (c ∷ s) = c == b'['

-- The host in brackets, where the first closing bracket stands just before the last colon.
unfoldable bracketed : Bytes → Bytes → Option (Bytes × Bytes)
bracketed host port =
    let (inner, rest) = span_not b']' (drop 1 host) in
    if text_eq rest (b']' ∷ [])
    then (if has_byte b'[' inner || (has_byte b'[' port || has_byte b']' port)
        then none
        else some (inner, port))
    else none

-- Without brackets the host may have no colon.
unfoldable pub plain : Bytes → Bytes → Option (Bytes × Bytes)
plain host port =
    if has_byte b':' host
    then none
    else if has_byte b'[' host || (has_byte b']' host || (has_byte b'[' port || has_byte b']' port))
    then none
    else some (host, port)

unfoldable at_colon : Bytes → Option (Bytes × Bytes) → Option (Bytes × Bytes)
unfolding bracketed plain
at_colon s none = none
at_colon s (some (host, port)) = if opens_bracket s then bracketed host port else plain host port

-- `net.SplitHostPort`, with none for its errors.
unfoldable pub split_host_port : Bytes → Option (Bytes × Bytes)
unfolding split_last at_colon
split_host_port s = at_colon s (split_last b':' s)

split_last-none : (b : ℕ) (s : Bytes) → Lacks b s → split_last b s ≡ none
unfolding split_last
split_last-none b [] h = refl
split_last-none b (c ∷ s) h = ground (arith, split_last-none b s h.1, h.0)

split_last_at : (b : ℕ) (s t : Bytes) → Lacks b t → split_last b (s ++ (b ∷ t)) ≡ some (s, t)
unfolding split_last
split_last_at b [] t h = ground (arith, split_last-none b t h)
split_last_at b (c ∷ s) t h = ground (arith, split_last_at b s t h)

opens_bracket-append :
    (host port : Bytes) → Lacks b'[' host → opens_bracket (host ++ (b':' ∷ port)) ≡ false
opens_bracket-append [] port h = refl
opens_bracket-append (c ∷ s) port h = ground (arith, h.0)

-- Where the bind address has no brackets, as no IP address has: the bind address and the port are
-- read back if it has no colon, and the address is refused if it has one, as an IPv6 address does.
pub split_host_port-listen_addr :
    (bind_address : Bytes) (port : ℕ)
    → Lacks b'[' bind_address
    → Lacks b']' bind_address
    → split_host_port (listen_addr bind_address (pos port))
      ≡ (if has_byte b':' bind_address then none else some (bind_address, itoa port))
unfolding split_host_port at_colon plain
split_host_port-listen_addr bind_address port l r =
    let digits : Lacks b':' (itoa port) = itoa-Lacks b':' (λ d s e. omega (arith, e)) port in
    let left : Lacks b'[' (itoa port) = itoa-Lacks b'[' (λ d s e. omega (arith, e)) port in
    let right : Lacks b']' (itoa port) = itoa-Lacks b']' (λ d s e. omega (arith, e)) port in
    rw
      (
        split_last_at b':' bind_address (itoa port) digits,
        opens_bracket-append bind_address (itoa port) l,
        Lacks-has_byte b'[' bind_address l,
        Lacks-has_byte b']' bind_address r,
        Lacks-has_byte b'[' (itoa port) left,
        Lacks-has_byte b']' (itoa port) right,
      )
      refl
