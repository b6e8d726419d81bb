-- ===== src/Wire.antt =====
-- A connection or stream as the handlers see it through Go's `io` interfaces: `Read` takes bytes of
-- one segment that has arrived, `io.ReadFull` reads on until its buffer is full, and `Write` appends
-- to what the other side receives.
pub mod Laws
use goxic.Prelude.{
  ℕ, zero, suc, ◌-◌, ◌≡◌, Bool, List, [], ◌∷◌, ◌++◌, Option, none, some, flatten, ◌==◌, Bytes,
  if◌then◌else◌, is_empty, leb, length, take, drop, replicate,
}

-- The errors of the handlers, and those that they pass on.
pub data WireError : Type 0 where
  eof : WireError
  unexpected_eof : WireError
  write_failed : WireError
  unsupported_version : ℕ → WireError
  no_acceptable_methods : WireError
  unsupported_command : ℕ → WireError
  unsupported_address_type : ℕ → WireError
  invalid_address_length : ℕ → WireError

-- The segments still to arrive, what was written, and whether a write succeeds.
pub record Conn : Type 0 where
  pub inbox : List Bytes
  pub outbox : Bytes
  pub writable : Bool

abbrev pub conn : List Bytes → Bytes → Bool → Conn
conn inbox outbox writable = record { inbox = inbox; outbox = outbox; writable = writable }

pub data Outcome {ℓ} (A : Type ℓ) : Type ℓ where
  ok : A → Conn → Outcome A
  err : WireError → Conn → Outcome A

-- What a handler does with a connection. An error keeps what was read and written before it.
abbrev pub Io : Type 0 → Type 0
Io A = Conn → Outcome A

abbrev pub pure : {A : Type 0} → A → Io A
pure a c = ok a c

abbrev pub fail : {A : Type 0} → WireError → Io A
fail e c = err e c

infixl 5 ◌>>=◌ ◌>>◌
abbrev pub ◌>>=◌ : {A B : Type 0} → Io A → (A → Io B) → Io B
◌>>=◌ m f c = elim (m c) [ ok a d ↦ f a d | err e d ↦ err e d ]

abbrev pub ◌>>◌ : {A B : Type 0} → Io A → Io B → Io B
m >> k = m >>= λ _. k

-- A segment less the bytes that were read from it.
abbrev pub remaining : Bytes → List Bytes → List Bytes
remaining rest segments = if is_empty rest then segments else rest ∷ segments

-- `make([]byte, n)` and one `Read` into it: the buffer, whose end stays zero after a short read. A
-- buffer of no bytes is filled at once.
unfoldable pub read : ℕ → Io Bytes
read zero c = ok [] c
read (suc n) c = elim c.inbox [
  | [] ↦ err eof c
  | segment ∷ segments ↦
      ok (take (suc n) segment ++ replicate (suc n - length segment) 0)
        (record c { inbox = remaining (drop (suc n) segment) segments })
]

-- The loop of `io.ReadFull`: the bytes still wanted, those read before, and the segments to come.
fill : ℕ → Bytes → List Bytes → Option (Bytes × List Bytes)
fill n got [] = if n == 0 then some (got, []) else none
fill n got (segment ∷ segments) =
    let more = fill (n - length segment) (got ++ segment) segments in
    if leb n (length segment)
    then some (got ++ take n segment, remaining (drop n segment) segments)
    else more

-- `make([]byte, n)` and `io.ReadFull` into it.
pub read_full : ℕ → Io Bytes
unfolding fill
read_full n c = elim (fill n [] c.inbox) [
  | some (buffer, segments) ↦ ok buffer (record c { inbox = segments })
  | none ↦
      err (if is_empty (flatten c.inbox) then eof else unexpected_eof) (record c { inbox = [] })
]

-- `Write`.
unfoldable pub write : Bytes → Io (Unit {0})
write bytes c =
    if c.writable then ok tt (record c { outbox = c.outbox ++ bytes }) else err write_failed c

-- `Write` where the caller does not look at the error.
unfoldable pub write_unchecked : Bytes → Io (Unit {0})
unfolding write
write_unchecked bytes c = elim (write bytes c) [ ok _ d ↦ ok tt d | err _ d ↦ ok tt d ]
