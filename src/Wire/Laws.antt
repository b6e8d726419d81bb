-- ===== src/Wire/Laws.antt =====
-- `io.ReadFull` depends on the bytes that arrive, and not on how they are cut into segments.
use goxic.Prelude.{
  ℕ, zero, suc, ◌-◌, ◌≤◌, ◌<◌, ◌≡◌, refl, sym, ◌∙◌, ap, inl, inr, List, [], ◌∷◌, ◌++◌, append_assoc,
  append-nil, none, some, arith, Bytes, true, is_empty, leb, Bool-cases, length, length-append,
  take, drop, flatten, take-append_of_le, take-append_of_ge, drop-append_of_le, drop-append_of_ge,
  if◌then◌else◌, All, ◌≢◌,
}
use goxic.Prelude.{
  take_of_ge, drop_of_ge, replicate, Bool, true, drop-append_length, take-append_length,
}
use goxic.Wire.{
  conn, Conn, Io, ◌>>=◌, WireError, Outcome, ok, err, eof, unexpected_eof, remaining, fill, write,
  write_failed, read, read_full,
}

flatten-remaining :
    (rest : Bytes) (segments : List Bytes)
    → flatten (remaining rest segments) ≡ rest ++ flatten segments
flatten-remaining [] segments = refl
flatten-remaining (x ∷ rest) segments = refl

fill_enough :
    (n : ℕ) (got : Bytes) (segments : List Bytes)
    → n ≤ length (flatten segments)
    → (left : List Bytes) × (fill n got segments ≡ some (got ++ take n (flatten segments), left))
      × (flatten left ≡ drop n (flatten segments))
unfolding fill
fill_enough zero got [] h = ([], rw append-nil, refl)
fill_enough (suc n) got [] h = elim h [ ]
fill_enough n got (s ∷ ss) h = elim (Bool-cases (leb n (length s))) [
  | inl e ↦
      let small : n ≤ length s = ground arith in
      (
        remaining (drop n s) ss,
        rw (e, take-append_of_le n s (flatten ss) small),
        flatten-remaining (drop n s) ss ∙ sym (drop-append_of_le n s (flatten ss) small),
      )
  | inr e ↦
      let large : length s ≤ n = ground arith in
      let (left, f, g) =
        fill_enough (n - length s) (got ++ s) ss (omega (arith, length-append s (flatten ss))) in
      (
        left,
        rw (e, f, take-append_of_ge n s (flatten ss) large, append_assoc),
        g ∙ sym (drop-append_of_ge n s (flatten ss) large),
      )
]

fill_short :
    (n : ℕ) (got : Bytes) (segments : List Bytes)
    → length (flatten segments) < n
    → fill n got segments ≡ none
unfolding fill
fill_short zero got [] h = elim h [ ]
fill_short (suc n) got [] h = ground arith
fill_short n got (s ∷ ss) h =
    ground (arith, length-append s (flatten ss), fill_short (n - length s) (got ++ s) ss)

-- With enough bytes on the way the buffer is the front of them, and the rest is left.
pub read_full_enough :
    (n : ℕ) (c : Conn)
    → n ≤ length (flatten c.inbox)
    → (left : List Bytes) × (read_full n c
        ≡ ok (take n (flatten c.inbox)) (record c { inbox = left }))
      × (flatten left ≡ drop n (flatten c.inbox))
unfolding read_full
read_full_enough n c h =
    let (left, e, f) = fill_enough n [] c.inbox h in (left, rw (e, read_full), f)

-- With too few bytes it fails, whatever their segments.
read_full_short :
    (n : ℕ) (c : Conn)
    → length (flatten c.inbox) < n
    → read_full n c
      ≡ err (if is_empty (flatten c.inbox) then eof else unexpected_eof) (record c { inbox = [] })
unfolding read_full
read_full_short n c h = rw (fill_short n [] c.inbox h, read_full)

-- No segment is empty.
abbrev pub IsDelivered : List Bytes → Type 0
IsDelivered = All (λ s. s ≢ [])

read_one_segment :
    (segments : List Bytes) (c : Conn) (b : ℕ) (t : Bytes)
    → c.inbox ≡ segments
    → IsDelivered segments
    → flatten segments ≡ b ∷ t
    → (left : List Bytes) × (read 1 c ≡ ok (b ∷ []) (record c { inbox = left }))
      × (flatten left ≡ t)
unfolding read
read_one_segment [] c b t e d h = cc
read_one_segment ([] ∷ ss) c b t e d h = absurd (d.0 refl)
read_one_segment ((x ∷ s) ∷ ss) c b t e d h =
    (remaining s ss, ground arith, flatten-remaining s ss ∙ ground arith)

-- Reading one byte takes the first that arrives.
pub read_one :
    (c : Conn) (b : ℕ) (t : Bytes)
    → IsDelivered c.inbox
    → flatten c.inbox ≡ b ∷ t
    → (left : List Bytes) × (read 1 c ≡ ok (b ∷ []) (record c { inbox = left }))
      × (flatten left ≡ t)
read_one c b t = read_one_segment c.inbox c b t refl

pub write_ok :
    (bytes : Bytes) (c : Conn)
    → c.writable ≡ true
    → write bytes c ≡ ok tt (record c { outbox = c.outbox ++ bytes })
unfolding write
write_ok bytes c h =
    ap {B = Outcome (Unit {0})}
      (λ b. if b then ok tt (record c { outbox = c.outbox ++ bytes }) else err write_failed c) h

-- A step that succeeds hands its result on.
pub >>=_ok :
    {A B : Type 0} (m : Io A) (f : A → Io B) (c : Conn) (a : A) (d : Conn)
    → m c ≡ ok a d
    → (m >>= f) c ≡ f a d
>>=_ok m f c a d h = rw (h, ◌>>=◌)

pub >>=_err :
    {A B : Type 0} (m : Io A) (f : A → Io B) (c : Conn) (e : WireError) (d : Conn)
    → m c ≡ err e d
    → (m >>= f) c ≡ err e d
>>=_err m f c e d h = rw (h, ◌>>=◌)

-- A read of no more bytes than the first segment holds takes them, and leaves the rest of it.
pub read_exact :
    (xs ys : Bytes) (ss : List Bytes) (out : Bytes) (w : Bool)
    → xs ≢ []
    → read (length xs) (conn ((xs ++ ys) ∷ ss) out w) ≡ ok xs (conn (remaining ys ss) out w)
unfolding read
read_exact [] ys ss out w h = absurd (h refl)
read_exact (x ∷ xs) ys ss out w h =
    let none_missing : length (x ∷ xs) - length (x ∷ (xs ++ ys)) ≡ 0 =
      omega (arith, length-append xs ys) in
    rw (take-append_length xs ys, drop-append_length xs ys, none_missing, append-nil xs)

pub read-remaining :
    (xs ys : Bytes) (ss : List Bytes) (out : Bytes) (w : Bool)
    → read (length xs) (conn (remaining (xs ++ ys) ss) out w) ≡ ok xs (conn (remaining ys ss) out w)
read-remaining [] ys ss out w = unfold read in refl
read-remaining (x ∷ xs) ys ss out w = read_exact (x ∷ xs) ys ss out w (λ e. cc)

-- A read of more bytes than the first segment holds returns early, and leaves zeros behind them.
pub read_short :
    (n : ℕ) (xs : Bytes) (ss : List Bytes) (out : Bytes) (w : Bool)
    → xs ≢ []
    → length xs ≤ n
    → read n (conn (xs ∷ ss) out w) ≡ ok (xs ++ replicate (n - length xs) 0) (conn ss out w)
unfolding read
read_short n [] ss out w h le = absurd (h refl)
read_short zero (x ∷ xs) ss out w h le = elim le [ ]
read_short (suc n) (x ∷ xs) ss out w h le =
    rw (take_of_ge n xs (omega arith), drop_of_ge n xs (omega arith))
