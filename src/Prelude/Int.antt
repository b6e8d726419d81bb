-- ===== src/Prelude/Int.antt =====
-- Go's `int`, signed, over the native numbers. Sums and orders go through the two parts of an
-- integer, which are numbers that the arithmetic tactics read.
use goxic.Prelude.{
  ℕ, suc, ◌+◌, ◌-◌, ◌*◌, ◌%◌, ◌^◌, ◌≤◌, ◌<◌, ◌≡◌, refl, Bool, arith, ltb, leb, ◌==◌, if◌then◌else◌,
}

-- `negsuc n` is -(n + 1).
pub data ℤ : Type 0 where
  pos : ℕ → ℤ
  negsuc : ℕ → ℤ

abbrev pub pos_part : ℤ → ℕ
pos_part (pos n) = n
pos_part (negsuc n) = 0

abbrev pub neg_part : ℤ → ℕ
neg_part (pos n) = 0
neg_part (negsuc n) = suc n

-- a - b, as an integer.
abbrev pub sub_ℕ : ℕ → ℕ → ℤ
sub_ℕ a b = if leb b a then pos (a - b) else negsuc (b - a - 1)

infix 50 ◌≤ℤ◌
infix 50 ◌<ℤ◌
abbrev pub ◌≤ℤ◌ : ℤ → ℤ → Type 0
a ≤ℤ b = pos_part a + neg_part b ≤ pos_part b + neg_part a

abbrev pub ◌<ℤ◌ : ℤ → ℤ → Type 0
a <ℤ b = pos_part a + neg_part b < pos_part b + neg_part a

abbrev pub ltb_ℤ : ℤ → ℤ → Bool
ltb_ℤ a b = ltb (pos_part a + neg_part b) (pos_part b + neg_part a)

abbrev pub eqb_ℤ : ℤ → ℤ → Bool
eqb_ℤ a b = (pos_part a + neg_part b) == (pos_part b + neg_part a)

-- The residue of an integer modulo 2 ^ w, and the signed w-bit integer with that bit pattern.
abbrev residue : ℕ → ℤ → ℕ
residue m (pos n) = n % m
residue m (negsuc n) = m - 1 - n % m

abbrev wrap_int64 : ℤ → ℤ
wrap_int64 x =
    let r = residue (2 ^ 64) x in if ltb r (2 ^ 63) then pos r else negsuc (2 ^ 64 - 1 - r)

abbrev pub wrap_int32 : ℤ → ℤ
wrap_int32 x =
    let r = residue (2 ^ 32) x in if ltb r (2 ^ 31) then pos r else negsuc (2 ^ 32 - 1 - r)

-- int32 and int64 addition.
abbrev pub add_int32 : ℤ → ℤ → ℤ
add_int32 a b = wrap_int32 (sub_ℕ (pos_part a + pos_part b) (neg_part a + neg_part b))

abbrev add_int64 : ℤ → ℤ → ℤ
add_int64 a b = wrap_int64 (sub_ℕ (pos_part a + pos_part b) (neg_part a + neg_part b))

abbrev pub max_int : ℕ
max_int = 2 ^ 63 - 1

eq_of_parts : (a b : ℤ) → pos_part a + neg_part b ≡ pos_part b + neg_part a → a ≡ b
eq_of_parts a b h = ground arith

pub eqb_ℤ_sound : (a b : ℤ) → eqb_ℤ a b ≡ Bool.true → a ≡ b
eqb_ℤ_sound a b h = ground arith

-- `x++` and `x--` of Go's 64-bit `int`.
pub inc_int : ℤ → ℤ
inc_int x = add_int64 x (pos 1)

pub dec_int : ℤ → ℤ
dec_int x = add_int64 x (negsuc 0)

pub inc_int_pos : (n : ℕ) → n < max_int → inc_int (pos n) ≡ pos (n + 1)
unfolding inc_int
inc_int_pos n h = ground arith

pub dec_int_pos : (n : ℕ) → n < max_int → dec_int (pos (n + 1)) ≡ pos n
unfolding dec_int
dec_int_pos n h = ground arith

-- A 64-bit integer.
abbrev pub IsInt64 : ℤ → Type 0
IsInt64 x = (x ≤ℤ pos max_int) × (neg_part x ≤ 2 ^ 63)

pub inc_int-IsInt64 : (x : ℤ) → IsInt64 (inc_int x)
unfolding inc_int
inc_int-IsInt64 x = (ground arith, ground arith)

pub dec_int-IsInt64 : (x : ℤ) → IsInt64 (dec_int x)
unfolding dec_int
dec_int-IsInt64 x = (ground arith, ground arith)

pub dec_int_zero : dec_int (pos 0) ≡ negsuc 0
unfolding dec_int
dec_int_zero = refl

-- A `time.Duration` of so many seconds, in nanoseconds.
unfoldable pub seconds : ℤ → ℤ
seconds (pos n) = wrap_int64 (pos (n * 10 ^ 9))
seconds (negsuc n) = wrap_int64 (negsuc ((n + 1) * 10 ^ 9 - 1))

-- `t.Sub(u)`: the difference of two times, kept within the range of a `Duration`.
abbrev pub time_sub : ℕ → ℕ → ℤ
time_sub t u =
    if leb u t
    then (if leb (t - u) max_int then pos (t - u) else pos max_int)
    else (if leb (u - t) (max_int + 1) then negsuc (u - t - 1) else negsuc max_int)
