-- ===== src/Socks5/Digits.antt =====
-- What `strconv.Itoa` prints has nothing but digits.
use goxic.Prelude.{
  ℕ, zero, suc, ◌+◌, ◌/◌, ◌%◌, ◌<◌, ◌≢◌, [], ◌∷◌, Bytes, Lacks, ltb, Bool-cases, inl, inr, arith,
}
use goxic.Socks5.Address.{decimal, itoa}

module _ (b : ℕ) (apart : (digit : ℕ) → digit < 10 → b'0' + digit ≢ b) where
  decimal-Lacks : (fuel n : ℕ) (out : Bytes) → Lacks b out → Lacks b (decimal fuel n out)
  unfolding decimal
  decimal-Lacks zero n out h = h
  decimal-Lacks (suc fuel) n out h = elim (Bool-cases (ltb n 10)) [
    | inl e ↦ let small : n < 10 = ground (arith, e) in rw e (apart n small, h)
    | inr e ↦
        rw e (decimal-Lacks fuel (n / 10) ((b'0' + n % 10) ∷ out) (apart (n % 10) (omega arith), h))
  ]

  pub itoa-Lacks : (n : ℕ) → Lacks b (itoa n)
  unfolding itoa
  itoa-Lacks n = decimal-Lacks (suc n) n [] tt
