-- ===== src/Socks5/Address.antt =====
-- The standard library's text forms that `handleRequest` uses: `strconv.Itoa` on ports, `String` of
-- an IPv4 or IPv6 address, and `net.JoinHostPort`.
use goxic.Prelude.{
  ℕ, zero, suc, ◌+◌, ◌-◌, ◌*◌, ◌/◌, ◌%◌, Bool, false, ◌&&◌, ◌||◌, List, [], ◌∷◌, ◌++◌, Bytes, ◌==◌,
  ltb, leb, if◌then◌else◌, length, take, drop, replicate, text_eq,
}

-- Digits before the text `out`. Each round divides by ten, so n rounds are enough for n.
unfoldable pub decimal : ℕ → ℕ → Bytes → Bytes
decimal zero n out = out
decimal (suc fuel) n out =
    let rest = decimal fuel (n / 10) ((b'0' + n % 10) ∷ out) in
    if ltb n 10 then (b'0' + n) ∷ out else rest

unfoldable pub itoa : ℕ → Bytes
unfolding decimal
itoa n = decimal (suc n) n []

dotted : Bytes → Bytes
unfolding itoa
dotted [] = []
dotted (b ∷ []) = itoa b
dotted (b ∷ c ∷ s) = itoa b ++ (b'.' ∷ dotted (c ∷ s))

abbrev hex_digit : ℕ → ℕ
hex_digit d = if ltb d 10 then b'0' + d else b'a' + (d - 10)

-- A group of an IPv6 address, without leading zeros.
hex : ℕ → ℕ → Bytes → Bytes
hex zero n out = out
hex (suc fuel) n out =
    let rest = hex fuel (n / 16) (hex_digit (n % 16) ∷ out) in
    if ltb n 16 then hex_digit n ∷ out else rest

groups : Bytes → List ℕ
groups [] = []
groups (a ∷ []) = []
groups (a ∷ b ∷ s) = (a * 256 + b) ∷ groups s

leading_zeros : List ℕ → ℕ
leading_zeros [] = 0
leading_zeros (g ∷ gs) = if g == 0 then suc (leading_zeros gs) else 0

-- Start and length of the first longest run of at least two zero groups; no run has length 0.
zero_run : ℕ → List ℕ → ℕ × ℕ → ℕ × ℕ
unfolding leading_zeros
zero_run i [] best = best
zero_run i (g ∷ gs) best =
    let l = leading_zeros (g ∷ gs) in
    zero_run (suc i) gs (if leb 2 l && ltb best.1 l then (i, l) else best)

-- The groups from place i on, with so many still to be passed over, and the run as `::`.
print_groups : ℕ × ℕ → ℕ → ℕ → List ℕ → Bytes
unfolding hex
print_groups run k i [] = []
print_groups run (suc k) i (g ∷ gs) = print_groups run k (suc i) gs
print_groups run zero i (g ∷ gs) =
    let after_run = print_groups run (run.1 - 1) (suc i) gs in
    let after_group = print_groups run 0 (suc i) gs in
    if ltb 0 run.1 && (i == run.0)
    then b':' ∷ b':' ∷ after_run
    else (if i == 0 || (ltb 0 run.1 && (i == run.0 + run.1)) then [] else b':' ∷ [])
      ++ (hex 4 g [] ++ after_group)

-- `net.IP.String` of 4 or 16 bytes; an address that maps an IPv4 address is printed as that one.
unfoldable pub ip_string : Bytes → Bytes
unfolding dotted groups zero_run print_groups
ip_string ip =
    if length ip == 4
    then dotted ip
    else if text_eq (take 12 ip) (replicate 10 0 ++ 255 ∷ 255 ∷ [])
    then dotted (drop 12 ip)
    else let gs = groups ip in print_groups (zero_run 0 gs (0, 0)) 0 0 gs

has_colon : Bytes → Bool
has_colon [] = false
has_colon (c ∷ s) = (c == b':') || has_colon s

unfoldable pub join_host_port : Bytes → Bytes → Bytes
unfolding has_colon
join_host_port host port =
    if has_colon host then b'[' ∷ (host ++ (b']' ∷ b':' ∷ port)) else host ++ (b':' ∷ port)
