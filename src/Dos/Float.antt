-- ===== src/Dos/Float.antt =====
-- The floating-point numbers of phinet-core/src/dos.rs, as 64-bit IEEE numbers are rounded. All that
-- occur are multiples of 2^-83, since a nanosecond is more than 2^-30 of a second and a number has
-- 53 bits; here they are counted in that unit.
use phinet.Prelude.{
  ℕ, zero, suc, ◌+◌, ◌*◌, ◌/◌, ◌%◌, ◌^◌, ◌≤◌, ◌<◌, ◌≡◌, refl, max, ◌&&◌, ◌||◌, arith, Bool-cases,
  inl, inr, ltb, nat_eqb, if◌then◌else◌,
}

abbrev pub one : ℕ
one = 9671406556917033397649408

abbrev pub mantissa : ℕ
mantissa = 9007199254740992

-- What the last of the 53 bits of a number is worth, for numbers of at most 53 bits more than the
-- turns.
unfoldable pub quantum : ℕ → ℕ → ℕ
quantum zero n = 1
quantum (suc turns) n = let rest = quantum turns (n / 2) in if ltb n mantissa then 1 else 2 * rest

-- `p` to the nearest multiple of `q`, the even one of two that are as near.
unfoldable pub nearest : ℕ → ℕ → ℕ
nearest p q =
    let below = p / q in
    let left = p % q in
    if ltb q (2 * left) || (nat_eqb q (2 * left) && nat_eqb (below % 2) 1) then below + 1 else below

-- A quotient, rounded.
unfoldable pub rounded_in : ℕ → ℕ → ℕ → ℕ
unfolding quantum nearest
rounded_in turns a b = let last = quantum turns (a / b) in nearest a (last * b) * last

unfoldable pub rounded_ratio : ℕ → ℕ → ℕ
unfolding rounded_in
rounded_ratio a b = rounded_in 128 a b

unfoldable pub rounded : ℕ → ℕ
unfolding rounded_ratio
rounded n = rounded_ratio n 1

-- `Duration::as_secs_f64`
unfoldable pub as_secs_f64 : ℕ → ℕ
unfolding rounded
as_secs_f64 nanos =
    rounded
      (rounded (nanos / 1000000000 * one) + rounded_ratio (nanos % 1000000000 * one) 1000000000)

quantum-le : (turns n : ℕ) → quantum turns n * (mantissa / 2) ≤ max n (mantissa / 2)
unfolding quantum
quantum-le zero n = omega arith
quantum-le (suc turns) n = ground (arith, quantum-le turns (n / 2))

-- The turns are enough: a number of that size has 53 bits above the quantum.
quantum-ge : (turns n : ℕ) → n < mantissa * 2 ^ turns → n < quantum turns n * mantissa
unfolding quantum
quantum-ge zero n h = omega arith
quantum-ge (suc turns) n h =
    let power : 2 ^ suc turns ≡ 2 * 2 ^ turns = grind arith in
    let half : n / 2 < mantissa * 2 ^ turns = omega (arith, h, power) in
    ground (arith, quantum-ge turns (n / 2) half)

division : (p q : ℕ) → p ≡ p / q * q + p % q
division p q = grind arith

nearest-le : (p q : ℕ) → 0 < q → 2 * (nearest p q * q) ≤ 2 * p + q
unfolding nearest
nearest-le p q pos =
    elim (Bool-cases (ltb q (2 * (p % q)) || (nat_eqb q (2 * (p % q)) && nat_eqb (p / q % 2) 1))) [
      | inl over ↦ rw over (up (p / q) (p % q) (division p q) (ground (arith, over)))
      | inr under ↦ rw under (down (p / q) (p % q) (division p q))
    ]
  where
    up : (b r : ℕ) → p ≡ b * q + r → q ≤ 2 * r → 2 * ((b + 1) * q) ≤ 2 * p + q
    up b r whole late = grind arith

    down : (b r : ℕ) → p ≡ b * q + r → 2 * (b * q) ≤ 2 * p + q
    down b r whole = grind arith

quantum-pos : (turns n : ℕ) → 0 < quantum turns n
unfolding quantum
quantum-pos zero n = omega arith
quantum-pos (suc turns) n = ground (arith, quantum-pos turns (n / 2))

-- A quotient is rounded up by at most half of what its last bit is worth.
rounded_in-le :
    (turns a b bits : ℕ)
    → 0 < b
    → 1 ≤ bits
    → a / b ≤ bits * (mantissa / 2)
    → 2 * (rounded_in turns a b * b) ≤ 2 * a + bits * b
unfolding rounded_in
rounded_in-le turns a b bits pos some small =
    bounded (quantum turns (a / b)) (quantum-pos turns (a / b)) (quantum-le turns (a / b))
  where
    bounded :
        (last : ℕ)
        → 0 < last
        → last * (mantissa / 2) ≤ max (a / b) (mantissa / 2)
        → 2 * (nearest a (last * b) * last * b) ≤ 2 * a + bits * b
    bounded last last_pos last_le =
        let fits : last ≤ bits = omega (arith, last_le, some, small) in
        let near = nearest-le a (last * b) (grind arith) in
        let worth : last * b ≤ bits * b = grind arith in grind arith

pub rounded_ratio-le :
    (a b bits : ℕ)
    → 0 < b
    → 1 ≤ bits
    → a / b ≤ bits * (mantissa / 2)
    → 2 * (rounded_ratio a b * b) ≤ 2 * a + bits * b
unfolding rounded_ratio
rounded_ratio-le a b bits = rounded_in-le 128 a b bits

pub rounded-le : (n bits : ℕ) → 1 ≤ bits → n ≤ bits * (mantissa / 2) → 2 * rounded n ≤ 2 * n + bits
rounded-le n bits some small =
    let ratio = rounded_ratio-le n 1 bits (omega arith) some (omega (arith, small)) in
    let same : rounded n ≡ rounded_ratio n 1 = unfold rounded in refl in omega (arith, ratio, same)

-- Up to 81 seconds, seconds in floating point are at most 2^39 units too many.
pub as_secs_f64-le :
    (nanos : ℕ)
    → nanos ≤ 81 * 1000000000
    → as_secs_f64 nanos * 1000000000 ≤ nanos * one + 2 ^ 39 * 1000000000
as_secs_f64-le nanos small =
    let secs = nanos / 1000000000 in
    let left = nanos % 1000000000 in
    let whole = rounded-le (secs * one) (2 ^ 38) (omega arith) (omega (arith, small)) in
    let part =
      rounded_ratio-le (left * one) 1000000000 (2 ^ 31) (omega arith) (omega arith) (omega arith) in
    let sum =
      rounded-le (rounded (secs * one) + rounded_ratio (left * one) 1000000000) (2 ^ 38)
        (omega arith) (omega (arith, whole, part, small)) in
    let same : as_secs_f64 nanos
        ≡ rounded (rounded (secs * one) + rounded_ratio (left * one) 1000000000) =
      unfold as_secs_f64 in refl in
    omega (arith, whole, part, sum, same)
