-- ===== src/Dht/Distance.antt =====
-- Which bucket an id belongs to, by the size of its distance read as a number
-- (`bucket_idx` and `xor_dist` of phinet-core/src/dht.rs).
use Prim.Native.Nat.{bit_xor}
use native.Mathlib.Nat.{pow-succ'}
use native.Mathlib.Numerals.{towards_suc}
use phinet.Prelude.{
  ℕ, zero, suc, ◌+◌, ◌-◌, ◌*◌, ◌^◌, ◌≤◌, ◌<◌, ◌≡◌, ◌≢◌, refl, List, [], ◌∷◌, Bool, true, false,
  ◌&&◌, ◌||◌, not, ◌∙◌, arith, length, All, leb, ltb, nat_eqb, Bool-cases, inl, inr,
}
use phinet.Prelude.Word.{IsByte, every_below, every_below_lem}
use phinet.Dht.{NodeId, xor_dist, leading_zeros, bucket_from, bucket_idx, node_id_bits}

-- Bytes as a big-endian number.
pub value : List ℕ → ℕ
value [] = 0
value (b ∷ bs) = b * 2 ^ (8 * length bs) + value bs

pow_shift : (n : ℕ) → 2 ^ (8 * suc n) ≡ 256 * 2 ^ (8 * n)
pow_shift n = let e : 8 * suc n ≡ 8 * n + 8 = omega arith in rw e (simp towards_suc (omega arith))

bracket :
    (lo hi b p v : ℕ) → lo ≤ b → suc b ≤ hi → v < p → (lo * p ≤ b * p + v) × (b * p + v < hi * p)
bracket lo hi b p v h k l = grind arith

value-lt : (bs : List ℕ) → All IsByte bs → value bs < 2 ^ (8 * length bs)
unfolding value
value-lt [] bytes = omega arith
value-lt (b ∷ bs) bytes = omega (
  arith,
  pow_shift (length bs),
  bracket 0 256 b (2 ^ (8 * length bs)) (value bs) (omega arith) bytes.0 (value-lt bs bytes.1),
)

-- The number of a byte's bits below its highest set bit.
abbrev high_bit : ℕ → ℕ
high_bit b = 7 - leading_zeros b

byte_holds : ℕ → Bool
byte_holds b =
    nat_eqb b 0
    || (leb (2 ^ high_bit b) b && ltb b (2 ^ suc (high_bit b)) && leb (leading_zeros b) 7)

byte_table : every_below 256 byte_holds ≡ true
unfolding every_below byte_holds leading_zeros
byte_table = refl

-- A byte that is not zero has its highest bit where `leading_zeros` says.
high_bit_bounds :
    (b : ℕ)
    → IsByte b
    → nat_eqb b 0 ≡ false
    → (2 ^ high_bit b ≤ b) × (suc b ≤ 2 ^ suc (high_bit b)) × (leading_zeros b ≤ 7)
unfolding byte_holds
high_bit_bounds b byte nonzero = ground (arith, every_below_lem 256 b byte_holds byte_table byte)

pow-add : (n j : ℕ) → 2 ^ (n + j) ≡ 2 ^ j * 2 ^ n
pow-add n zero = let e : n + 0 ≡ n = omega arith in rw e (omega arith)
pow-add n (suc j) =
    let e : n + suc j ≡ suc (n + j) = omega arith in
    rw (e, pow-succ' 2 (n + j), pow-add n j, pow-succ' 2 j) (grind arith)

module _ (i : ℕ) (b : ℕ) (bs : List ℕ) (at_end : i * 8 + 8 * suc (length bs) ≡ 256) where
  index_here :
      leading_zeros b ≤ 7
      → node_id_bits - 1 - (i * 8 + leading_zeros b) ≡ 8 * length bs + high_bit b
  index_here h = omega (arith, at_end, h)

  bucket_here :
      IsByte b
      → nat_eqb b 0 ≡ false
      → All IsByte bs
      → (2 ^ (8 * length bs + high_bit b) ≤ value (b ∷ bs))
        × (value (b ∷ bs) < 2 ^ suc (8 * length bs + high_bit b))
  unfolding value
  bucket_here byte nonzero bytes =
      let bounds = high_bit_bounds b byte nonzero in
      let e : suc (8 * length bs + high_bit b) ≡ 8 * length bs + suc (high_bit b) = omega arith in
      rw (e, pow-add (8 * length bs) (high_bit b), pow-add (8 * length bs) (suc (high_bit b)))
        (bracket (2 ^ high_bit b) (2 ^ suc (high_bit b)) b (2 ^ (8 * length bs)) (value bs) bounds.0
          bounds.1 (value-lt bs bytes))

bucket_from-bounds :
    (i : ℕ) (bs : List ℕ)
    → i * 8 + 8 * length bs ≡ 256
    → All IsByte bs
    → value bs ≢ 0
    → (2 ^ bucket_from i bs ≤ value bs) × (value bs < 2 ^ suc (bucket_from i bs))
unfolding bucket_from
bucket_from-bounds i [] at_end bytes nonzero = absurd (nonzero (unfold value in refl))
bucket_from-bounds i (b ∷ bs) at_end bytes nonzero = elim (Bool-cases (nat_eqb b 0)) [
  | inl skip ↦
      let same : value (b ∷ bs) ≡ value bs = unfold value in ground arith in
      rw (skip, same)
        (bucket_from-bounds (i + 1) bs (omega (arith, at_end)) bytes.1 (λ h. nonzero (same ∙ h)))
  | inr here ↦
      let bounds = high_bit_bounds b bytes.0 here in
      rw (here, index_here i b bs at_end bounds.2) (bucket_here i b bs at_end bytes.0 here bytes.1)
]

length-xor_dist : (x y : NodeId) → length x ≡ length y → length (xor_dist x y) ≡ length x
unfolding xor_dist
length-xor_dist [] y h = refl
length-xor_dist (a ∷ x) [] h = absurd (omega arith)
length-xor_dist (a ∷ x) (b ∷ y) h = omega (arith, length-xor_dist x y (omega (arith, h)))

xor_holds : ℕ → ℕ → Bool
xor_holds a b = ltb (bit_xor a b) 256 && (nat_eqb a b || not (nat_eqb (bit_xor a b) 0))

xor_table : every_below 256 (λ a. every_below 256 (xor_holds a)) ≡ true
unfolding every_below xor_holds
xor_table = refl

xor-IsByte : (a b : ℕ) → IsByte a → IsByte b → IsByte (bit_xor a b) × (bit_xor a b ≡ 0 → a ≡ b)
unfolding xor_holds
xor-IsByte a b byte_a byte_b =
    let row = every_below_lem 256 a (λ x. every_below 256 (xor_holds x)) xor_table byte_a in
    let cell = every_below_lem 256 b (xor_holds a) row byte_b in ground (arith, cell)

xor_dist-bytes : (x y : NodeId) → All IsByte x → All IsByte y → All IsByte (xor_dist x y)
unfolding xor_dist
xor_dist-bytes [] y of_x of_y = tt
xor_dist-bytes (a ∷ x) [] of_x of_y = tt
xor_dist-bytes (a ∷ x) (b ∷ y) of_x of_y =
    ((xor-IsByte a b of_x.0 of_y.0).0, xor_dist-bytes x y of_x.1 of_y.1)

pow_pos : (n : ℕ) → 1 ≤ 2 ^ n
pow_pos zero = omega arith
pow_pos (suc n) = rw (pow-succ' 2 n) (omega (arith, pow_pos n))

value_zero : (b : ℕ) (bs : List ℕ) → value (b ∷ bs) ≡ 0 → (b ≡ 0) × (value bs ≡ 0)
unfolding value
value_zero b bs h = (grind (arith, pow_pos (8 * length bs)), omega (arith, h))

-- The distance is zero between equal ids only.
pub xor_dist-zero :
    (x y : NodeId)
    → length x ≡ length y
    → All IsByte x
    → All IsByte y
    → value (xor_dist x y) ≡ 0
    → x ≡ y
xor_dist-zero [] [] e of_x of_y h = refl
xor_dist-zero [] (b ∷ y) e of_x of_y h = absurd (omega arith)
xor_dist-zero (a ∷ x) [] e of_x of_y h = absurd (omega arith)
xor_dist-zero (a ∷ x) (b ∷ y) e of_x of_y h =
    let parts = value_zero (bit_xor a b) (xor_dist x y) (unfold xor_dist in h) in
    let heads = (xor-IsByte a b of_x.0 of_y.0).1 parts.0 in
    let tails = xor_dist-zero x y (omega (arith, e)) of_x.1 of_y.1 parts.1 in cc

-- A node id of 32 bytes other than the own goes to the bucket of the highest bit in which the
-- two differ: bucket i holds the ids at a distance from 2^i to 2^(i + 1), not included.
pub bucket_idx_bounds :
    (own_id id : NodeId)
    → length own_id ≡ 32
    → length id ≡ 32
    → All IsByte own_id
    → All IsByte id
    → own_id ≢ id
    → (2 ^ bucket_idx own_id id ≤ value (xor_dist own_id id))
      × (value (xor_dist own_id id) < 2 ^ suc (bucket_idx own_id id))
unfolding bucket_idx
bucket_idx_bounds own_id id own_length id_length of_own of_id apart =
    let e : length own_id ≡ length id = omega arith in
    bucket_from-bounds 0 (xor_dist own_id id) (omega (arith, length-xor_dist own_id id e))
      (xor_dist-bytes own_id id of_own of_id)
      (λ h. apart (xor_dist-zero own_id id e of_own of_id h))
