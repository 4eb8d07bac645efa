-- ===== src/ExitPolicy/Ranges.antt =====
-- The address tests of phinet-core/src/exit_policy.rs, against the blocks that its comments name.
use Prim.Native.Nat.{bit_and}
use phinet.Prelude.{
  ℕ, ◌≡◌, refl, List, [], ◌∷◌, Bool, true, false, ◌&&◌, ◌||◌, not, arith, ltb, leb, nat_eqb,
  if◌then◌else◌,
}
use phinet.Prelude.Word.{from_be32, every_below, every_below_lem, IsByte}
use phinet.Circuit.Ipv4.{Ipv4Addr, IsAddr}
use phinet.ExitPolicy.{in_range, is_private_v4}

-- The first and the last address of a block, as numbers.
abbrev pub private_blocks : List (ℕ × ℕ)
private_blocks =
    (0x7F000000, 0x7FFFFFFF)  -- 127.0.0.0/8
    ∷ (0x0A000000, 0x0AFFFFFF)  -- 10.0.0.0/8
    ∷ (0xAC100000, 0xAC1FFFFF)  -- 172.16.0.0/12
    ∷ (0xC0A80000, 0xC0A8FFFF)  -- 192.168.0.0/16
    ∷ (0xA9FE0000, 0xA9FEFFFF)  -- 169.254.0.0/16
    ∷ (0xE0000000, 0xEFFFFFFF)  -- 224.0.0.0/4
    ∷ (0xFFFFFFFF, 0xFFFFFFFF)  -- 255.255.255.255
    ∷ (0xC0000200, 0xC00002FF)  -- 192.0.2.0/24
    ∷ (0xC6336400, 0xC63364FF)  -- 198.51.100.0/24
    ∷ (0xCB007100, 0xCB0071FF)  -- 203.0.113.0/24
    ∷ (0, 0)  -- 0.0.0.0
    ∷ (0x64400000, 0x647FFFFF)  -- 100.64.0.0/10
    ∷ (0xC6120000, 0xC613FFFF)  -- 198.18.0.0/15
    ∷ (0xF0000000, 0xFFFFFFFF)  -- 240.0.0.0/4
    ∷ []

abbrev pub in_some_block : Bool → List (ℕ × ℕ) → ℕ → Bool
in_some_block found [] n = found
in_some_block found ((lo, hi) ∷ blocks) n = in_some_block (found || (leb lo n && leb n hi)) blocks n

abbrev pub in_blocks : List (ℕ × ℕ) → ℕ → Bool
in_blocks blocks n = in_some_block false blocks n

abbrev pub to_number : Ipv4Addr → ℕ
to_number ip = from_be32 ip.a ip.b ip.c ip.d

nat_mask : ℕ → Bool
nat_mask b =
    (if nat_eqb (bit_and b 0xC0) 64 then leb 64 b && leb b 127 else not (leb 64 b && leb b 127))
    && (if nat_eqb (bit_and b 0xF0) 0xF0 then leb 240 b else ltb b 240)

mask_table : every_below 256 nat_mask ≡ true
unfolding every_below nat_mask
mask_table = refl

-- The two masks of the source, as ranges of a byte.
cgn_mask : (b : ℕ) → IsByte b → nat_eqb (bit_and b 0xC0) 64 ≡ (leb 64 b && leb b 127)
unfolding nat_mask
cgn_mask b byte = ground (arith, every_below_lem 256 b nat_mask mask_table byte)

class_e_mask : (b : ℕ) → IsByte b → nat_eqb (bit_and b 0xF0) 0xF0 ≡ leb 240 b
unfolding nat_mask
class_e_mask b byte = ground (arith, every_below_lem 256 b nat_mask mask_table byte)

abbrev in_block : ℕ → ℕ → Ipv4Addr → Bool
in_block lo hi ip = leb lo (to_number ip) && leb (to_number ip) hi

module _ (ip : Ipv4Addr) (addr : IsAddr ip) where
  loopback : (nat_eqb ip.a 127) ≡ in_block 0x7F000000 0x7FFFFFFF ip
  loopback = ground (arith)

  private_10 : (nat_eqb ip.a 10) ≡ in_block 0x0A000000 0x0AFFFFFF ip
  private_10 = ground (arith)

  private_172 : (nat_eqb ip.a 172 && in_range 16 31 ip.b) ≡ in_block 0xAC100000 0xAC1FFFFF ip
  private_172 = ground (arith)

  private_192 : (nat_eqb ip.a 192 && nat_eqb ip.b 168) ≡ in_block 0xC0A80000 0xC0A8FFFF ip
  private_192 = ground (arith)

  link_local : (nat_eqb ip.a 169 && nat_eqb ip.b 254) ≡ in_block 0xA9FE0000 0xA9FEFFFF ip
  link_local = ground (arith)

  multicast : (in_range 224 239 ip.a) ≡ in_block 0xE0000000 0xEFFFFFFF ip
  multicast = ground (arith)

  broadcast :
      (nat_eqb ip.a 255 && nat_eqb ip.b 255 && nat_eqb ip.c 255 && nat_eqb ip.d 255)
      ≡ in_block 0xFFFFFFFF 0xFFFFFFFF ip
  broadcast = ground (arith)

  documentation_1 :
      (nat_eqb ip.a 192 && nat_eqb ip.b 0 && nat_eqb ip.c 2) ≡ in_block 0xC0000200 0xC00002FF ip
  documentation_1 = ground (arith)

  documentation_2 :
      (nat_eqb ip.a 198 && nat_eqb ip.b 51 && nat_eqb ip.c 100) ≡ in_block 0xC6336400 0xC63364FF ip
  documentation_2 = ground (arith)

  documentation_3 :
      (nat_eqb ip.a 203 && nat_eqb ip.b 0 && nat_eqb ip.c 113) ≡ in_block 0xCB007100 0xCB0071FF ip
  documentation_3 = ground (arith)

  unspecified :
      (nat_eqb ip.a 0 && nat_eqb ip.b 0 && nat_eqb ip.c 0 && nat_eqb ip.d 0) ≡ in_block 0 0 ip
  unspecified = ground (arith)

  shared_nat :
      (nat_eqb ip.a 100 && nat_eqb (bit_and ip.b 0xC0) 64) ≡ in_block 0x64400000 0x647FFFFF ip
  shared_nat = ground (arith, cgn_mask ip.b addr.b_fits)

  benchmark :
      (nat_eqb ip.a 198 && (nat_eqb ip.b 18 || nat_eqb ip.b 19)) ≡ in_block 0xC6120000 0xC613FFFF ip
  benchmark = ground (arith)

  class_e : (nat_eqb (bit_and ip.a 0xF0) 0xF0) ≡ in_block 0xF0000000 0xFFFFFFFF ip
  class_e = ground (arith, class_e_mask ip.a addr.a_fits)

  -- is_private_v4 takes an IPv4 address for private exactly when it lies in one of the blocks.
  pub is_private_v4-in_blocks : is_private_v4 ip ≡ in_blocks private_blocks (to_number ip)
  unfolding is_private_v4
  is_private_v4-in_blocks =
      rw
        (
          loopback, private_10, private_172, private_192, link_local, multicast, broadcast,
          documentation_1, documentation_2, documentation_3, unspecified, shared_nat, benchmark,
          class_e,
        )
        refl
