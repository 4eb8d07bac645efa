-- ===== src/ExitPolicy.antt =====
-- The exit policy of phinet-core/src/exit_policy.rs: which targets an exit opens. A text is its
-- bytes. The standard library's address tests are written out, and its parser of IPv6 addresses
-- stands in ExitPolicy/Ipv6.antt.
mod Tests
pub mod Ipv6
pub mod Ranges
pub mod Agree
use Prim.Native.Nat.{bit_and}
use phinet.Prelude.{
  ℕ, ◌+◌, ◌-◌, ◌*◌, ◌/◌, ◌%◌, List, [], ◌∷◌, ◌++◌, Option, none, some, Bool, true, false, ◌&&◌,
  ◌||◌, ltb, leb, nat_eqb, if◌then◌else◌,
}
use phinet.Circuit.Ipv4.{Ipv4Addr}
use phinet.ExitPolicy.Ipv6.{Ipv6Addr, IpAddr, v4, v6, parse_ip}

pub data Decision : Type 0 where
  accept reject : Decision

abbrev pub default_blocked_ports : List ℕ
default_blocked_ports =
    22 ∷ 25 ∷ 465 ∷ 587 ∷ 110 ∷ 143 ∷ 993 ∷ 995 ∷ 3306 ∷ 5432 ∷ 6379 ∷ 11211 ∷ 27017 ∷ 9200 ∷ []

pub record ExitPolicy : Type 0 where
  pub blocked_ports : List ℕ
  pub block_private : Bool

abbrev pub default_policy : ExitPolicy
default_policy = record { blocked_ports = default_blocked_ports; block_private = true }

abbrev pub permissive : ExitPolicy
permissive = record { blocked_ports = []; block_private = false }

unfoldable pub contains : List ℕ → ℕ → Bool
contains [] port = false
contains (p ∷ ports) port = nat_eqb p port || contains ports port

abbrev pub in_range : ℕ → ℕ → ℕ → Bool
in_range lo hi x = leb lo x && leb x hi

unfoldable pub is_private_v4 : Ipv4Addr → Bool
is_private_v4 ip =
    let a = ip.a in
    let b = ip.b in
    let c = ip.c in
    let d = ip.d in
    -- is_loopback, is_private, is_link_local, is_multicast
    nat_eqb a 127
    || nat_eqb a 10
    || (nat_eqb a 172 && in_range 16 31 b)
    || (nat_eqb a 192 && nat_eqb b 168)
    || (nat_eqb a 169 && nat_eqb b 254)
    || in_range 224 239 a
    -- is_broadcast, is_documentation, is_unspecified
    || (nat_eqb a 255 && nat_eqb b 255 && nat_eqb c 255 && nat_eqb d 255)
    || (nat_eqb a 192 && nat_eqb b 0 && nat_eqb c 2)
    || (nat_eqb a 198 && nat_eqb b 51 && nat_eqb c 100)
    || (nat_eqb a 203 && nat_eqb b 0 && nat_eqb c 113)
    || (nat_eqb a 0 && nat_eqb b 0 && nat_eqb c 0 && nat_eqb d 0)
    -- carrier-grade NAT, benchmark, class E
    || (nat_eqb a 100 && nat_eqb (bit_and b 0xC0) 64)
    || (nat_eqb a 198 && (nat_eqb b 18 || nat_eqb b 19))
    || nat_eqb (bit_and a 0xF0) 0xF0

abbrev all_zero : Ipv6Addr → Bool
all_zero ip =
    nat_eqb ip.s0 0
    && nat_eqb ip.s1 0
    && nat_eqb ip.s2 0
    && nat_eqb ip.s3 0
    && nat_eqb ip.s4 0
    && nat_eqb ip.s5 0
    && nat_eqb ip.s6 0

-- `Ipv4Addr::new` of the last two segments.
unfoldable pub embedded_v4 : Ipv6Addr → Ipv4Addr
embedded_v4 ip = record {
  a = ip.s6 / 256;
  b = bit_and ip.s6 0xFF;
  c = ip.s7 / 256;
  d = bit_and ip.s7 0xFF;
}

abbrev is_mapped : Ipv6Addr → Bool
is_mapped ip =
    nat_eqb ip.s0 0
    && nat_eqb ip.s1 0
    && nat_eqb ip.s2 0
    && nat_eqb ip.s3 0
    && nat_eqb ip.s4 0
    && nat_eqb ip.s5 0xFFFF

unfoldable pub is_private_v6 : Ipv6Addr → Bool
unfolding is_private_v4 embedded_v4
is_private_v6 ip =
    if all_zero ip && nat_eqb ip.s7 1
    then true
    else if nat_eqb (bit_and ip.s0 0xFF00) 0xFF00
    then true
    else if all_zero ip && nat_eqb ip.s7 0
    then true
    else if nat_eqb (bit_and ip.s0 0xFE00) 0xFC00
    then true
    else if nat_eqb (bit_and ip.s0 0xFFC0) 0xFE80
    then true
    else if is_mapped ip
    then is_private_v4 (embedded_v4 ip)
    else nat_eqb ip.s0 0x2001 && nat_eqb ip.s1 0x0DB8

unfoldable pub is_private : IpAddr → Bool
is_private (v4 ip) = is_private_v4 ip
is_private (v6 ip) = is_private_v6 ip

-- `find(']')` and the two slices around it.
unfoldable pub split_close : List ℕ → Option (List ℕ × List ℕ)
split_close [] = none
split_close (x ∷ xs) =
    let rest = split_close xs in
    if nat_eqb x b']'
    then some ([], xs)
    else elim rest [ none ↦ none | some (host, after) ↦ some (x ∷ host, after) ]

-- `strip_prefix(':')`
unfoldable pub strip_colon : List ℕ → Option (List ℕ)
strip_colon [] = none
strip_colon (x ∷ xs) = if nat_eqb x b':' then some xs else none

-- `rsplit_once(':')`: at the last colon.
unfoldable pub rsplit_colon : List ℕ → Option (List ℕ × List ℕ)
rsplit_colon [] = none
rsplit_colon (x ∷ xs) = elim (rsplit_colon xs) [
  | none ↦ if nat_eqb x b':' then some ([], xs) else none
  | some (host, port) ↦ some (x ∷ host, port)
]

unfoldable pub bracketed : List ℕ → Option (List ℕ × List ℕ)
unfolding split_close strip_colon
bracketed rest = elim (split_close rest) [
  | none ↦ none
  | some (host, after) ↦ elim (strip_colon after) [ none ↦ none | some port ↦ some (host, port) ]
]

-- The host and the port of a target.
unfoldable pub host_port : List ℕ → Option (List ℕ × List ℕ)
unfolding bracketed rsplit_colon
host_port [] = rsplit_colon []
host_port (x ∷ rest) = if nat_eqb x b'[' then bracketed rest else rsplit_colon (x ∷ rest)

-- The loop of `u16::from_str` over decimal digits, stopping at an overflow.
unfoldable pub digits_u16 : ℕ → List ℕ → Option ℕ
digits_u16 n [] = some n
digits_u16 n (x ∷ xs) =
    let rest = digits_u16 (n * 10 + (x - b'0')) xs in
    if leb b'0' x && leb x b'9' && ltb (n * 10 + (x - b'0')) 65536 then rest else none

-- `str::parse::<u16>`: a `+` may stand in front of the digits.
unfoldable pub parse_u16 : List ℕ → Option ℕ
unfolding digits_u16
parse_u16 [] = none
parse_u16 (x ∷ []) = if nat_eqb x b'+' then none else digits_u16 0 (x ∷ [])
parse_u16 (x ∷ y ∷ xs) = if nat_eqb x b'+' then digits_u16 0 (y ∷ xs) else digits_u16 0 (x ∷ y ∷ xs)

unfoldable pub check_host : ExitPolicy → List ℕ → Decision
check_host p host = elim (parse_ip host) [
  | none ↦ accept
  | some ip ↦ if p.block_private && is_private ip then reject else accept
]

unfoldable pub check_port : ExitPolicy → List ℕ → Option ℕ → Decision
check_port p host none = reject
check_port p host (some port) = if contains p.blocked_ports port then reject else check_host p host

unfoldable pub check_pre_resolve : ExitPolicy → List ℕ → Decision
unfolding check_port check_host
check_pre_resolve p target = elim (host_port target) [
  | none ↦ reject
  | some (host, port) ↦ check_port p host (parse_u16 port)
]

unfoldable pub check_post_resolve : ExitPolicy → IpAddr → ℕ → Decision
check_post_resolve p ip port =
    if contains p.blocked_ports port
    then reject
    else if p.block_private && is_private ip
    then reject
    else accept
