-- ===== src/ExitPolicy/Ipv6.antt =====
-- The standard library's parser of IP addresses, as `host.parse::<IpAddr>()` runs it: IPv4 first,
-- then IPv6 with `::` and a trailing IPv4 part.
use phinet.Prelude.{
  ℕ, zero, suc, ◌+◌, ◌-◌, ◌*◌, List, [], ◌∷◌, ◌++◌, Option, none, some, Bool, true, false, ◌&&◌,
  leb, nat_eqb, if◌then◌else◌, length, get_or, replicate,
}
use phinet.Circuit.Ipv4.{Ipv4Addr, read_addr}

pub record Ipv6Addr : Type 0 where
  pub s0 : ℕ
  pub s1 : ℕ
  pub s2 : ℕ
  pub s3 : ℕ
  pub s4 : ℕ
  pub s5 : ℕ
  pub s6 : ℕ
  pub s7 : ℕ

pub data IpAddr : Type 0 where
  v4 : Ipv4Addr → IpAddr
  v6 : Ipv6Addr → IpAddr

-- `char::to_digit(16)`
abbrev hex_digit : ℕ → Option ℕ
hex_digit x =
    if leb b'0' x && leb x b'9'
    then some (x - b'0')
    else if leb b'a' x && leb x b'f'
    then some (x - b'a' + 10)
    else if leb b'A' x && leb x b'F'
    then some (x - b'A' + 10)
    else none

-- `read_number(16, Some(4), true)`: at least one and at most four digits.
more_digits : ℕ → ℕ → List ℕ → Option (ℕ × List ℕ)
more_digits left n [] = some (n, [])
more_digits zero n (x ∷ xs) = elim (hex_digit x) [ none ↦ some (n, x ∷ xs) | some d ↦ none ]
more_digits (suc left) n (x ∷ xs) = elim (hex_digit x) [
  | none ↦ some (n, x ∷ xs)
  | some d ↦ more_digits left (n * 16 + d) xs
]

read_group : List ℕ → Option (ℕ × List ℕ)
unfolding more_digits
read_group [] = none
read_group (x ∷ xs) = elim (hex_digit x) [ none ↦ none | some d ↦ more_digits 3 d xs ]

read_char : ℕ → List ℕ → Option (List ℕ)
read_char c [] = none
read_char c (x ∷ xs) = if nat_eqb x c then some xs else none

-- `read_separator(':', i, …)`: a colon before every group but the first.
after_colon : Bool → List ℕ → Option (List ℕ)
unfolding read_char
after_colon true text = some text
after_colon false text = read_char b':' text

abbrev group_at : Bool → List ℕ → Option (ℕ × List ℕ)
group_at first text = elim (after_colon first text) [ none ↦ none | some rest ↦ read_group rest ]

abbrev ipv4_at : Bool → List ℕ → Option (Ipv4Addr × List ℕ)
ipv4_at first text = elim (after_colon first text) [ none ↦ none | some rest ↦ read_addr rest ]

-- `read_groups` with `left` slots to fill: the groups, whether an IPv4 part ended them, the rest.
read_groups : Bool → ℕ → List ℕ → List ℕ × Bool × List ℕ
unfolding after_colon read_group
read_groups first zero text = ([], false, text)
read_groups first (suc zero) text = elim (group_at first text) [
  | none ↦ ([], false, text)
  | some (g, rest) ↦ (g ∷ [], false, rest)
]
read_groups first (suc (suc left)) text = elim (ipv4_at first text) [
  | some (ip, rest) ↦ ((ip.a * 256 + ip.b) ∷ (ip.c * 256 + ip.d) ∷ [], true, rest)
  | none ↦ elim (group_at first text) [
    | none ↦ ([], false, text)
    | some (g, rest) ↦
        let later = read_groups false (suc left) rest in (g ∷ later.0, later.1, later.2)
  ]
]

abbrev from_groups : List ℕ → Ipv6Addr
from_groups gs = record {
  s0 = get_or gs 0 0;
  s1 = get_or gs 1 0;
  s2 = get_or gs 2 0;
  s3 = get_or gs 3 0;
  s4 = get_or gs 4 0;
  s5 = get_or gs 5 0;
  s6 = get_or gs 6 0;
  s7 = get_or gs 7 0;
}

-- The groups after `::`, at the end of the address.
read_tail : List ℕ → List ℕ → Option (Ipv6Addr × List ℕ)
unfolding read_groups
read_tail head text =
    let tail = read_groups true (8 - (length head + 1)) text in
    some (from_groups (head ++ (replicate (8 - length head - length tail.0) 0 ++ tail.0)), tail.2)

read_after_head : List ℕ → Bool → List ℕ → Option (Ipv6Addr × List ℕ)
unfolding read_tail
read_after_head head has_ipv4 text =
    if nat_eqb (length head) 8
    then some (from_groups head, text)
    else if has_ipv4
    then none
    else elim (read_char b':' text) [
      | none ↦ none
      | some text1 ↦ elim (read_char b':' text1) [ none ↦ none | some text2 ↦ read_tail head text2 ]
    ]

read_ipv6 : List ℕ → Option (Ipv6Addr × List ℕ)
unfolding read_after_head
read_ipv6 text = let head = read_groups true 8 text in read_after_head head.0 head.1 head.2

at_end : IpAddr → List ℕ → Option IpAddr
at_end ip [] = some ip
at_end ip (_ ∷ _) = none

-- `host.parse::<IpAddr>()`
unfoldable pub parse_ip : List ℕ → Option IpAddr
unfolding read_ipv6 at_end
parse_ip text = elim (read_addr text) [
  | some (ip, rest) ↦ at_end (v4 ip) rest
  | none ↦ elim (read_ipv6 text) [ none ↦ none | some (ip, rest) ↦ at_end (v6 ip) rest ]
]

at_end_v6 : Ipv6Addr → List ℕ → Option Ipv6Addr
at_end_v6 ip [] = some ip
at_end_v6 ip (_ ∷ _) = none

-- `host.parse::<Ipv6Addr>()`
unfoldable pub parse_v6 : List ℕ → Option Ipv6Addr
unfolding read_ipv6 at_end_v6
parse_v6 text = elim (read_ipv6 text) [ none ↦ none | some (ip, rest) ↦ at_end_v6 ip rest ]
