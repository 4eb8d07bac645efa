-- ===== src/ExitPolicy/Agree.antt =====
-- Address literals in phinet-core/src/exit_policy.rs: the check before and the check after a name
-- is resolved agree, and an IPv4 address is no safer written as an IPv6 one.
use Prim.Native.Nat.{bit_and}
use phinet.Prelude.{
  ℕ, ◌+◌, ◌-◌, ◌*◌, ◌%◌, ◌<◌, ◌≡◌, refl, ap, List, [], ◌∷◌, ◌++◌, none, some, Bool, true, false,
  ◌&&◌, arith, get_or, nat_eqb, if◌then◌else◌, Bool-cases, inl, inr,
}
use phinet.Prelude.Word.{every_below, every_below_lem, u16_mod}
use phinet.Circuit.Ipv4.{Ipv4Addr, IsAddr, format, read_addr-format, format-first}
use phinet.ExitPolicy.{
  ExitPolicy, accept, reject, is_private, is_private_v4, is_private_v6, embedded_v4, rsplit_colon,
  host_port, digits_u16, parse_u16, check_host, check_port, check_pre_resolve, check_post_resolve,
}
use phinet.ExitPolicy.Ipv6.{Ipv6Addr, v4, v6, parse_ip}

-- `::ffff:a.b.c.d`
abbrev pub mapped : Ipv4Addr → Ipv6Addr
mapped ip = record {
  s0 = 0;
  s1 = 0;
  s2 = 0;
  s3 = 0;
  s4 = 0;
  s5 = 0xFFFF;
  s6 = ip.a * 256 + ip.b;
  s7 = ip.c * 256 + ip.d;
}

low_byte : ℕ → Bool
low_byte n = nat_eqb (bit_and n 0xFF) (n % 256)

low_byte_table : every_below u16_mod low_byte ≡ true
unfolding every_below low_byte
low_byte_table = refl

low_byte_lem : (n : ℕ) → n < u16_mod → bit_and n 0xFF ≡ n % 256
unfolding low_byte
low_byte_lem n h = ground (arith, every_below_lem u16_mod n low_byte low_byte_table h)

embedded_v4-mapped : (ip : Ipv4Addr) → IsAddr ip → embedded_v4 (mapped ip) ≡ ip
unfolding embedded_v4
embedded_v4-mapped ip addr =
    rw
      (
        low_byte_lem (ip.a * 256 + ip.b) (omega (arith, addr.a_fits, addr.b_fits)),
        low_byte_lem (ip.c * 256 + ip.d) (omega (arith, addr.c_fits, addr.d_fits)),
      )
      (ground (arith, addr.a_fits, addr.b_fits, addr.c_fits, addr.d_fits))

-- Written as an IPv6 address, an IPv4 address is judged as it is itself.
pub is_private-mapped :
    (ip : Ipv4Addr) → IsAddr ip → is_private (v6 (mapped ip)) ≡ is_private (v4 ip)
unfolding is_private is_private_v6
is_private-mapped ip addr = ap is_private_v4 (embedded_v4-mapped ip addr)

digits-no_colon :
    (n port : ℕ) (text : List ℕ) → digits_u16 n text ≡ some port → rsplit_colon text ≡ none
unfolding digits_u16 rsplit_colon
digits-no_colon n port [] parsed = refl
digits-no_colon n port (x ∷ text) parsed =
    ground (arith, digits-no_colon (n * 10 + (x - b'0')) port text)

parse_u16-no_colon :
    (port : ℕ) (text : List ℕ) → parse_u16 text ≡ some port → rsplit_colon text ≡ none
unfolding parse_u16
parse_u16-no_colon port [] parsed = cc
parse_u16-no_colon port (x ∷ []) parsed = ground (arith, digits-no_colon 0 port (x ∷ []))
parse_u16-no_colon port (x ∷ y ∷ text) parsed = elim (Bool-cases (nat_eqb x b'+')) [
  | inl plus ↦
      let rest = digits-no_colon 0 port (y ∷ text) (ground arith) in
      unfold rsplit_colon in rw rest (ground arith)
  | inr digit ↦ digits-no_colon 0 port (x ∷ y ∷ text) (ground arith)
]

rsplit_colon-append :
    (host text : List ℕ)
    → rsplit_colon text ≡ none
    → rsplit_colon (host ++ b':' ∷ text) ≡ some (host, text)
unfolding rsplit_colon
rsplit_colon-append [] text none_there = rw none_there refl
rsplit_colon-append (x ∷ host) text none_there = rw (rsplit_colon-append host text none_there) refl

host_port-append :
    (host text : List ℕ)
    → nat_eqb (get_or host 0 0) b'[' ≡ false
    → rsplit_colon text ≡ none
    → host_port (host ++ b':' ∷ text) ≡ some (host, text)
unfolding host_port
host_port-append [] text plain none_there = rsplit_colon-append [] text none_there
host_port-append (x ∷ host) text plain none_there =
    rw plain (rsplit_colon-append (x ∷ host) text none_there)

parse_ip-format : (ip : Ipv4Addr) → IsAddr ip → parse_ip (format ip) ≡ some (v4 ip)
unfolding parse_ip
parse_ip-format ip addr = rw (read_addr-format ip addr, parse_ip) refl

check_host-format :
    (p : ExitPolicy) (ip : Ipv4Addr)
    → IsAddr ip
    → check_host p (format ip) ≡ (if p.block_private && is_private (v4 ip) then reject else accept)
unfolding check_host
check_host-format p ip addr = rw (parse_ip-format ip addr, check_host) refl

-- For a target that names an IPv4 address and a port, the check before resolving gives what the
-- check of the connected peer gives, under every policy.
pub check_pre-check_post :
    (p : ExitPolicy) (ip : Ipv4Addr) (text : List ℕ) (port : ℕ)
    → IsAddr ip
    → parse_u16 text ≡ some port
    → check_pre_resolve p (format ip ++ b':' ∷ text) ≡ check_post_resolve p (v4 ip) port
unfolding check_pre_resolve check_post_resolve
check_pre-check_post p ip text port addr parsed =
    rw
      (
        host_port-append (format ip) text (ground (arith, format-first ip addr))
            (parse_u16-no_colon port text parsed),
        parsed,
        check_pre_resolve,
      )
      (unfold check_port in rw (check_host-format p ip addr) refl)
