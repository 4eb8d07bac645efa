-- ===== src/ExitPolicy/Tests.antt =====
-- The exit policy at concrete targets.
use phinet.Prelude.{◌≡◌, refl, ◌∷◌, ◌++◌, some, arith}
use phinet.Prelude.Word.{codes}
use phinet.Circuit.Ipv4.{Ipv4Addr, IsAddr, format, read_addr}
use phinet.ExitPolicy.{
  default_policy, accept, reject, is_private_v4, is_private, parse_u16, check_pre_resolve,
  check_post_resolve, contains, host_port, is_private_v6,
}
use phinet.ExitPolicy.Ipv6.{v4, parse_ip}
use phinet.ExitPolicy.Ranges.{private_blocks, in_blocks, to_number, is_private_v4-in_blocks}
use phinet.ExitPolicy.Agree.{check_pre-check_post}

abbrev shared_nat : Ipv4Addr
shared_nat = record { a = 100; b = 100; c = 3; d = 4 }

shared_nat-IsAddr : IsAddr shared_nat
shared_nat-IsAddr = record {
  a_fits = omega arith;
  b_fits = omega arith;
  c_fits = omega arith;
  d_fits = omega arith;
}

is_private_v4-in_blocks_example :
    is_private_v4 shared_nat ≡ in_blocks private_blocks (to_number shared_nat)
is_private_v4-in_blocks_example = is_private_v4-in_blocks shared_nat shared_nat-IsAddr

port_443 : parse_u16 (codes "443") ≡ some 443
unfolding parse_u16
port_443 = refl

check_pre-check_post_example :
    check_pre_resolve default_policy (format shared_nat ++ b':' ∷ codes "443")
    ≡ check_post_resolve default_policy (v4 shared_nat) 443
check_pre-check_post_example =
    check_pre-check_post default_policy shared_nat (codes "443") 443 shared_nat-IsAddr port_443

loopback_v6 : check_pre_resolve default_policy (codes "[::1]:80") ≡ reject
unfolding check_pre_resolve host_port contains is_private is_private_v6 parse_ip parse_u16 read_addr
loopback_v6 = refl

name_accepted : check_pre_resolve default_policy (codes "example.com:443") ≡ accept
unfolding check_pre_resolve host_port contains is_private is_private_v6 parse_ip parse_u16 read_addr
name_accepted = refl

mail_refused : check_pre_resolve default_policy (codes "example.com:25") ≡ reject
unfolding check_pre_resolve host_port contains is_private is_private_v6 parse_ip parse_u16 read_addr
mail_refused = refl

mapped_refused : check_pre_resolve default_policy (codes "[::ffff:10.0.0.1]:443") ≡ reject
unfolding check_pre_resolve host_port contains is_private is_private_v6 parse_ip parse_u16 read_addr
mapped_refused = refl

global_v6 : check_pre_resolve default_policy (codes "[2606:4700::1111]:443") ≡ accept
unfolding check_pre_resolve host_port contains is_private is_private_v6 parse_ip parse_u16 read_addr
global_v6 = refl
