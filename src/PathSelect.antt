-- ===== src/PathSelect.antt =====
-- Path selection of phinet-core/src/path_select.rs over the peers of a consensus. Host names are
-- their bytes. The random source is `draw`: `draw i n` stands for `gen_range(0..n)` at hop `i`.
-- The hex decoder is a parameter.

mod Tests
pub mod Pick
pub mod Diverse
use Prim.Native.Nat.{bit_and}
use phinet.Prelude.{
  ℕ, zero, suc, ◌+◌, ◌-◌, ◌*◌, ◌/◌, ◌%◌, List, [], ◌∷◌, ◌++◌, Option, none, some, Bool, true, false,
  not, ◌&&◌, ◌||◌, String, length, filter_b, ltb, if◌then◌else◌,
}
use phinet.Prelude.Eq.{◌==◌, nat_eq, string_eq, list_eq}
use phinet.Prelude.Word.{codes}
use phinet.Circuit.Ipv4.{decimal}
use phinet.Circuit.Ipv4 as Ipv4
use phinet.ExitPolicy.Ipv6.{Ipv6Addr, parse_v6}
use phinet.Dht.{NodeId}

pub record PeerEntry : Type 0 where
  pub node_id_hex : String
  pub host : List ℕ
  pub port : ℕ
  pub static_pub_hex : String
  pub flags : ℕ
  pub bandwidth_kbs : ℕ
  pub exit_policy_summary : String
  pub family : String

pub record SelectedHop : Type 0 where
  pub node_id_hex : String
  pub host : List ℕ
  pub port : ℕ
  pub static_pub_hex : String

abbrev pub from_peer : PeerEntry → SelectedHop
from_peer p = record {
  node_id_hex = p.node_id_hex;
  host = p.host;
  port = p.port;
  static_pub_hex = p.static_pub_hex;
}

-- `PathError` has one variant; its text is left out.
pub data PathResult (Value : Type 0) : Type 0 where
  found : Value → PathResult Value
  insufficient_relays : PathResult Value

pub data Position : Type 0 where
  guard middle exit : Position

-- STABLE 1, FAST 2, GUARD 4, EXIT 8, RUNNING 16, VALID 32.
abbrev pub required : Position → ℕ
required guard = 1 + 2 + 4 + 16 + 32
required middle = 1 + 2 + 16 + 32
required exit = 1 + 2 + 8 + 16 + 32

unfoldable pub is_eligible : Position → PeerEntry → Bool
is_eligible position p =
    (bit_and p.flags (required position) == required position) && ltb 0 p.bandwidth_kbs

unfoldable pub eligible_for_position : List PeerEntry → Position → List PeerEntry
eligible_for_position peers position = filter_b (is_eligible position) peers

unfoldable pub total_bandwidth : List PeerEntry → ℕ
total_bandwidth [] = 0
total_bandwidth (p ∷ ps) = p.bandwidth_kbs + total_bandwidth ps

abbrev pub nth_peer : ℕ → List PeerEntry → Option PeerEntry
nth_peer i [] = none
nth_peer zero (p ∷ ps) = some p
nth_peer (suc i) (p ∷ ps) = nth_peer i ps

-- The loop over the candidates, with the last of them where it falls through.
unfoldable pub scan : ℕ → Option PeerEntry → List PeerEntry → Option PeerEntry
scan target last [] = last
scan target last (p ∷ ps) =
    let rest = scan (target - p.bandwidth_kbs) (some p) ps in
    if ltb target p.bandwidth_kbs then some p else rest

unfoldable pub weighted_random_pick : (ℕ → ℕ) → List PeerEntry → Option PeerEntry
weighted_random_pick gen candidates =
    let total = total_bandwidth candidates in
    if total == 0
    then nth_peer (gen (length candidates)) candidates
    else scan (gen total) none candidates

-- `{:x}` on a `u16`.
abbrev hex_char : ℕ → ℕ
hex_char d = if ltb d 10 then b'0' + d else b'a' + (d - 10)

hex16 : ℕ → List ℕ
hex16 n =
    if ltb n 16
    then hex_char n ∷ []
    else if ltb n 256
    then hex_char (n / 16) ∷ hex_char (n % 16) ∷ []
    else if ltb n 4096
    then hex_char (n / 256) ∷ hex_char (n / 16 % 16) ∷ hex_char (n % 16) ∷ []
    else hex_char (n / 4096)
      ∷ hex_char (n / 256 % 16)
      ∷ hex_char (n / 16 % 16)
      ∷ hex_char (n % 16)
      ∷ []

pub v4_key : Ipv4.Ipv4Addr → List ℕ
v4_key ip = codes "ipv4-" ++ (decimal ip.a ++ b'.' ∷ decimal ip.b)

pub v6_key : Ipv6Addr → List ℕ
unfolding hex16
v6_key ip = codes "ipv6-" ++ (hex16 ip.s0 ++ b':' ∷ (hex16 ip.s1 ++ b':' ∷ hex16 ip.s2))

unfoldable pub subnet_key : List ℕ → List ℕ
unfolding v4_key v6_key
subnet_key host = elim (Ipv4.parse host) [
  | some ip ↦ v4_key ip
  | none ↦ elim (parse_v6 host) [ some ip ↦ v6_key ip | none ↦ codes "host-" ++ host ]
]

unfoldable pub same_family : String → String → Bool
same_family a b = not (a == "") && (a == b)

unfoldable pub is_listed : List String → String → Bool
is_listed [] id = false
is_listed (e ∷ es) id = (e == id) || is_listed es id

-- The filters of the exit and of the middle, against a hop that is chosen already.
unfoldable pub apart_from : SelectedHop → String → PeerEntry → Bool
unfolding subnet_key same_family
apart_from hop family p =
    not (p.node_id_hex == hop.node_id_hex)
    && not (subnet_key p.host == subnet_key hop.host)
    && not (same_family p.family family)

unfoldable pub guard_candidates : List String → List PeerEntry → List PeerEntry
unfolding is_listed eligible_for_position is_eligible
guard_candidates excluded peers =
    filter_b (λ p. not (is_listed excluded p.node_id_hex)) (eligible_for_position peers guard)

unfoldable pub exit_candidates :
    List String → List PeerEntry → SelectedHop → String → List PeerEntry
unfolding is_listed eligible_for_position is_eligible apart_from
exit_candidates excluded peers hop family =
    filter_b (apart_from hop family)
      (filter_b (λ p. not (is_listed excluded p.node_id_hex)) (eligible_for_position peers exit))

unfoldable pub middle_candidates :
    List String → List PeerEntry → SelectedHop → String → SelectedHop → String → List PeerEntry
unfolding is_listed eligible_for_position is_eligible apart_from
middle_candidates excluded peers g g_family e e_family =
    filter_b (λ p. apart_from g g_family p && apart_from e e_family p)
      (filter_b (λ p. not (is_listed excluded p.node_id_hex)) (eligible_for_position peers middle))

module _ (draw : ℕ → ℕ → ℕ) (excluded : List String) (peers : List PeerEntry) where
  unfoldable pub pick_guard : Option PeerEntry → Option PeerEntry
  unfolding guard_candidates weighted_random_pick
  pick_guard (some pinned) = some pinned
  pick_guard none = weighted_random_pick (draw 0) (guard_candidates excluded peers)

  abbrev pub with_middle : PeerEntry → PeerEntry → Option PeerEntry → PathResult (List SelectedHop)
  with_middle g e none = insufficient_relays
  with_middle g e (some m) = found (from_peer g ∷ from_peer m ∷ from_peer e ∷ [])

  abbrev pub with_exit : PeerEntry → Option PeerEntry → PathResult (List SelectedHop)
  with_exit g none = insufficient_relays
  with_exit g (some e) = with_middle g e (
      weighted_random_pick (draw 2)
        (middle_candidates excluded peers (from_peer g) g.family (from_peer e) e.family))

  abbrev pub with_guard : Option PeerEntry → PathResult (List SelectedHop)
  with_guard none = insufficient_relays
  with_guard (some g) =
      with_exit g
        (weighted_random_pick (draw 1) (exit_candidates excluded peers (from_peer g) g.family))

  unfoldable pub select_path : Option PeerEntry → PathResult (List SelectedHop)
  unfolding pick_guard
  select_path pinned = with_guard (pick_guard pinned)
