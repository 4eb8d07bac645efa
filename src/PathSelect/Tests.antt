-- ===== src/PathSelect/Tests.antt =====
-- Path selection over three relays.
use phinet.Prelude.{ℕ, ◌≡◌, refl, List, [], ◌∷◌, none, some, String, arith}
use phinet.Prelude.Word.{codes}
use phinet.Circuit.Ipv4.{parse, decimal}
use phinet.ExitPolicy.Ipv6.{parse_v6}
use phinet.PathSelect.{
  PeerEntry, SelectedHop, from_peer, found, select_path, pick_guard, weighted_random_pick,
  total_bandwidth, scan, guard_candidates, exit_candidates, middle_candidates,
}
use phinet.PathSelect.Pick.{Falls, weighted_random_pick-Falls}
use phinet.PathSelect.Diverse.{IsDiverse, select_path-IsDiverse}

abbrev relay : String → List ℕ → PeerEntry
relay id host = record {
  node_id_hex = id;
  host = host;
  port = 7700;
  static_pub_hex = id;
  flags = 63;
  bandwidth_kbs = 10;
  exit_policy_summary = "";
  family = "";
}

abbrev relays : List PeerEntry
relays = relay "a" (codes "10.1.0.1") ∷ relay "b" (codes "10.2.0.1") ∷ relay "c" (codes "host") ∷ []

abbrev draw_first : ℕ → ℕ → ℕ
draw_first i n = 0

abbrev hops : List SelectedHop
hops =
    from_peer (relay "a" (codes "10.1.0.1"))
    ∷ from_peer (relay "c" (codes "host"))
    ∷ from_peer (relay "b" (codes "10.2.0.1"))
    ∷ []

selects : select_path draw_first [] relays none ≡ found hops
unfolding select_path total_bandwidth scan exit_candidates middle_candidates guard_candidates parse
    parse_v6 decimal
selects = refl

select_path-IsDiverse_example :
    (g m e : PeerEntry) × (pick_guard draw_first [] relays none ≡ some g)
    × (hops ≡ from_peer g ∷ from_peer m ∷ from_peer e ∷ [])
    × IsDiverse relays [] g m e
select_path-IsDiverse_example = select_path-IsDiverse [] relays draw_first none hops selects

bandwidth : total_bandwidth relays ≡ 30
unfolding total_bandwidth
bandwidth = refl

weighted_random_pick-Falls_example : Falls 0 relays (weighted_random_pick (λ n. 0) relays)
weighted_random_pick-Falls_example =
    weighted_random_pick-Falls (λ n. 0) relays (omega (arith, bandwidth)) (omega (arith, bandwidth))
