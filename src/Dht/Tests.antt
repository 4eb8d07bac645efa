-- ===== src/Dht/Tests.antt =====
-- The routing table at concrete ids.
use phinet.Prelude.{
  ℕ, suc, ◌^◌, ◌≤◌, ◌<◌, ◌≡◌, refl, List, [], ◌∷◌, ◌++◌, arith, length, min, replicate, All,
}
use phinet.Prelude.Eq.{nat_eq, list_eq}
use phinet.Prelude.Order.{bytes_order, sort_by_key, IsBelow, IsSorted}
use mathlib.Core.List.{Perm}
use phinet.Dht.{
  NodeId, PeerInfo, RoutingTable, k_size, new_table, bucket_idx, xor_dist, all_peers, closest,
  peer_count, add_peer, bucket_add, bucket_from, leading_zeros, remove_first,
}
use phinet.Dht.Bucket.{IsFree, Distinct, last_n, see_all, bucket_add_all, bucket_add_all-last_n}
use phinet.Dht.Table.{TableIsValid}
use phinet.Dht.Members.{TableCall, add, drop_out, run, run-members}
use phinet.Dht.Closest.{distance_to, closest_lem}
use phinet.Dht.Distance.{value, bucket_idx_bounds}

abbrev id_of : ℕ → NodeId
id_of b = b ∷ replicate 31 0

abbrev peer : ℕ → PeerInfo (Unit {0})
peer b = record { node_id = id_of b; host = "10.0.0.1"; port = 7700; cert = tt; static_pub = "" }

abbrev some_peers : List (PeerInfo (Unit {0}))
some_peers = peer 3 ∷ peer 2 ∷ peer 3 ∷ []

abbrev calls : List (TableCall (Unit {0}))
calls = add (peer 3) ∷ add (peer 128) ∷ drop_out (id_of 3) ∷ []

abbrev own : NodeId
own = id_of 1

abbrev table : RoutingTable (Unit {0})
table = add_peer (peer 3) (add_peer (peer 128) (new_table own))

bucket_add_all-last_n_example :
    bucket_add_all some_peers (last_n k_size []) ≡ last_n k_size (see_all some_peers [])
bucket_add_all-last_n_example = bucket_add_all-last_n some_peers [] tt

run-members_example :
    TableIsValid (run calls (new_table own))
    × Distinct (all_peers (run calls (new_table own)))
    × IsFree (run calls (new_table own)).own_id (all_peers (run calls (new_table own)))
    × (peer_count (run calls (new_table own)) ≤ 2048)
run-members_example = run-members calls own

closest_lem_example :
    (left_out : List (PeerInfo (Unit {0}))) × Perm
      (closest own 1 table ++ left_out)
      (all_peers table)
    × IsSorted bytes_order (distance_to own) (closest own 1 table)
    × All (λ p. IsBelow bytes_order (distance_to own) p left_out) (closest own 1 table)
    × (length (closest own 1 table) ≡ min 1 (peer_count table))
closest_lem_example = closest_lem own 1 table

closest_nearest : closest own 1 table ≡ peer 3 ∷ []
unfolding closest all_peers add_peer new_table bucket_add bucket_idx bucket_from xor_dist
    leading_zeros remove_first sort_by_key
closest_nearest = refl

bucket_idx_bounds_example :
    (2 ^ bucket_idx own (id_of 3) ≤ value (xor_dist own (id_of 3)))
    × (value (xor_dist own (id_of 3)) < 2 ^ suc (bucket_idx own (id_of 3)))
bucket_idx_bounds_example =
    bucket_idx_bounds own (id_of 3) refl refl (omega arith) (omega arith) (λ e. ground (arith, e))
