-- ===== src/Dht/Closest.antt =====
-- What `RoutingTable::closest` of phinet-core/src/dht.rs returns.
use mathlib.Core.List.{Perm}
use phinet.Prelude.{
  ℕ, ◌≡◌, refl, List, [], ◌∷◌, ◌++◌, arith, length, min, drop, All, length-append, length-take,
  take-append-drop,
}
use phinet.Prelude.Order.{
  bytes_order, sort_by_key, IsBelow, IsSorted, sort_by_key-IsSorted, sort_by_key-perm,
  length-sort_by_key, IsSorted-take, take-IsBelow-drop,
}
use phinet.Dht.{
  NodeId, PeerInfo, RoutingTable, xor_dist, all_in, all_peers, closest, count_in, peer_count,
}

length-all_in :
    {Cert : Type 0} (bs : List (List (PeerInfo Cert))) → length (all_in bs) ≡ count_in bs
unfolding all_in count_in
length-all_in [] = refl
length-all_in (b ∷ bs) = omega (arith, length-append b (all_in bs), length-all_in bs)

module _ {Cert : Type 0} (target : NodeId) where
  abbrev pub distance_to : PeerInfo Cert → List ℕ
  distance_to p = xor_dist target p.node_id

  -- The answer of `closest` with the peers left out is the whole table, as often; the answer
  -- is in order of distance, no peer left out is nearer than one in it, and it has k peers, or
  -- all there are.
  pub closest_lem :
      (k : ℕ) (t : RoutingTable Cert)
      → (left_out : List (PeerInfo Cert)) × Perm (closest target k t ++ left_out) (all_peers t)
        × IsSorted bytes_order distance_to (closest target k t)
        × All (λ p. IsBelow bytes_order distance_to p left_out) (closest target k t)
        × (length (closest target k t) ≡ min k (peer_count t))
  unfolding closest all_peers peer_count
  closest_lem k t =
      let sorted = sort_by_key bytes_order distance_to (all_in t.buckets) in
      let in_order = sort_by_key-IsSorted bytes_order distance_to (all_in t.buckets) in
      (
        drop k sorted,
        rw (take-append-drop k sorted)
            (sort_by_key-perm bytes_order distance_to (all_in t.buckets)),
        IsSorted-take bytes_order distance_to k sorted in_order,
        take-IsBelow-drop bytes_order distance_to k sorted in_order,
        omega (
          arith,
          length-take k sorted,
          length-sort_by_key bytes_order distance_to (all_in t.buckets),
          length-all_in t.buckets,
        ),
      )
