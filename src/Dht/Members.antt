-- ===== src/Dht/Members.antt =====
-- Who is in the routing table of phinet-core/src/dht.rs after a history of calls.
use mathlib.Core.Path.{subst}
use phinet.Prelude.{
  ℕ, zero, suc, ◌+◌, ◌*◌, ◌≤◌, ◌<◌, ◌≡◌, refl, sym, ap, List, [], ◌∷◌, ◌++◌, false, arith, length,
  All, All-append, All-map, Bool-cases, inl, inr,
}
use phinet.Prelude.Eq.{◌==◌, nat_eq, list_eq, list_eqb_iff}
use phinet.Dht.{
  NodeId, PeerInfo, RoutingTable, k_size, node_id_bits, bucket_idx, replicate_empty, new_table,
  bucket_at, set_bucket, add_peer, bucket_remove, remove_peer, all_in, all_peers, count_in,
  peer_count,
}
use phinet.Dht.Bucket.{IsFree, Distinct, without-IsFree, bucket_remove-without}
use phinet.Dht.Table.{
  bucket_idx-lt, BucketIsValid, BucketsAreValid, TableIsValid, bucket_at-TableIsValid,
  bucket_remove-BucketIsValid, add_peer-TableIsValid, remove_peer-TableIsValid,
  set_bucket-TableIsValid,
}

pub data TableCall (Cert : Type 0) : Type 0 where
  add : PeerInfo Cert → TableCall Cert
  drop_out : NodeId → TableCall Cert

replicate_empty-valid :
    (Cert : Type 0) (own_id : NodeId) (n i : ℕ)
    → BucketsAreValid own_id i (replicate_empty {Cert = Cert} n)
replicate_empty-valid Cert own_id zero i = tt
replicate_empty-valid Cert own_id (suc n) i = (
  record { placed = tt; foreign = tt; distinct = tt; bounded = omega arith },
  replicate_empty-valid Cert own_id n (suc i),
)

length-replicate_empty : (Cert : Type 0) (n : ℕ) → length (replicate_empty {Cert = Cert} n) ≡ n
length-replicate_empty Cert zero = refl
length-replicate_empty Cert (suc n) = ap suc (length-replicate_empty Cert n)

module _ {Cert : Type 0} where
  pub call : TableCall Cert → RoutingTable Cert → RoutingTable Cert
  call (add peer) t = add_peer peer t
  call (drop_out id) t = (remove_peer id t).0

  unfoldable pub run : List (TableCall Cert) → RoutingTable Cert → RoutingTable Cert
  unfolding call
  run [] t = t
  run (c ∷ calls) t = run calls (call c t)

  new_table-TableIsValid : (own_id : NodeId) → TableIsValid (new_table {Cert = Cert} own_id)
  unfolding new_table
  new_table-TableIsValid own_id = record {
    buckets_valid = replicate_empty-valid Cert own_id node_id_bits 0;
    all_there = length-replicate_empty Cert node_id_bits;
  }

  pub run-TableIsValid :
      (calls : List (TableCall Cert)) (t : RoutingTable Cert)
      → TableIsValid t
      → TableIsValid (run calls t)
  unfolding run
  run-TableIsValid [] t v = v
  run-TableIsValid (add peer ∷ calls) t v =
      run-TableIsValid calls _ (add_peer-TableIsValid peer t v)
  run-TableIsValid (drop_out id ∷ calls) t v =
      run-TableIsValid calls _ (remove_peer-TableIsValid id t v)

  -- The buckets from `i` on hold the ids of index `i` on.
  all_in-ge :
      (own_id : NodeId) (i : ℕ) (bs : List (List (PeerInfo Cert)))
      → BucketsAreValid own_id i bs
      → All (λ p. i ≤ bucket_idx own_id p.node_id) (all_in bs)
  unfolding all_in
  all_in-ge own_id i [] v = tt
  all_in-ge own_id i (b ∷ bs) v =
      All-append _ b (all_in bs) (All-map _ _ b (λ p e. omega (arith, e)) v.0.placed)
        (All-map _ _ (all_in bs) (λ p h. omega (arith, h)) (all_in-ge own_id (suc i) bs v.1))

  IsFree-of_idx :
      (own_id id : NodeId) (ps : List (PeerInfo Cert))
      → All (λ p. bucket_idx own_id id < bucket_idx own_id p.node_id) ps
      → IsFree id ps
  IsFree-of_idx own_id id ps above = All-map _ _ ps (λ p h. apart p.node_id h) above
    where
      apart :
          (other : NodeId) → bucket_idx own_id id < bucket_idx own_id other → (other == id) ≡ false
      apart other h = ground (arith, list_eqb_iff other id, ap (bucket_idx own_id))

  Distinct-append :
      (ps qs : List (PeerInfo Cert))
      → Distinct ps
      → Distinct qs
      → All (λ p. IsFree p.node_id qs) ps
      → Distinct (ps ++ qs)
  Distinct-append [] qs of_ps of_qs apart = of_qs
  Distinct-append (p ∷ ps) qs of_ps of_qs apart =
      (All-append _ ps qs of_ps.0 apart.0, Distinct-append ps qs of_ps.1 of_qs apart.1)

  all_in-Distinct :
      (own_id : NodeId) (i : ℕ) (bs : List (List (PeerInfo Cert)))
      → BucketsAreValid own_id i bs
      → Distinct (all_in bs)
  unfolding all_in
  all_in-Distinct own_id i [] v = tt
  all_in-Distinct own_id i (b ∷ bs) v =
      Distinct-append b (all_in bs) v.0.distinct (all_in-Distinct own_id (suc i) bs v.1) (
        All-map _ _ b
          (λ p e. IsFree-of_idx own_id p.node_id (all_in bs) (
            All-map _ _ (all_in bs) (λ q h. omega (arith, e, h)) (all_in-ge own_id (suc i) bs v.1)))
          v.0.placed)

  all_in-foreign :
      (own_id : NodeId) (i : ℕ) (bs : List (List (PeerInfo Cert)))
      → BucketsAreValid own_id i bs
      → IsFree own_id (all_in bs)
  unfolding all_in
  all_in-foreign own_id i [] v = tt
  all_in-foreign own_id i (b ∷ bs) v =
      All-append _ b (all_in bs) v.0.foreign (all_in-foreign own_id (suc i) bs v.1)

  count_in-le :
      (own_id : NodeId) (i : ℕ) (bs : List (List (PeerInfo Cert)))
      → BucketsAreValid own_id i bs
      → count_in bs ≤ k_size * length bs
  unfolding count_in
  count_in-le own_id i [] v = omega arith
  count_in-le own_id i (b ∷ bs) v = omega (arith, v.0.bounded, count_in-le own_id (suc i) bs v.1)

  -- After any calls on a new table no id is in it twice, the node itself is not in it, every
  -- bucket has at most eight peers, all at the distance of that bucket, and the table at most 2048.
  pub run-members :
      (calls : List (TableCall Cert)) (own_id : NodeId)
      → TableIsValid (run calls (new_table own_id))
        × Distinct (all_peers (run calls (new_table own_id)))
        × IsFree (run calls (new_table own_id)).own_id (all_peers (run calls (new_table own_id)))
        × (peer_count (run calls (new_table own_id)) ≤ 2048)
  unfolding all_peers peer_count
  run-members calls own_id =
      let v = run-TableIsValid calls (new_table own_id) (new_table-TableIsValid own_id) in
      (
        v,
        all_in-Distinct _ 0 _ v.buckets_valid,
        all_in-foreign _ 0 _ v.buckets_valid,
        omega (arith, count_in-le _ 0 _ v.buckets_valid, v.all_there),
      )

  -- A bucket that an id would be in, without it, and all others.
  all_in-IsFree :
      (own_id id : NodeId) (i j : ℕ) (bs : List (List (PeerInfo Cert)))
      → BucketsAreValid own_id i bs
      → bucket_idx own_id id ≡ i + j
      → IsFree id (bucket_at j bs)
      → IsFree id (all_in bs)
  unfolding all_in
  all_in-IsFree own_id id i j [] v e free = tt
  all_in-IsFree own_id id i zero (b ∷ bs) v e free = All-append _ b (all_in bs) free (
      IsFree-of_idx own_id id (all_in bs)
        (All-map _ _ (all_in bs) (λ q h. omega (arith, e, h)) (all_in-ge own_id (suc i) bs v.1)))
  all_in-IsFree own_id id i (suc j) (b ∷ bs) v e free =
      All-append _ b (all_in bs) (All-map _ _ b (λ p at_i. other_bucket p.node_id at_i) v.0.placed)
        (all_in-IsFree own_id id (suc i) j bs v.1 (omega (arith, e)) free)
    where
      other_bucket : (other : NodeId) → bucket_idx own_id other ≡ i → (other == id) ≡ false
      other_bucket other at_i = ground (arith, list_eqb_iff other id, ap (bucket_idx own_id), e)

  bucket_at-set_bucket :
      (j : ℕ) (b : List (PeerInfo Cert)) (bs : List (List (PeerInfo Cert)))
      → j < length bs
      → bucket_at j (set_bucket j b bs) ≡ b
  bucket_at-set_bucket j b [] h = absurd (omega arith)
  bucket_at-set_bucket zero b (c ∷ bs) h = refl
  bucket_at-set_bucket (suc j) b (c ∷ bs) h = bucket_at-set_bucket j b bs (omega (arith, h))

  -- After `remove_peer` no bucket of a valid table has a peer of that id.
  pub remove_peer-gone :
      (id : NodeId) (t : RoutingTable Cert)
      → TableIsValid t
      → IsFree id (all_peers (remove_peer id t).0)
  unfolding remove_peer all_peers
  remove_peer-gone id t v = elim (Bool-cases (id == t.own_id)) [
    | inl own ↦ rw own (
        subst (λ other. IsFree other (all_in t.buckets)) (sym ((list_eqb_iff id t.own_id).0 own))
          (all_in-foreign t.own_id 0 t.buckets v.buckets_valid))
    | inr foreign ↦ rw foreign (all_gone (omega (arith, v.all_there, bucket_idx-lt t.own_id id)))
  ]
    where
      left : List (PeerInfo Cert)
      left = (bucket_remove id (bucket_at (bucket_idx t.own_id id) t.buckets)).0

      held :
          BucketIsValid t.own_id
            (bucket_idx t.own_id id)
            (bucket_at (bucket_idx t.own_id id) t.buckets)
      held = bucket_at-TableIsValid t (bucket_idx t.own_id id) v

      all_gone :
          bucket_idx t.own_id id < length t.buckets
          → IsFree id (all_in (set_bucket (bucket_idx t.own_id id) left t.buckets))
      all_gone in_range =
          all_in-IsFree t.own_id id 0 (bucket_idx t.own_id id) _
            (set_bucket-TableIsValid t _ left v
              (bucket_remove-BucketIsValid t.own_id id _ _ held)).buckets_valid
            (omega arith)
            (rw
              (
                bucket_at-set_bucket (bucket_idx t.own_id id) left t.buckets in_range,
                bucket_remove-without id (bucket_at (bucket_idx t.own_id id) t.buckets),
              )
              (without-IsFree id _ held.distinct))
