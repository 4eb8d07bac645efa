-- ===== src/Dht/Table.antt =====
-- The routing table of phinet-core/src/dht.rs over whatever is added and removed: each peer in
-- the bucket of its distance, once, and never the node itself.
use phinet.Prelude.{
  ℕ, zero, suc, ◌+◌, ◌≤◌, ◌<◌, ◌≡◌, refl, ◌∙◌, List, [], ◌∷◌, ◌++◌, false, arith, length, All,
  All-append, length-append, leb, Bool-cases, inl, inr,
}
use mathlib.Core.Path.{subst}
use phinet.Prelude.Eq.{◌==◌, nat_eq, list_eq}
use phinet.Dht.{
  NodeId, PeerInfo, RoutingTable, k_size, node_id_bits, bucket_from, bucket_idx, pop_front,
  bucket_add, bucket_remove, bucket_at, set_bucket, add_peer, remove_peer,
}
use phinet.Dht.Bucket.{
  IsFree, Distinct, without, without-IsFree, All-without, Distinct-without, length-without-le,
  Distinct-snoc, bucket_add-without, bucket_remove-without,
}

bucket_from-lt : (i : ℕ) (bs : List ℕ) → bucket_from i bs < node_id_bits
unfolding bucket_from
bucket_from-lt i [] = omega arith
bucket_from-lt i (b ∷ bs) = ground (arith, bucket_from-lt (i + 1) bs)

-- The index that `add_peer` and `remove_peer` use is always a bucket's.
pub bucket_idx-lt : (own_id id : NodeId) → bucket_idx own_id id < node_id_bits
unfolding bucket_idx
bucket_idx-lt own_id id = bucket_from-lt 0 _

module _ {Cert : Type 0} where
  abbrev pub Placed : NodeId → ℕ → List (PeerInfo Cert) → Type 0
  Placed own_id i ps = All (λ p. bucket_idx own_id p.node_id ≡ i) ps

  pub record BucketIsValid (own_id : NodeId) (i : ℕ) (ps : List (PeerInfo Cert)) : Type 0 where
    pub placed : Placed own_id i ps
    pub foreign : IsFree own_id ps
    pub distinct : Distinct ps
    pub bounded : length ps ≤ k_size

  abbrev pub BucketsAreValid : NodeId → ℕ → List (List (PeerInfo Cert)) → Type 0
  BucketsAreValid own_id i [] = Unit
  BucketsAreValid own_id i (b ∷ bs) = BucketIsValid own_id i b × BucketsAreValid own_id (suc i) bs

  pub record TableIsValid (t : RoutingTable Cert) : Type 0 where
    pub buckets_valid : BucketsAreValid t.own_id 0 t.buckets
    pub all_there : length t.buckets ≡ node_id_bits

  without-BucketIsValid :
      (own_id id : NodeId) (i : ℕ) (ps : List (PeerInfo Cert))
      → BucketIsValid own_id i ps
      → BucketIsValid own_id i (without id ps)
  without-BucketIsValid own_id id i ps v = record {
    placed = All-without _ id ps v.placed;
    foreign = All-without _ id ps v.foreign;
    distinct = Distinct-without id ps v.distinct;
    bounded = omega (arith, length-without-le id ps, v.bounded);
  }

  pop_front-BucketIsValid :
      (own_id : NodeId) (i : ℕ) (ps : List (PeerInfo Cert))
      → BucketIsValid own_id i ps
      → BucketIsValid own_id i (pop_front ps)
  pop_front-BucketIsValid own_id i [] v = v
  pop_front-BucketIsValid own_id i (p ∷ ps) v = record {
    placed = v.placed.1;
    foreign = v.foreign.1;
    distinct = v.distinct.1;
    bounded = omega (arith, v.bounded);
  }

  -- `bucket_add` puts a peer that is not there any more at the end of a bucket with room.
  snoc-BucketIsValid :
      (own_id : NodeId) (i : ℕ) (peer : PeerInfo Cert) (ps : List (PeerInfo Cert))
      → BucketIsValid own_id i ps
      → bucket_idx own_id peer.node_id ≡ i
      → (peer.node_id == own_id) ≡ false
      → IsFree peer.node_id ps
      → suc (length ps) ≤ k_size
      → BucketIsValid own_id i (ps ++ peer ∷ [])
  snoc-BucketIsValid own_id i peer ps v here foreign free room = record {
    placed = All-append _ ps _ v.placed (here, tt);
    foreign = All-append _ ps _ v.foreign (foreign, tt);
    distinct = Distinct-snoc peer ps v.distinct free;
    bounded = omega (arith, length-append ps (peer ∷ []));
  }

  pop_front-IsFree :
      (id : NodeId) (ps : List (PeerInfo Cert)) → IsFree id ps → IsFree id (pop_front ps)
  pop_front-IsFree id [] free = free
  pop_front-IsFree id (p ∷ ps) free = free.1

  length-pop_front :
      (ps : List (PeerInfo Cert)) → length ps ≤ k_size → suc (length (pop_front ps)) ≤ k_size
  length-pop_front [] h = omega arith
  length-pop_front (p ∷ ps) h = h

  bucket_add-BucketIsValid :
      (own_id : NodeId) (i : ℕ) (peer : PeerInfo Cert) (ps : List (PeerInfo Cert))
      → BucketIsValid own_id i ps
      → bucket_idx own_id peer.node_id ≡ i
      → (peer.node_id == own_id) ≡ false
      → BucketIsValid own_id i (bucket_add peer ps)
  bucket_add-BucketIsValid own_id i peer ps v here foreign =
      let kept = without peer.node_id ps in
      let kept_valid = without-BucketIsValid own_id peer.node_id i ps v in
      let free = without-IsFree peer.node_id ps v.distinct in
      rw (bucket_add-without peer ps) (elim (Bool-cases (leb k_size (length kept))) [
        | inl full ↦ rw full (
            snoc-BucketIsValid own_id i peer _ (pop_front-BucketIsValid own_id i kept kept_valid)
              here foreign (pop_front-IsFree peer.node_id kept free)
              (length-pop_front kept kept_valid.bounded))
        | inr room ↦
            rw room
              (snoc-BucketIsValid own_id i peer kept kept_valid here foreign free (ground arith))
      ])

  pub bucket_remove-BucketIsValid :
      (own_id id : NodeId) (i : ℕ) (ps : List (PeerInfo Cert))
      → BucketIsValid own_id i ps
      → BucketIsValid own_id i (bucket_remove id ps).0
  bucket_remove-BucketIsValid own_id id i ps v =
      rw (bucket_remove-without id ps) (without-BucketIsValid own_id id i ps v)

  -- A bucket read from a valid table, and a valid one written into it.
  bucket_at-valid :
      (own_id : NodeId) (i j : ℕ) (bs : List (List (PeerInfo Cert)))
      → BucketsAreValid own_id i bs
      → BucketIsValid own_id (i + j) (bucket_at j bs)
  bucket_at-valid own_id i j [] v = record {
    placed = tt;
    foreign = tt;
    distinct = tt;
    bounded = omega arith;
  }
  bucket_at-valid own_id i zero (b ∷ bs) v = let e : i + 0 ≡ i = omega arith in rw e v.0
  bucket_at-valid own_id i (suc j) (b ∷ bs) v =
      let e : i + suc j ≡ suc i + j = omega arith in rw e (bucket_at-valid own_id (suc i) j bs v.1)

  set_bucket-valid :
      (own_id : NodeId) (i j : ℕ) (b : List (PeerInfo Cert)) (bs : List (List (PeerInfo Cert)))
      → BucketsAreValid own_id i bs
      → BucketIsValid own_id (i + j) b
      → BucketsAreValid own_id i (set_bucket j b bs)
  set_bucket-valid own_id i j b [] v new = tt
  set_bucket-valid own_id i zero b (c ∷ bs) v new =
      let e : i ≡ i + 0 = omega arith in (rw e new, v.1)
  set_bucket-valid own_id i (suc j) b (c ∷ bs) v new =
      let e : suc i + j ≡ i + suc j = omega arith in
      (v.0, set_bucket-valid own_id (suc i) j b bs v.1 (rw e new))

  length-set_bucket :
      (j : ℕ) (b : List (PeerInfo Cert)) (bs : List (List (PeerInfo Cert)))
      → length (set_bucket j b bs) ≡ length bs
  length-set_bucket j b [] = refl
  length-set_bucket zero b (c ∷ bs) = refl
  length-set_bucket (suc j) b (c ∷ bs) = omega (arith, length-set_bucket j b bs)

  pub set_bucket-TableIsValid :
      (t : RoutingTable Cert) (j : ℕ) (b : List (PeerInfo Cert))
      → TableIsValid t
      → BucketIsValid t.own_id j b
      → TableIsValid (record t { buckets = set_bucket j b t.buckets })
  set_bucket-TableIsValid t j b v new =
      let e : 0 + j ≡ j = omega arith in
      record {
        buckets_valid = set_bucket-valid t.own_id 0 j b t.buckets v.buckets_valid (rw e new);
        all_there = length-set_bucket j b t.buckets ∙ v.all_there;
      }

  pub bucket_at-TableIsValid :
      (t : RoutingTable Cert) (j : ℕ)
      → TableIsValid t
      → BucketIsValid t.own_id j (bucket_at j t.buckets)
  bucket_at-TableIsValid t j v =
      let e : 0 + j ≡ j = omega arith in
      subst (λ k. BucketIsValid t.own_id k (bucket_at j t.buckets)) e
        (bucket_at-valid t.own_id 0 j t.buckets v.buckets_valid)

  pub add_peer-TableIsValid :
      (peer : PeerInfo Cert) (t : RoutingTable Cert)
      → TableIsValid t
      → TableIsValid (add_peer peer t)
  unfolding add_peer
  add_peer-TableIsValid peer t v = elim (Bool-cases (peer.node_id == t.own_id)) [
    | inl own ↦ rw own v
    | inr foreign ↦ rw foreign (
        set_bucket-TableIsValid t _ _ v
          (bucket_add-BucketIsValid t.own_id _ peer _ (bucket_at-TableIsValid t _ v) refl foreign))
  ]

  pub remove_peer-TableIsValid :
      (id : NodeId) (t : RoutingTable Cert) → TableIsValid t → TableIsValid (remove_peer id t).0
  unfolding remove_peer
  remove_peer-TableIsValid id t v = elim (Bool-cases (id == t.own_id)) [
    | inl own ↦ rw own v
    | inr foreign ↦ rw foreign (
        set_bucket-TableIsValid t _ _ v
          (bucket_remove-BucketIsValid t.own_id id _ _ (bucket_at-TableIsValid t _ v)))
  ]
