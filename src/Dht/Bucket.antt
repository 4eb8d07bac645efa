-- ===== src/Dht/Bucket.antt =====
-- What `KBucket::add` of phinet-core/src/dht.rs keeps: the most recently seen peers, in order.
use phinet.Prelude.{
  ℕ, suc, ◌+◌, ◌-◌, ◌≤◌, ◌≡◌, refl, List, [], ◌∷◌, ◌++◌, true, false, none, arith, length, drop,
  leb, All, All-append, length-append, if◌then◌else◌, Bool-cases, inl, inr,
}
use phinet.Prelude.Eq.{◌==◌, nat_eq, list_eq, list_eqb_iff}
use phinet.Dht.{
  NodeId, PeerInfo, k_size, remove_first, or_same, pop_front, bucket_add, bucket_remove,
}

module _ {Cert : Type 0} where
  -- No peer of the list has the id.
  abbrev pub IsFree : NodeId → List (PeerInfo Cert) → Type 0
  IsFree id ps = All (λ p. (p.node_id == id) ≡ false) ps

  abbrev pub Distinct : List (PeerInfo Cert) → Type 0
  Distinct [] = Unit
  Distinct (p ∷ ps) = IsFree p.node_id ps × Distinct ps

  pub remove_first-free :
      (id : NodeId) (ps : List (PeerInfo Cert)) → IsFree id ps → remove_first id ps ≡ none
  unfolding remove_first
  remove_first-free id [] free = refl
  remove_first-free id (p ∷ ps) free = rw (free.0, remove_first-free id ps free.1)

  -- What a list of distinct ids is without the one.
  pub without : NodeId → List (PeerInfo Cert) → List (PeerInfo Cert)
  without id ps = or_same (remove_first id ps) ps

  without-cons :
      (id : NodeId) (p : PeerInfo Cert) (ps : List (PeerInfo Cert))
      → without id (p ∷ ps) ≡ (if p.node_id == id then ps else p ∷ without id ps)
  unfolding without remove_first
  without-cons id p ps = ground arith

  pub without-free : (id : NodeId) (ps : List (PeerInfo Cert)) → IsFree id ps → without id ps ≡ ps
  unfolding without
  without-free id ps free = rw (remove_first-free id ps free) refl

  pub All-without {κ} :
      (P : PeerInfo Cert → Type κ) (id : NodeId) (ps : List (PeerInfo Cert))
      → All P ps
      → All P (without id ps)
  All-without P id [] h = unfold without remove_first in tt
  All-without P id (p ∷ ps) h = elim (Bool-cases (p.node_id == id)) [
    | inl same ↦ rw (without-cons id p ps, same) h.1
    | inr other ↦ rw (without-cons id p ps, other) (h.0, All-without P id ps h.1)
  ]

  pub Distinct-without :
      (id : NodeId) (ps : List (PeerInfo Cert)) → Distinct ps → Distinct (without id ps)
  Distinct-without id [] distinct = unfold without remove_first in tt
  Distinct-without id (p ∷ ps) distinct = elim (Bool-cases (p.node_id == id)) [
    | inl same ↦ rw (without-cons id p ps, same) distinct.1
    | inr other ↦
        rw (without-cons id p ps, other)
          (All-without _ id ps distinct.0, Distinct-without id ps distinct.1)
  ]

  IsFree-of_eq :
      (other id : NodeId) (ps : List (PeerInfo Cert))
      → (other == id) ≡ true
      → IsFree other ps
      → IsFree id ps
  IsFree-of_eq other id [] same free = tt
  IsFree-of_eq other id (p ∷ ps) same free = (
    ground (
      arith,
      list_eqb_iff p.node_id id,
      list_eqb_iff p.node_id other,
      list_eqb_iff other id,
      free.0,
    ),
    IsFree-of_eq other id ps same free.1,
  )

  -- Once removed, an id is nowhere in the list.
  pub without-IsFree :
      (id : NodeId) (ps : List (PeerInfo Cert)) → Distinct ps → IsFree id (without id ps)
  without-IsFree id [] distinct = unfold without remove_first in tt
  without-IsFree id (p ∷ ps) distinct = elim (Bool-cases (p.node_id == id)) [
    | inl same ↦ rw (without-cons id p ps, same) (IsFree-of_eq p.node_id id ps same distinct.0)
    | inr other ↦ rw (without-cons id p ps, other) (other, without-IsFree id ps distinct.1)
  ]

  pub length-without-le :
      (id : NodeId) (ps : List (PeerInfo Cert)) → length (without id ps) ≤ length ps
  length-without-le id [] = unfold without remove_first in omega arith
  length-without-le id (p ∷ ps) = ground (arith, without-cons id p ps, length-without-le id ps)

  pub bucket_add-without :
      (peer : PeerInfo Cert) (ps : List (PeerInfo Cert))
      → bucket_add peer ps
        ≡ (if leb k_size (length (without peer.node_id ps))
            then pop_front (without peer.node_id ps)
            else without peer.node_id ps)
          ++ peer ∷ []
  unfolding bucket_add without
  bucket_add-without peer ps = refl

  pub bucket_remove-without :
      (id : NodeId) (ps : List (PeerInfo Cert)) → (bucket_remove id ps).0 ≡ without id ps
  unfolding bucket_remove without
  bucket_remove-without id ps = ground arith

  -- An unbounded bucket: every peer ever seen, each once, the most recently seen last.
  pub see : PeerInfo Cert → List (PeerInfo Cert) → List (PeerInfo Cert)
  see peer seen = without peer.node_id seen ++ peer ∷ []

  pub last_n : ℕ → List (PeerInfo Cert) → List (PeerInfo Cert)
  last_n n ps = drop (length ps - n) ps

  last_n-cons :
      (n : ℕ) (p : PeerInfo Cert) (ps : List (PeerInfo Cert))
      → n ≤ length ps
      → last_n n (p ∷ ps) ≡ last_n n ps
  unfolding last_n
  last_n-cons n p ps h =
      let e : suc (length ps) - n ≡ suc (length ps - n) = omega arith in rw e refl

  last_n-le : (n : ℕ) (ps : List (PeerInfo Cert)) → length ps ≤ n → last_n n ps ≡ ps
  unfolding last_n
  last_n-le n ps h = let e : length ps - n ≡ 0 = omega arith in rw e refl

  length-without-some :
      (id : NodeId) (ps : List (PeerInfo Cert)) → length ps ≤ length (without id ps) + 1
  length-without-some id [] = omega arith
  length-without-some id (p ∷ ps) = ground (arith, without-cons id p ps, length-without-some id ps)

  last_n-full :
      (peer : PeerInfo Cert) (kept : List (PeerInfo Cert))
      → length kept ≤ k_size
      → (if leb k_size (length kept) then pop_front kept else kept) ++ peer ∷ []
        ≡ last_n k_size (kept ++ peer ∷ [])
  last_n-full peer [] h = unfold last_n in refl
  last_n-full peer (q ∷ kept) h = elim (Bool-cases (leb k_size (length (q ∷ kept)))) [
    | inl full ↦
        rw
          (
            full,
            last_n-cons k_size q (kept ++ peer ∷ [])
                (ground (arith, length-append kept (peer ∷ []))),
            last_n-le k_size (kept ++ peer ∷ []) (ground (arith, length-append kept (peer ∷ []))),
          )
          refl
    | inr room ↦
        rw
          (
            room,
            last_n-le k_size (q ∷ kept ++ peer ∷ [])
                (ground (arith, length-append kept (peer ∷ []))),
          )
          refl
  ]

  bucket_add-short :
      (peer : PeerInfo Cert) (seen : List (PeerInfo Cert))
      → length seen ≤ k_size
      → bucket_add peer (last_n k_size seen) ≡ last_n k_size (see peer seen)
  bucket_add-short peer seen short = rw (last_n-le k_size seen short) (
      unfold bucket_add see without in
      last_n-full peer (without peer.node_id seen)
        (ground (arith, length-without-le peer.node_id seen)))

  last_n-see-cons :
      (peer p : PeerInfo Cert) (seen : List (PeerInfo Cert))
      → Distinct (p ∷ seen)
      → k_size ≤ length seen
      → last_n k_size (see peer (p ∷ seen)) ≡ last_n k_size (see peer seen)
  unfolding see
  last_n-see-cons peer p seen distinct long = elim (Bool-cases (p.node_id == peer.node_id)) [
    | inl same ↦
        rw
          (
            without-cons peer.node_id p seen,
            same,
            without-free peer.node_id seen (IsFree-of_eq _ _ seen same distinct.0),
          )
          refl
    | inr other ↦
        rw (without-cons peer.node_id p seen, other)
          (last_n-cons k_size p (without peer.node_id seen ++ peer ∷ []) (
            ground (
              arith,
              length-append (without peer.node_id seen) (peer ∷ []),
              length-without-some peer.node_id seen,
            )))
  ]

  -- A bucket that holds the eight most recently seen peers still does when a peer is seen: a
  -- known peer moves to the end, and a new one drives out the peer seen longest ago, when full.
  pub bucket_add-last_n :
      (peer : PeerInfo Cert) (seen : List (PeerInfo Cert))
      → Distinct seen
      → bucket_add peer (last_n k_size seen) ≡ last_n k_size (see peer seen)
  bucket_add-last_n peer [] distinct = bucket_add-short peer [] (omega arith)
  bucket_add-last_n peer (p ∷ seen) distinct = elim (Bool-cases (leb (length (p ∷ seen)) k_size)) [
    | inl short ↦ bucket_add-short peer (p ∷ seen) (ground arith)
    | inr long ↦
        let full : k_size ≤ length seen = ground arith in
        rw (last_n-cons k_size p seen full, last_n-see-cons peer p seen distinct full)
          (bucket_add-last_n peer seen distinct.1)
  ]

  -- Every peer that announced itself, in turn.
  pub see_all : List (PeerInfo Cert) → List (PeerInfo Cert) → List (PeerInfo Cert)
  see_all [] seen = seen
  see_all (peer ∷ peers) seen = see_all peers (see peer seen)

  unfoldable pub bucket_add_all : List (PeerInfo Cert) → List (PeerInfo Cert) → List (PeerInfo Cert)
  bucket_add_all [] nodes = nodes
  bucket_add_all (peer ∷ peers) nodes = bucket_add_all peers (bucket_add peer nodes)

  pub Distinct-snoc :
      (peer : PeerInfo Cert) (ps : List (PeerInfo Cert))
      → Distinct ps
      → IsFree peer.node_id ps
      → Distinct (ps ++ peer ∷ [])
  Distinct-snoc peer [] distinct free = (tt, tt)
  Distinct-snoc peer (p ∷ ps) distinct free = (
    All-append _ ps (peer ∷ []) distinct.0 (
      ground
          (arith, list_eqb_iff peer.node_id p.node_id, list_eqb_iff p.node_id peer.node_id, free.0),
      tt,
    ),
    Distinct-snoc peer ps distinct.1 free.1,
  )

  pub see-Distinct :
      (peer : PeerInfo Cert) (seen : List (PeerInfo Cert))
      → Distinct seen
      → Distinct (see peer seen)
  unfolding see
  see-Distinct peer seen distinct =
      Distinct-snoc peer _ (Distinct-without peer.node_id seen distinct)
        (without-IsFree peer.node_id seen distinct)

  -- From the empty bucket, or any that agrees, after whatever announcements the bucket holds the
  -- last eight of an unbounded list of all peers seen, each once and the most recent last.
  pub bucket_add_all-last_n :
      (peers seen : List (PeerInfo Cert))
      → Distinct seen
      → bucket_add_all peers (last_n k_size seen) ≡ last_n k_size (see_all peers seen)
  unfolding bucket_add_all see_all
  bucket_add_all-last_n [] seen distinct = refl
  bucket_add_all-last_n (peer ∷ peers) seen distinct =
      rw (bucket_add-last_n peer seen distinct)
        (bucket_add_all-last_n peers (see peer seen) (see-Distinct peer seen distinct))
