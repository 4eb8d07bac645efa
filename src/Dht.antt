-- ===== src/Dht.antt =====
-- The Kademlia routing table and the value store of phinet-core/src/dht.rs. A node id is its
-- bytes. The clock is an argument, in seconds, and a JSON value is a type parameter.

mod Tests
pub mod Bucket
pub mod Table
pub mod Members
pub mod Closest
pub mod Distance
pub mod Store
use phinet.Prelude.{
  ℕ, zero, suc, ◌+◌, ◌-◌, ◌*◌, List, [], ◌∷◌, ◌++◌, map, Option, none, some, Bool, true, false,
  String, length, take, leb, ltb, nat_eqb, if◌then◌else◌,
}
use phinet.Prelude.Eq.{◌==◌, nat_eq, list_eq, string_eq}
use phinet.Prelude.Map.{Map, lookup, insert, retain}
use phinet.Prelude.Order.{sort_by_key, bytes_order}
use Prim.Native.Nat.{bit_xor}

abbrev pub NodeId : Type 0
NodeId = List ℕ

abbrev pub k_size : ℕ
k_size = 8

abbrev pub node_id_bits : ℕ
node_id_bits = 256

abbrev pub dht_value_ttl : ℕ
dht_value_ttl = 3600

-- `Cert` stands for the certificate that a peer presents.
pub record PeerInfo (Cert : Type 0) : Type 0 where
  pub node_id : NodeId
  pub host : String
  pub port : ℕ
  pub cert : Cert
  pub static_pub : String

unfoldable pub xor_dist : NodeId → NodeId → List ℕ
xor_dist [] ys = []
xor_dist (x ∷ xs) [] = []
xor_dist (x ∷ xs) (y ∷ ys) = bit_xor x y ∷ xor_dist xs ys

-- `u8::leading_zeros`
unfoldable pub leading_zeros : ℕ → ℕ
leading_zeros b =
    if leb 128 b
    then 0
    else if leb 64 b
    then 1
    else if leb 32 b
    then 2
    else if leb 16 b
    then 3
    else if leb 8 b
    then 4
    else if leb 4 b
    then 5
    else if leb 2 b
    then 6
    else if leb 1 b
    then 7
    else 8

-- The loop of `bucket_idx` over the bytes of the distance, from byte `i` on.
unfoldable pub bucket_from : ℕ → List ℕ → ℕ
bucket_from i [] = node_id_bits - 1
bucket_from i (b ∷ bs) =
    let later = bucket_from (i + 1) bs in
    if nat_eqb b 0 then later else node_id_bits - 1 - (i * 8 + leading_zeros b)

unfoldable pub bucket_idx : NodeId → NodeId → ℕ
bucket_idx own_id id = bucket_from 0 (xor_dist own_id id)

module _ {Cert : Type 0} where
  -- `position` and `VecDeque::remove` of the first peer with an id; `none` where there is none.
  unfoldable pub remove_first : NodeId → List (PeerInfo Cert) → Option (List (PeerInfo Cert))
  remove_first id [] = none
  remove_first id (p ∷ ps) =
      let rest = remove_first id ps in
      if p.node_id == id then some ps else elim rest [ none ↦ none | some left ↦ some (p ∷ left) ]

  abbrev or_same : Option (List (PeerInfo Cert)) → List (PeerInfo Cert) → List (PeerInfo Cert)
  or_same none ps = ps
  or_same (some left) ps = left

  -- `pop_front`
  abbrev pub pop_front : List (PeerInfo Cert) → List (PeerInfo Cert)
  pop_front [] = []
  pop_front (p ∷ ps) = ps

  -- `KBucket::add` on the nodes of a bucket, the least recently seen first.
  unfoldable pub bucket_add : PeerInfo Cert → List (PeerInfo Cert) → List (PeerInfo Cert)
  bucket_add peer nodes =
      let kept = or_same (remove_first peer.node_id nodes) nodes in
      (if leb k_size (length kept) then pop_front kept else kept) ++ peer ∷ []

  -- `KBucket::remove`
  unfoldable pub bucket_remove : NodeId → List (PeerInfo Cert) → List (PeerInfo Cert) × Bool
  bucket_remove id nodes = elim (remove_first id nodes) [
    | none ↦ (nodes, false)
    | some left ↦ (left, true)
  ]

pub record RoutingTable (Cert : Type 0) : Type 0 where
  pub own_id : NodeId
  pub buckets : List (List (PeerInfo Cert))

module _ {Cert : Type 0} where
  abbrev pub replicate_empty : ℕ → List (List (PeerInfo Cert))
  replicate_empty zero = []
  replicate_empty (suc n) = [] ∷ replicate_empty n

  unfoldable pub new_table : NodeId → RoutingTable Cert
  new_table own_id = record { own_id = own_id; buckets = replicate_empty node_id_bits }

  -- `buckets[idx]`, read and written.
  abbrev pub bucket_at : ℕ → List (List (PeerInfo Cert)) → List (PeerInfo Cert)
  bucket_at i [] = []
  bucket_at zero (b ∷ bs) = b
  bucket_at (suc i) (b ∷ bs) = bucket_at i bs

  abbrev pub set_bucket :
      ℕ → List (PeerInfo Cert) → List (List (PeerInfo Cert)) → List (List (PeerInfo Cert))
  set_bucket i b [] = []
  set_bucket zero b (c ∷ bs) = b ∷ bs
  set_bucket (suc i) b (c ∷ bs) = c ∷ set_bucket i b bs

  unfoldable pub add_peer : PeerInfo Cert → RoutingTable Cert → RoutingTable Cert
  add_peer peer t =
      let idx = bucket_idx t.own_id peer.node_id in
      if peer.node_id == t.own_id then t else record t {
        buckets = set_bucket idx (bucket_add peer (bucket_at idx t.buckets)) t.buckets;
      }

  unfoldable pub remove_peer : NodeId → RoutingTable Cert → RoutingTable Cert × Bool
  remove_peer id t =
      let idx = bucket_idx t.own_id id in
      let (left, found) = bucket_remove id (bucket_at idx t.buckets) in
      if id == t.own_id
      then (t, false)
      else (record t { buckets = set_bucket idx left t.buckets }, found)

  unfoldable pub all_in : List (List (PeerInfo Cert)) → List (PeerInfo Cert)
  all_in [] = []
  all_in (b ∷ bs) = b ++ all_in bs

  unfoldable pub all_peers : RoutingTable Cert → List (PeerInfo Cert)
  unfolding all_in
  all_peers t = all_in t.buckets

  unfoldable pub closest : NodeId → ℕ → RoutingTable Cert → List (PeerInfo Cert)
  closest target k t =
      take k (sort_by_key bytes_order (λ p. xor_dist target p.node_id) (all_peers t))

  unfoldable pub count_in : List (List (PeerInfo Cert)) → ℕ
  count_in [] = 0
  count_in (b ∷ bs) = length b + count_in bs

  unfoldable pub peer_count : RoutingTable Cert → ℕ
  unfolding count_in
  peer_count t = count_in t.buckets
