-- ===== src/HsdirRing.antt =====
-- Where descriptors of hidden services are kept: phinet-core/src/hsdir_ring.rs. Texts are their
-- bytes, and SHA-256 is a parameter.

mod Tests
pub mod Order
pub mod Members
use phinet.Prelude.{
  ℕ, zero, suc, ◌+◌, ◌%◌, List, [], ◌∷◌, ◌++◌, Bool, true, false, ◌||◌, length, get_or, leb,
  nat_eqb, if◌then◌else◌, map,
}
use phinet.Prelude.Eq.{◌==◌, nat_eq, list_eq}
use phinet.Prelude.Order.{sort_by_key, bytes_order, lex_leb}
use phinet.Prelude.Word.{codes, be64}

abbrev pub hsdir_spread : ℕ
hsdir_spread = 3

abbrev pub hsdir_replicas : ℕ
hsdir_replicas = 2

-- `out.contains(id)`
unfoldable pub contains : List (List ℕ) → List ℕ → Bool
contains [] id = false
contains (x ∷ xs) id = (x == id) || contains xs id

-- `partition_point` of a sorted ring: how many positions lie before the target.
unfoldable pub partition_point : List ℕ → List (List ℕ × List ℕ) → ℕ
partition_point target [] = 0
partition_point target ((position, _) ∷ ring) =
    if lex_leb target position then 0 else suc (partition_point target ring)

abbrev pub nowhere : List ℕ × List ℕ
nowhere = ([], [])

-- The inner loop from `k` on, `left` rounds to go: the relays so far, and whether it returned.
unfoldable pub walk : List (List ℕ × List ℕ) → ℕ → ℕ → ℕ → ℕ → List (List ℕ) → List (List ℕ) × Bool
walk ring count start k zero out = (out, false)
walk ring count start k (suc left) out =
    let id = (get_or ring ((start + k) % length ring) nowhere).1 in
    let grown = if contains out id then out else out ++ id ∷ [] in
    let rest = walk ring count start (k + 1) left grown in
    if leb count (length grown) then (grown, true) else rest

module _ (sha256 : List ℕ → List ℕ) where
  unfoldable pub hsdir_index : List ℕ → ℕ → List ℕ → List ℕ
  hsdir_index node_id_hex period ring_salt =
      sha256 (codes "phinet-hsdir-index-v1" ++ (node_id_hex ++ (be64 period ++ ring_salt)))

  unfoldable pub hs_index : List ℕ → ℕ → ℕ → List ℕ → List ℕ
  hs_index hs_id replica period ring_salt =
      sha256 (codes "phinet-hs-index-v1" ++ (hs_id ++ (replica ∷ (be64 period ++ ring_salt))))

  abbrev pub placed : ℕ → List ℕ → List ℕ → List ℕ × List ℕ
  placed period ring_salt relay = (hsdir_index relay period ring_salt, relay)

  unfoldable pub sorted_ring : List (List ℕ) → ℕ → List ℕ → List (List ℕ × List ℕ)
  sorted_ring relays period ring_salt =
      sort_by_key bytes_order (λ p. p.0) (map (placed period ring_salt) relays)

  -- The outer loop over the replicas from `replica` on, `left` to go.
  unfoldable pub replicas :
      List ℕ → ℕ → List ℕ → List (List ℕ × List ℕ) → ℕ → ℕ → ℕ → List (List ℕ) → List (List ℕ)
  unfolding walk partition_point contains hs_index
  replicas hs_id period ring_salt ring count replica zero out = out
  replicas hs_id period ring_salt ring count replica (suc left) out =
      let target = hs_index hs_id replica period ring_salt in
      let walked = walk ring count (partition_point target ring) 0 hsdir_spread out in
      let rest = replicas hs_id period ring_salt ring count (replica + 1) left walked.0 in
      if walked.1 then walked.0 else rest

  unfoldable pub responsible_hsdirs : List ℕ → List (List ℕ) → ℕ → List ℕ → List (List ℕ)
  unfolding replicas sorted_ring hsdir_index
  responsible_hsdirs hs_id relays period ring_salt =
      let ring = sorted_ring relays period ring_salt in
      if nat_eqb (length relays) 0
      then []
      else replicas hs_id period ring_salt ring (length relays) 0 hsdir_replicas []

  unfoldable pub is_responsible : List ℕ → List ℕ → List (List ℕ) → ℕ → List ℕ → Bool
  unfolding responsible_hsdirs contains
  is_responsible my_id hs_id relays period ring_salt =
      contains (responsible_hsdirs hs_id relays period ring_salt) my_id
