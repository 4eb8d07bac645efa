-- ===== src/HsdirRing/Order.antt =====
-- Publisher and client of phinet-core/src/hsdir_ring.rs list the relays in their own orders.
use phinet.Prelude.{ℕ, ◌≡◌, refl, List, map}
use phinet.Prelude.Order.{
  Exchanged, same, swap, under, after, sort_by_key-Exchanged, length-Exchanged,
}
use phinet.HsdirRing.{hsdir_index, placed, sorted_ring, responsible_hsdirs}

module _ (sha256 : List ℕ → List ℕ) (period : ℕ) (ring_salt : List ℕ) where
  abbrev pub position : List ℕ → List ℕ
  position relay = hsdir_index sha256 relay period ring_salt

  map-Exchanged :
      {xs ys : List (List ℕ)}
      → Exchanged position xs ys
      → Exchanged
          (λ (p : List ℕ × List ℕ). p.0)
          (map (placed sha256 period ring_salt) xs)
          (map (placed sha256 period ring_salt) ys)
  map-Exchanged (same xs) = same _
  map-Exchanged (swap x y zs apart) = swap _ _ _ apart
  map-Exchanged (under x e) = under _ (map-Exchanged e)
  map-Exchanged (after e f) = after (map-Exchanged e) (map-Exchanged f)

  sorted_ring-Exchanged :
      {xs ys : List (List ℕ)}
      → Exchanged position xs ys
      → sorted_ring sha256 xs period ring_salt ≡ sorted_ring sha256 ys period ring_salt
  unfolding sorted_ring
  sorted_ring-Exchanged e = sort_by_key-Exchanged (λ p. p.0) (map-Exchanged e)

  -- Two parties that know the same relays agree on the responsible ones, in whatever order each
  -- lists them, as long as no two relays that change places have one position on the ring.
  pub responsible_hsdirs-Exchanged :
      (hs_id : List ℕ) (relays others : List (List ℕ))
      → Exchanged position relays others
      → responsible_hsdirs sha256 hs_id relays period ring_salt
        ≡ responsible_hsdirs sha256 hs_id others period ring_salt
  unfolding responsible_hsdirs
  responsible_hsdirs-Exchanged hs_id relays others e =
      rw (length-Exchanged position e, sorted_ring-Exchanged e) refl
