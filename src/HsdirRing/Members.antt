-- ===== src/HsdirRing/Members.antt =====
-- How many relays phinet-core/src/hsdir_ring.rs makes responsible, and which.
use phinet.Prelude.{
  ℕ, zero, suc, ◌+◌, ◌%◌, ◌≤◌, ◌<◌, ◌≡◌, ◌⊎◌, ◌∙◌, ◌*◌, refl, List, [], ◌∷◌, ◌++◌, Bool, true,
  false, ◌||◌, arith, length, get_or, leb, nat_eqb, if◌then◌else◌, map, All, All-map, All-append,
  All-get_or, length-append, Bool-cases, inl, inr,
}
use phinet.Prelude.Eq.{◌==◌, nat_eq, list_eq, list_eqb_iff, beq_refl}
use phinet.Prelude.Order.{sort_by_key, bytes_order, sort_by_key-All, length-sort_by_key}
use phinet.HsdirRing.{
  hsdir_spread, hsdir_replicas, contains, partition_point, nowhere, walk, placed, sorted_ring,
  hs_index, replicas, responsible_hsdirs,
}

abbrev pub Distinct : List (List ℕ) → Type 0
Distinct [] = Unit
Distinct (x ∷ xs) = (contains xs x ≡ false) × Distinct xs

-- Relays of the network, each once, at most `most` of them.
pub record AreMembers (relays : List (List ℕ)) (most : ℕ) (out : List (List ℕ)) : Type 0 where
  pub known : All (λ r. contains relays r ≡ true) out
  pub distinct : Distinct out
  pub few : length out ≤ most
  pub no_more : length out ≤ length relays

contains-snoc :
    (xs : List (List ℕ)) (y id : List ℕ)
    → contains (xs ++ y ∷ []) id ≡ (contains xs id || (y == id))
unfolding contains
contains-snoc [] y id = ground arith
contains-snoc (x ∷ xs) y id = ground (arith, contains-snoc xs y id)

Distinct-snoc :
    (xs : List (List ℕ)) (y : List ℕ)
    → Distinct xs
    → contains xs y ≡ false
    → Distinct (xs ++ y ∷ [])
unfolding contains
Distinct-snoc [] y distinct new = (refl, tt)
Distinct-snoc (x ∷ xs) y distinct new = (
  rw (contains-snoc xs y x) (ground (arith, list_eqb_iff x y, list_eqb_iff y x)),
  Distinct-snoc xs y distinct.1 (ground arith),
)

module _ (relays : List (List ℕ)) (ring : List (List ℕ × List ℕ))
    (same_size : length ring ≡ length relays) (known : All (λ p. contains relays p.1 ≡ true) ring)
    (some_relay : 0 < length relays) where
  found : (i : ℕ) → contains relays (get_or ring (i % length ring) nowhere).1 ≡ true
  found i =
      All-get_or (λ p. contains relays p.1 ≡ true) ring (i % length ring) nowhere known
        (let some_position : 0 < length ring = omega arith in grind arith)

  grown-AreMembers :
      (id : List ℕ) (most : ℕ) (out : List (List ℕ))
      → contains relays id ≡ true
      → AreMembers relays most out
      → length out < length relays
      → AreMembers relays (most + 1) (if contains out id then out else out ++ id ∷ [])
  grown-AreMembers id most out is_known v below = elim (Bool-cases (contains out id)) [
    | inl old ↦ rw old (record {
      known = v.known;
      distinct = v.distinct;
      few = omega (arith, v.few);
      no_more = v.no_more;
    })
    | inr new ↦ rw new (record {
      known = All-append _ out (id ∷ []) v.known (is_known, tt);
      distinct = Distinct-snoc out id v.distinct new;
      few = omega (arith, v.few, length-append out (id ∷ []));
      no_more = omega (arith, below, length-append out (id ∷ []));
    })
  ]

  weaken :
      (most more : ℕ) (out : List (List ℕ))
      → most ≤ more
      → AreMembers relays most out
      → AreMembers relays more out
  weaken most more out h v = record {
    known = v.known;
    distinct = v.distinct;
    few = omega (arith, v.few, h);
    no_more = v.no_more;
  }

  -- The loops either return, or go on below the size of the network.
  abbrev GoesOn : List (List ℕ) × Bool → Type 0
  GoesOn walked = (walked.1 ≡ true) ⊎ (length walked.0 < length relays)

  walk-AreMembers :
      (start k left most : ℕ) (out : List (List ℕ))
      → AreMembers relays most out
      → length out < length relays
      → AreMembers relays (most + left) (walk ring (length relays) start k left out).0
        × GoesOn (walk ring (length relays) start k left out)
  unfolding walk
  walk-AreMembers start k zero most out v below =
      (weaken most (most + 0) out (omega arith) v, inr below)
  walk-AreMembers start k (suc left) most out v below =
      let id = (get_or ring ((start + k) % length ring) nowhere).1 in
      let grown = if contains out id then out else out ++ id ∷ [] in
      let grown_v = grown-AreMembers id most out (found (start + k)) v below in
      elim (Bool-cases (leb (length relays) (length grown))) [
        | inl full ↦
            rw full (weaken (most + 1) (most + suc left) grown (omega arith) grown_v, inl refl)
        | inr room ↦
            let rest = walk-AreMembers start (k + 1) left (most + 1) grown grown_v (ground arith) in
            rw room (weaken ((most + 1) + left) (most + suc left) _ (omega arith) rest.0, rest.1)
      ]

  module _ (sha256 : List ℕ → List ℕ) (hs_id : List ℕ) (period : ℕ) (ring_salt : List ℕ) where
    replicas-AreMembers :
        (replica left most : ℕ) (out : List (List ℕ))
        → AreMembers relays most out
        → length out < length relays
        → AreMembers relays
            (most + hsdir_spread * left)
            (replicas sha256 hs_id period ring_salt ring (length relays) replica left out)
    unfolding replicas
    replicas-AreMembers replica zero most out v below =
        weaken most (most + hsdir_spread * 0) out (omega arith) v
    replicas-AreMembers replica (suc left) most out v below =
        let start = partition_point (hs_index sha256 hs_id replica period ring_salt) ring in
        let walked = walk ring (length relays) start 0 hsdir_spread out in
        let (walked_v, goes) = walk-AreMembers start 0 hsdir_spread most out v below in
        elim (Bool-cases walked.1) [
          | inl returned ↦ rw returned (
              weaken (most + hsdir_spread) (most + hsdir_spread * suc left) walked.0 (omega arith)
                walked_v)
          | inr goes_on ↦
              let room : length walked.0 < length relays = elim goes [
                | inl returned ↦ absurd (cc (returned, goes_on))
                | inr below' ↦ below'
              ] in
              let rest =
                replicas-AreMembers (replica + 1) left (most + hsdir_spread) walked.0 walked_v
                  room in
              rw goes_on (
                weaken ((most + hsdir_spread) + hsdir_spread * left)
                  (most + hsdir_spread * suc left) _ (omega arith) rest)
        ]

contains-cons :
    (x y : List ℕ) (xs : List (List ℕ)) → contains xs y ≡ true → contains (x ∷ xs) y ≡ true
unfolding contains
contains-cons x y xs h = ground arith

contains_self : (xs : List (List ℕ)) → All (λ r. contains xs r ≡ true) xs
contains_self [] = tt
contains_self (x ∷ xs) = (
  unfold contains in ground (arith, beq_refl x),
  All-map _ _ xs (λ r h. contains-cons x r xs h) (contains_self xs),
)

module _ (sha256 : List ℕ → List ℕ) (period : ℕ) (ring_salt : List ℕ) where
  All-placed :
      (P : List ℕ → Type 0) (xs : List (List ℕ))
      → All P xs
      → All (λ (p : List ℕ × List ℕ). P p.1) (map (placed sha256 period ring_salt) xs)
  All-placed P [] all = tt
  All-placed P (x ∷ xs) all = (all.0, All-placed P xs all.1)

  length-placed :
      (xs : List (List ℕ)) → length (map (placed sha256 period ring_salt) xs) ≡ length xs
  length-placed [] = refl
  length-placed (x ∷ xs) = omega (arith, length-placed xs)

  -- The responsible relays are relays of the network, each once, and six at most.
  pub responsible_hsdirs-AreMembers :
      (hs_id : List ℕ) (relays : List (List ℕ))
      → AreMembers relays 6 (responsible_hsdirs sha256 hs_id relays period ring_salt)
  unfolding responsible_hsdirs sorted_ring
  responsible_hsdirs-AreMembers hs_id relays = elim (Bool-cases (nat_eqb (length relays) 0)) [
    | inl nobody ↦
        rw nobody (record { known = tt; distinct = tt; few = omega arith; no_more = omega arith })
    | inr somebody ↦
        let all_placed = map (placed sha256 period ring_salt) relays in
        let ring = sort_by_key bytes_order (λ (p : List ℕ × List ℕ). p.0) all_placed in
        let size : length ring ≡ length relays =
          length-sort_by_key bytes_order (λ (p : List ℕ × List ℕ). p.0) all_placed
          ∙ length-placed relays in
        let known =
          sort_by_key-All bytes_order (λ (p : List ℕ × List ℕ). p.0)
            (λ p. contains relays p.1 ≡ true) all_placed
            (All-placed (λ r. contains relays r ≡ true) relays (contains_self relays)) in
        let some_relay : 0 < length relays = ground arith in
        rw somebody (
          replicas-AreMembers relays ring size known some_relay sha256 hs_id period ring_salt 0
            hsdir_replicas 0 []
            (record { known = tt; distinct = tt; few = omega arith; no_more = omega arith })
            some_relay)
  ]
