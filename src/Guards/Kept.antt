-- ===== src/Guards/Kept.antt =====
-- How long phinet-core/src/guards.rs keeps a guard, and when it tries one again.
use phinet.Prelude.{
  ℕ, ◌+◌, ◌-◌, ◌<◌, ◌≡◌, refl, ap, ◌∙◌, List, [], ◌∷◌, ◌++◌, Option, none, some, Bool, true, false,
  not, ◌&&◌, ◌||◌, String, arith, All, length, filter_b, leb, ltb, if◌then◌else◌, Bool-cases, inl,
  inr,
}
use phinet.Prelude.Eq.{◌==◌, string_eq}
use phinet.Dht.{NodeId}
use phinet.Guards.{
  GuardEntry, max_guards, guard_lifetime, guard_retry_interval, should_retire, should_try, has_id,
  change_first, succeeded, failed, prune, add_candidate, mark_success, mark_failure,
}
use phinet.Guards.Members.{GuardEvent, added, connected, failure, pruned, retained, step, run}

-- The guard of an id, as `iter().find(…)` finds it.
unfoldable pub find_guard : String → List GuardEntry → Option GuardEntry
find_guard id [] = none
find_guard id (g ∷ gs) = if g.node_id == id then some g else find_guard id gs

-- A guard that has not failed since it was last reached, first seen at `first`.
pub record IsUp (id : String) (first : ℕ) (gs : List GuardEntry) : Type 0 where
  pub entry : GuardEntry
  pub found : find_guard id gs ≡ some entry
  pub reachable : entry.unreachable_since ≡ none
  pub since : entry.first_seen ≡ first

find_guard-filter :
    (p : GuardEntry → Bool) (id : String) (gs : List GuardEntry) (g : GuardEntry)
    → find_guard id gs ≡ some g
    → p g ≡ true
    → find_guard id (filter_b p gs) ≡ some g
unfolding find_guard
find_guard-filter p id [] g found passes = cc
find_guard-filter p id (k ∷ gs) g found passes = elim (Bool-cases (k.node_id == id)) [
  | inl here ↦ ground (arith, here)
  | inr there ↦ ground (arith, there, find_guard-filter p id gs g)
]

find_guard-append :
    (id : String) (gs rest : List GuardEntry) (g : GuardEntry)
    → find_guard id gs ≡ some g
    → find_guard id (gs ++ rest) ≡ some g
unfolding find_guard
find_guard-append id [] rest g found = cc
find_guard-append id (k ∷ gs) rest g found = ground (arith, find_guard-append id gs rest g)

find_guard-change_same :
    (f : GuardEntry → GuardEntry) (same_id : (g : GuardEntry) → (f g).node_id ≡ g.node_id)
    (id : String) (gs : List GuardEntry) (g : GuardEntry)
    → find_guard id gs ≡ some g
    → find_guard id (change_first id f gs) ≡ some (f g)
unfolding find_guard change_first
find_guard-change_same f same_id id [] g found = cc
find_guard-change_same f same_id id (k ∷ gs) g found = elim (Bool-cases (k.node_id == id)) [
  | inl here ↦
      let head : ((f k).node_id == id) ≡ true = rw (same_id k) here in
      let which : k ≡ g = ground (arith, here, found) in
      rw (here, head) (ap (λ (x : GuardEntry). some (f x)) which)
  | inr there ↦ rw (there, there) (find_guard-change_same f same_id id gs g (ground (arith, there)))
]

find_guard-change_other :
    (f : GuardEntry → GuardEntry) (same_id : (g : GuardEntry) → (f g).node_id ≡ g.node_id)
    (id other : String) (gs : List GuardEntry)
    → (other == id) ≡ false
    → find_guard id (change_first other f gs) ≡ find_guard id gs
unfolding find_guard change_first
find_guard-change_other f same_id id other [] apart = refl
find_guard-change_other f same_id id other (k ∷ gs) apart = elim (Bool-cases (k.node_id == other)) [
  | inl here ↦
      let e = (string_eq.beq_iff k.node_id other).0 here in rw (here, same_id k, e, apart) refl
  | inr there ↦ ground (arith, there, find_guard-change_other f same_id id other gs apart)
]

-- What may happen to a guard without costing it its place: everything but a failure of its own or
-- the consensus, before its sixty days are over.
abbrev pub Spares : (NodeId → String) → String → ℕ → GuardEvent → Type 0
Spares encode id first (added now other host port) = now < first + guard_lifetime
Spares encode id first (connected now other) = Unit
Spares encode id first (failure now other) = (encode other == id) ≡ false
Spares encode id first (pruned now) = now < first + guard_lifetime
Spares encode id first (retained keep) = ⊥

stays :
    (now first : ℕ) (g : GuardEntry)
    → g.unreachable_since ≡ none
    → g.first_seen ≡ first
    → now < first + guard_lifetime
    → not (should_retire now g) ≡ true
unfolding should_retire
stays now first g reachable since before = rw (reachable, since) (ground arith)

filter-IsUp :
    (now first : ℕ) (id : String) (gs : List GuardEntry)
    → IsUp id first gs
    → now < first + guard_lifetime
    → IsUp id first (filter_b (λ g. not (should_retire now g)) gs)
filter-IsUp now first id gs up before = record {
  entry = up.entry;
  found =
      find_guard-filter (λ g. not (should_retire now g)) id gs up.entry up.found
        (stays now first up.entry up.reachable up.since before);
  reachable = up.reachable;
  since = up.since;
}

append-IsUp :
    (first : ℕ) (id : String) (gs rest : List GuardEntry)
    → IsUp id first gs
    → IsUp id first (gs ++ rest)
append-IsUp first id gs rest up = record {
  entry = up.entry;
  found = find_guard-append id gs rest up.entry up.found;
  reachable = up.reachable;
  since = up.since;
}

module _ (encode : NodeId → String) (decode : String → Option NodeId) (id : String)
    (first : ℕ) where
  add-IsUp :
      (now : ℕ) (other : NodeId) (host : String) (port : ℕ) (gs : List GuardEntry)
      → IsUp id first gs
      → now < first + guard_lifetime
      → IsUp id first (add_candidate encode now other host port gs).0
  unfolding add_candidate
  add-IsUp now other host port gs up before =
      let left = filter_b (λ g. not (should_retire now g)) gs in
      let left_up = filter-IsUp now first id gs up before in
      elim (Bool-cases (has_id (encode other) gs)) [
        | inl known ↦ rw known up
        | inr new ↦ rw new (elim (Bool-cases (leb max_guards (length left))) [
          | inl full ↦ rw full left_up
          | inr room ↦ rw room (append-IsUp first id left _ left_up)
        ])
      ]

  success-IsUp :
      (now : ℕ) (other : NodeId) (gs : List GuardEntry)
      → IsUp id first gs
      → IsUp id first (mark_success encode now other gs)
  unfolding mark_success
  success-IsUp now other gs up = elim (Bool-cases (encode other == id)) [
    | inl same ↦
        let key : encode other ≡ id = (string_eq.beq_iff (encode other) id).0 same in
        rw key (record {
          entry = succeeded now up.entry;
          found = find_guard-change_same (succeeded now) (λ g. refl) id gs up.entry up.found;
          reachable = refl;
          since = up.since;
        })
    | inr apart ↦ record {
      entry = up.entry;
      found =
          find_guard-change_other (succeeded now) (λ g. refl) id (encode other) gs apart ∙ up.found;
      reachable = up.reachable;
      since = up.since;
    }
  ]

  failure-IsUp :
      (now : ℕ) (other : NodeId) (gs : List GuardEntry)
      → IsUp id first gs
      → (encode other == id) ≡ false
      → IsUp id first (mark_failure encode now other gs)
  unfolding mark_failure
  failure-IsUp now other gs up apart = record {
    entry = up.entry;
    found = find_guard-change_other (failed now) (λ g. refl) id (encode other) gs apart ∙ up.found;
    reachable = up.reachable;
    since = up.since;
  }

  -- A guard that does not fail keeps its place for sixty days from when it was first seen,
  -- whatever candidates come, whatever is pruned, and whatever other guards do, as long as the
  -- consensus drops nobody.
  pub run-IsUp :
      (events : List GuardEvent) (gs : List GuardEntry)
      → IsUp id first gs
      → All (Spares encode id first) events
      → IsUp id first (run encode decode events gs)
  unfolding run step
  run-IsUp [] gs up spared = up
  run-IsUp (added now other host port ∷ events) gs up spared =
      run-IsUp events (add_candidate encode now other host port gs).0
        (add-IsUp now other host port gs up spared.0) spared.1
  run-IsUp (connected now other ∷ events) gs up spared =
      run-IsUp events (mark_success encode now other gs) (success-IsUp now other gs up) spared.1
  run-IsUp (failure now other ∷ events) gs up spared =
      run-IsUp events (mark_failure encode now other gs) (failure-IsUp now other gs up spared.0)
        spared.1
  run-IsUp (pruned now ∷ events) gs up spared =
      run-IsUp events (prune now gs).0 (unfold prune in filter-IsUp now first id gs up spared.0)
        spared.1
  run-IsUp (retained keep ∷ events) gs up spared = absurd spared.0

  -- A guard that fails after it was up is left alone for five minutes and then tried again, until
  -- it has been away for a day or its sixty days are over; then it is retired.
  pub should_try-failure :
      (now later : ℕ) (other : NodeId) (gs : List GuardEntry)
      → (up : IsUp id first gs) → (encode other == id) ≡ true
      → (g : GuardEntry) × (find_guard id (mark_failure encode now other gs) ≡ some g)
        × (should_try later g ≡ (
            ltb (later - first) guard_lifetime
            && ltb (later - now) 86400
            && leb guard_retry_interval (later - now)))
        × (should_retire later g ≡ (leb guard_lifetime (later - first) || leb 86400 (later - now)))
  unfolding should_try should_retire mark_failure
  should_try-failure now later other gs up same =
      let key : encode other ≡ id = (string_eq.beq_iff (encode other) id).0 same in
      (
        failed now up.entry,
        rw key (find_guard-change_same (failed now) (λ g. refl) id gs up.entry up.found),
        rw (up.reachable, up.since) (ground arith),
        rw (up.reachable, up.since) refl,
      )
