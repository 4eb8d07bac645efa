-- ===== src/Guards/Members.antt =====
-- The guard set of phinet-core/src/guards.rs over any history: never more than three, each once.
use phinet.Prelude.{
  ℕ, ◌≤◌, ◌≡◌, refl, List, [], ◌∷◌, ◌++◌, Option, Bool, false, not, ◌||◌, String, arith, length,
  filter_b, length-filter_b-le, length-append, leb, Bool-cases, inl, inr,
}
use phinet.Prelude.Eq.{◌==◌, string_eq}
use phinet.Dht.{NodeId}
use phinet.Guards.{
  GuardEntry, max_guards, should_retire, has_id, change_first, succeeded, failed, candidate, prune,
  add_candidate, mark_success, mark_failure, retain_ids,
}

pub data GuardEvent : Type 0 where
  added : ℕ → NodeId → String → ℕ → GuardEvent
  connected : ℕ → NodeId → GuardEvent
  failure : ℕ → NodeId → GuardEvent
  pruned : ℕ → GuardEvent
  retained : List NodeId → GuardEvent

abbrev pub Distinct : List GuardEntry → Type 0
Distinct [] = Unit
Distinct (g ∷ gs) = (has_id g.node_id gs ≡ false) × Distinct gs

pub record IsValid (gs : List GuardEntry) : Type 0 where
  pub few : length gs ≤ max_guards
  pub distinct : Distinct gs

has_id-filter :
    (p : GuardEntry → Bool) (id : String) (gs : List GuardEntry)
    → has_id id gs ≡ false
    → has_id id (filter_b p gs) ≡ false
unfolding has_id
has_id-filter p id [] h = refl
has_id-filter p id (g ∷ gs) h = ground (arith, has_id-filter p id gs)

Distinct-filter :
    (p : GuardEntry → Bool) (gs : List GuardEntry) → Distinct gs → Distinct (filter_b p gs)
Distinct-filter p [] h = tt
Distinct-filter p (g ∷ gs) h = elim (Bool-cases (p g)) [
  | inl kept ↦ rw kept (has_id-filter p g.node_id gs h.0, Distinct-filter p gs h.1)
  | inr dropped ↦ rw dropped (Distinct-filter p gs h.1)
]

filter-IsValid :
    (p : GuardEntry → Bool) (gs : List GuardEntry) → IsValid gs → IsValid (filter_b p gs)
filter-IsValid p gs v = record {
  few = omega (arith, v.few, length-filter_b-le p gs);
  distinct = Distinct-filter p gs v.distinct;
}

module _ (f : GuardEntry → GuardEntry)
    (same_id : (g : GuardEntry) → (f g).node_id ≡ g.node_id) where
  has_id-change_first :
      (id j : String) (gs : List GuardEntry) → has_id j (change_first id f gs) ≡ has_id j gs
  unfolding has_id change_first
  has_id-change_first id j [] = refl
  has_id-change_first id j (g ∷ gs) = ground (arith, same_id g, has_id-change_first id j gs)

  length-change_first :
      (id : String) (gs : List GuardEntry) → length (change_first id f gs) ≡ length gs
  unfolding change_first
  length-change_first id [] = refl
  length-change_first id (g ∷ gs) = ground (arith, length-change_first id gs)

  Distinct-change_first :
      (id : String) (gs : List GuardEntry) → Distinct gs → Distinct (change_first id f gs)
  unfolding change_first
  Distinct-change_first id [] h = tt
  Distinct-change_first id (g ∷ gs) h = elim (Bool-cases (g.node_id == id)) [
    | inl here ↦ rw (here, same_id g) h
    | inr there ↦
        rw (there, has_id-change_first id g.node_id gs) (h.0, Distinct-change_first id gs h.1)
  ]

  change_first-IsValid :
      (id : String) (gs : List GuardEntry) → IsValid gs → IsValid (change_first id f gs)
  change_first-IsValid id gs v = record {
    few = omega (arith, v.few, length-change_first id gs);
    distinct = Distinct-change_first id gs v.distinct;
  }

string_sym : (a b : String) → (a == b) ≡ false → (b == a) ≡ false
string_sym a b h = ground (arith, string_eq.beq_iff a b, string_eq.beq_iff b a)

has_id-snoc :
    (id : String) (gs : List GuardEntry) (g : GuardEntry)
    → has_id id (gs ++ g ∷ []) ≡ (has_id id gs || (g.node_id == id))
unfolding has_id
has_id-snoc id [] g = ground arith
has_id-snoc id (h ∷ gs) g = ground (arith, has_id-snoc id gs g)

Distinct-snoc :
    (gs : List GuardEntry) (g : GuardEntry)
    → Distinct gs
    → has_id g.node_id gs ≡ false
    → Distinct (gs ++ g ∷ [])
unfolding has_id
Distinct-snoc [] g h new = (refl, tt)
Distinct-snoc (k ∷ gs) g h new = (
  rw (has_id-snoc k.node_id gs g) (ground (arith, h.0, string_sym k.node_id g.node_id)),
  Distinct-snoc gs g h.1 (ground arith),
)

module _ (encode : NodeId → String) (decode : String → Option NodeId) where
  unfoldable pub step : GuardEvent → List GuardEntry → List GuardEntry
  step (added now id host port) gs = (add_candidate encode now id host port gs).0
  step (connected now id) gs = mark_success encode now id gs
  step (failure now id) gs = mark_failure encode now id gs
  step (pruned now) gs = (prune now gs).0
  step (retained keep) gs = (retain_ids decode keep gs).0

  unfoldable pub run : List GuardEvent → List GuardEntry → List GuardEntry
  unfolding step
  run [] gs = gs
  run (e ∷ events) gs = run events (step e gs)

  add_candidate-IsValid :
      (now : ℕ) (id : NodeId) (host : String) (port : ℕ) (gs : List GuardEntry)
      → IsValid gs
      → IsValid (add_candidate encode now id host port gs).0
  unfolding add_candidate
  add_candidate-IsValid now id host port gs v =
      let live = λ (g : GuardEntry). not (should_retire now g) in
      let left = filter_b live gs in
      elim (Bool-cases (has_id (encode id) gs)) [
        | inl known ↦ rw known v
        | inr new ↦ rw new (elim (Bool-cases (leb max_guards (length left))) [
          | inl full ↦ rw full (filter-IsValid live gs v)
          | inr room ↦ rw room (record {
            few = ground (arith, length-append left (candidate now (encode id) host port ∷ []));
            distinct =
                Distinct-snoc left (candidate now (encode id) host port)
                  (Distinct-filter live gs v.distinct) (has_id-filter live (encode id) gs new);
          })
        ])
      ]

  step-IsValid : (e : GuardEvent) (gs : List GuardEntry) → IsValid gs → IsValid (step e gs)
  unfolding step mark_success mark_failure prune retain_ids
  step-IsValid (added now id host port) gs v = add_candidate-IsValid now id host port gs v
  step-IsValid (connected now id) gs v =
      change_first-IsValid (succeeded now) (λ g. refl) (encode id) gs v
  step-IsValid (failure now id) gs v =
      change_first-IsValid (failed now) (λ g. refl) (encode id) gs v
  step-IsValid (pruned now) gs v = filter-IsValid _ gs v
  step-IsValid (retained keep) gs v = filter-IsValid _ gs v

  -- Whatever happens to a set of at most three guards with different ids, it stays one.
  pub run-IsValid_guards :
      (events : List GuardEvent) (gs : List GuardEntry) → IsValid gs → IsValid (run events gs)
  unfolding run
  run-IsValid_guards [] gs v = v
  run-IsValid_guards (e ∷ events) gs v = run-IsValid_guards events (step e gs) (step-IsValid e gs v)
