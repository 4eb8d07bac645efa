-- ===== src/Prelude/Map.antt =====
-- A `HashMap` as an association list, over keys with `Eq`. Iteration order is the list's order.
use mathlib.Core.Path.{◌≡◌, refl, ap}
use mathlib.Core.Logic.{◌⊎◌, inl, inr}
use mathlib.Core.Bool.{Bool, true, false}
use mathlib.Core.List.{List, [], ◌∷◌}
use mathlib.Core.Option.{Option, none, some}
use native.Mathlib.Omega.{arith}
use phinet.Prelude.Tests.{if◌then◌else◌, Bool-cases}
use phinet.Prelude.Eq.{Eq, beq_refl}

abbrev pub Map {ℓ κ} : Type ℓ → Type κ → Type (ℓ ⊔ κ)
Map K V = List (K × V)

-- `Option::map`
abbrev pub map_option {ℓ κ} : {V : Type ℓ} {W : Type κ} → (V → W) → Option V → Option W
map_option f none = none
map_option f (some v) = some (f v)

module _ {ℓ κ} {K : Type ℓ} {V : Type κ} ⦃e : Eq K⦄ where
  unfoldable pub lookup : K → List (K × V) → Option V
  lookup k [] = none
  lookup k ((j, v) ∷ m) = if e.beq j k then some v else lookup k m

  unfoldable pub insert : K → V → List (K × V) → List (K × V)
  insert k v [] = (k, v) ∷ []
  insert k v ((j, w) ∷ m) = if e.beq j k then (k, v) ∷ m else (j, w) ∷ insert k v m

  unfoldable pub remove : K → List (K × V) → List (K × V)
  remove k [] = []
  remove k ((j, w) ∷ m) = let rest = remove k m in if e.beq j k then rest else (j, w) ∷ rest

  -- `if let Some(x) = m.get_mut(&k) { *x = f(x) }`
  unfoldable pub update : K → (V → V) → List (K × V) → List (K × V)
  update k f [] = []
  update k f ((j, w) ∷ m) = if e.beq j k then (j, f w) ∷ m else (j, w) ∷ update k f m

  pub lookup-insert :
      (k j : K) (v : V) (m : List (K × V))
      → lookup j (insert k v m) ≡ (if e.beq k j then some v else lookup j m)
  unfolding lookup insert
  lookup-insert k j v [] = refl
  lookup-insert k j v ((i, w) ∷ m) =
      ground (arith, e.beq_iff k j, e.beq_iff i k, e.beq_iff i j, lookup-insert k j v m)

  pub lookup-remove :
      (k j : K) (m : List (K × V))
      → lookup j (remove k m) ≡ (if e.beq k j then none else lookup j m)
  unfolding lookup remove
  lookup-remove k j [] = ground arith
  lookup-remove k j ((i, w) ∷ m) =
      ground (arith, e.beq_iff k j, e.beq_iff i k, e.beq_iff i j, lookup-remove k j m)

  pub lookup-update :
      (k j : K) (f : V → V) (m : List (K × V))
      → lookup j (update k f m) ≡ (if e.beq k j then map_option f (lookup j m) else lookup j m)
  unfolding lookup update
  lookup-update k j f [] = ground arith
  lookup-update k j f ((i, w) ∷ m) =
      ground (arith, e.beq_iff k j, e.beq_iff i k, e.beq_iff i j, lookup-update k j f m)

  -- A lookup after `retain` by a test on the value alone.
  unfoldable pub retain : (K → V → Bool) → List (K × V) → List (K × V)
  retain p [] = []
  retain p ((j, w) ∷ m) = let rest = retain p m in if p j w then (j, w) ∷ rest else rest

  -- Each key at most once, as in a hash map.
  abbrev pub Absent : K → List (K × V) → Type 0
  Absent k [] = Unit
  Absent k ((j, w) ∷ m) = (e.beq j k ≡ false) × Absent k m

  abbrev pub Keyed : List (K × V) → Type 0
  Keyed [] = Unit
  Keyed ((j, w) ∷ m) = Absent j m × Keyed m

-- What the general laws say at the key itself, and at any other.
module _ {ℓ κ} {K : Type ℓ} {V : Type κ} ⦃e : Eq K⦄ where
  pub lookup-insert_same : (k : K) (v : V) (m : List (K × V)) → lookup k (insert k v m) ≡ some v
  lookup-insert_same k v m = rw (lookup-insert k k v m, beq_refl k) refl

  pub lookup-insert_other :
      (k j : K) (v : V) (m : List (K × V))
      → e.beq k j ≡ false
      → lookup j (insert k v m) ≡ lookup j m
  lookup-insert_other k j v m h = rw (lookup-insert k j v m, h) refl

  pub lookup-remove_same : (k : K) (m : List (K × V)) → lookup k (remove k m) ≡ none
  lookup-remove_same k m = rw (lookup-remove k k m, beq_refl k) refl

  pub lookup-remove_other :
      (k j : K) (m : List (K × V)) → e.beq k j ≡ false → lookup j (remove k m) ≡ lookup j m
  lookup-remove_other k j m h = rw (lookup-remove k j m, h) refl

  -- What is still there after a removal was there before, under another key.
  pub lookup-remove-some :
      (k j : K) (v : V) (m : List (K × V))
      → lookup j (remove k m) ≡ some v
      → (e.beq k j ≡ false) × (lookup j m ≡ some v)
  lookup-remove-some k j v m h = ground (arith, lookup-remove k j m)

  -- A value found after an insertion is the new one, at its key, or was there before.
  pub lookup-insert-some :
      (k j : K) (v w : V) (m : List (K × V))
      → lookup j (insert k v m) ≡ some w
      → ((k ≡ j) × (v ≡ w)) ⊎ ((e.beq k j ≡ false) × (lookup j m ≡ some w))
  lookup-insert-some k j v w m h = elim (Bool-cases (e.beq k j)) [
    | inl same ↦ inl ((e.beq_iff k j).0 same, ground (arith, lookup-insert k j v m))
    | inr other ↦ inr (other, rw (← lookup-insert_other k j v m other) h)
  ]

-- `Option::filter`
abbrev pub keep_if {ℓ} : {V : Type ℓ} → (V → Bool) → Option V → Option V
keep_if p none = none
keep_if p (some v) = if p v then some v else none

beq_sym {ℓ} : {K : Type ℓ} ⦃e : Eq K⦄ (j k : K) → e.beq j k ≡ false → e.beq k j ≡ false
beq_sym ⦃e⦄ j k h = ground (arith, e.beq_iff j k, e.beq_iff k j)

-- Maps in which each key stands once stay so, and `retain` keeps what its test accepts.
module _ {ℓ κ} {K : Type ℓ} {V : Type κ} ⦃e : Eq K⦄ where
  pub lookup-Absent : (k : K) (m : List (K × V)) → Absent k m → lookup k m ≡ none
  unfolding lookup
  lookup-Absent k [] h = refl
  lookup-Absent k ((j, w) ∷ m) h = rw h.0 (lookup-Absent k m h.1)

  Absent-retain : (p : K → V → Bool) (k : K) (m : List (K × V)) → Absent k m → Absent k (retain p m)
  unfolding retain
  Absent-retain p k [] h = tt
  Absent-retain p k ((j, w) ∷ m) h = elim (Bool-cases (p j w)) [
    | inl kept ↦ rw kept (h.0, Absent-retain p k m h.1)
    | inr dropped ↦ rw dropped (Absent-retain p k m h.1)
  ]

  pub Keyed-retain : (p : K → V → Bool) (m : List (K × V)) → Keyed m → Keyed (retain p m)
  unfolding retain
  Keyed-retain p [] h = tt
  Keyed-retain p ((j, w) ∷ m) h = elim (Bool-cases (p j w)) [
    | inl kept ↦ rw kept (Absent-retain p j m h.0, Keyed-retain p m h.1)
    | inr dropped ↦ rw dropped (Keyed-retain p m h.1)
  ]

  Absent-insert :
      (j k : K) (v : V) (m : List (K × V))
      → e.beq j k ≡ false
      → Absent k m
      → Absent k (insert j v m)
  unfolding insert
  Absent-insert j k v [] apart h = (apart, tt)
  Absent-insert j k v ((i, w) ∷ m) apart h = elim (Bool-cases (e.beq i j)) [
    | inl same ↦ rw same (apart, h.1)
    | inr other ↦ rw other (h.0, Absent-insert j k v m apart h.1)
  ]

  pub Absent-of_eq : (j k : K) (m : List (K × V)) → e.beq j k ≡ true → Absent j m → Absent k m
  Absent-of_eq j k [] same h = tt
  Absent-of_eq j k ((i, w) ∷ m) same h = (
    ground (arith, h.0, e.beq_iff i k, e.beq_iff i j, e.beq_iff j k),
    Absent-of_eq j k m same h.1,
  )

  pub Keyed-insert : (k : K) (v : V) (m : List (K × V)) → Keyed m → Keyed (insert k v m)
  unfolding insert
  Keyed-insert k v [] h = (tt, tt)
  Keyed-insert k v ((j, w) ∷ m) h = elim (Bool-cases (e.beq j k)) [
    | inl same ↦ rw same (Absent-of_eq j k m same h.0, h.1)
    | inr other ↦ rw other (Absent-insert k j v m (beq_sym j k other) h.0, Keyed-insert k v m h.1)
  ]

  Absent-remove : (j k : K) (m : List (K × V)) → Absent k m → Absent k (remove j m)
  unfolding remove
  Absent-remove j k [] h = tt
  Absent-remove j k ((i, w) ∷ m) h = elim (Bool-cases (e.beq i j)) [
    | inl same ↦ rw same (Absent-remove j k m h.1)
    | inr other ↦ rw other (h.0, Absent-remove j k m h.1)
  ]

  pub Keyed-remove : (k : K) (m : List (K × V)) → Keyed m → Keyed (remove k m)
  unfolding remove
  Keyed-remove k [] h = tt
  Keyed-remove k ((j, w) ∷ m) h = elim (Bool-cases (e.beq j k)) [
    | inl same ↦ rw same (Keyed-remove k m h.1)
    | inr other ↦ rw other (Absent-remove k j m h.0, Keyed-remove k m h.1)
  ]

  Absent-update : (j k : K) (f : V → V) (m : List (K × V)) → Absent k m → Absent k (update j f m)
  unfolding update
  Absent-update j k f [] h = tt
  Absent-update j k f ((i, w) ∷ m) h = elim (Bool-cases (e.beq i j)) [
    | inl same ↦ rw same h
    | inr other ↦ rw other (h.0, Absent-update j k f m h.1)
  ]

  pub Keyed-update : (k : K) (f : V → V) (m : List (K × V)) → Keyed m → Keyed (update k f m)
  unfolding update
  Keyed-update k f [] h = tt
  Keyed-update k f ((j, w) ∷ m) h = elim (Bool-cases (e.beq j k)) [
    | inl same ↦ rw same h
    | inr other ↦ rw other (Absent-update k j f m h.0, Keyed-update k f m h.1)
  ]

  pub lookup-retain :
      (p : K → V → Bool) (k : K) (m : List (K × V))
      → Keyed m
      → lookup k (retain p m) ≡ keep_if (p k) (lookup k m)
  unfolding lookup retain
  lookup-retain p k [] h = refl
  lookup-retain p k ((j, w) ∷ m) h = elim (Bool-cases (e.beq j k)) [
    | inl same ↦
        let key : j ≡ k = (e.beq_iff j k).0 same in
        ground (
          arith,
          same,
          key,
          ap (λ (i : K). p i w) key,
          lookup-Absent k (retain p m) (Absent-retain p k m (Absent-of_eq j k m same h.0)),
        )
    | inr other ↦ ground (arith, other, lookup-retain p k m h.1)
  ]
