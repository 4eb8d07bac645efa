-- ===== src/Prelude/Order.antt =====
-- Keys with a total Boolean order (Rust's `Ord`), as an instance, and the stable sorts over them.
use Prim.Native.Nat.{ℕ, zero, suc}
use mathlib.Core.Path.{◌≡◌, refl, ap, ◌∙◌}
use mathlib.Core.Bool.{Bool, true, false, ◌&&◌, ◌||◌}
use mathlib.Core.List.{List, [], ◌∷◌, Perm}
use mathlib.Core.List.Perm
use native.Mathlib.Omega.{arith}
use phinet.Prelude.Tests.{leb, ltb, if◌then◌else◌, Bool-cases}
use mathlib.Core.Logic.{◌≢◌, inl, inr}
use phinet.Prelude.Lists.{All, All-take, All-drop, length, take, drop}

pub record Order {ℓ} (Key : Type ℓ) : Type ℓ where
  pub lte : (x y : Key) → Bool
  pub lte_total : (x y : Key) → lte x y ≡ false → lte y x ≡ true
  pub lte_trans : (x y z : Key) → lte x y ≡ true → lte y z ≡ true → lte x z ≡ true

pub leb_total : (a b : ℕ) → leb a b ≡ false → leb b a ≡ true
leb_total a b h = ground arith

pub leb_trans : (a b c : ℕ) → leb a b ≡ true → leb b c ≡ true → leb a c ≡ true
leb_trans a b c h k = ground arith

instance abbrev pub nat_order : Order ℕ
nat_order = record { lte = leb; lte_total = leb_total; lte_trans = leb_trans }

-- The order of `u64` from the largest on, as in `sort_by(|a, b| b.cmp(a))`.
abbrev pub descending : Order ℕ
descending = record {
  lte = λ a b. leb b a;
  lte_total = λ a b. leb_total b a;
  lte_trans = λ a b c h k. leb_trans c b a k h;
}

-- Byte arrays are compared from the first byte on.
abbrev pub lex_leb : List ℕ → List ℕ → Bool
lex_leb [] ys = true
lex_leb (x ∷ xs) [] = false
lex_leb (x ∷ xs) (y ∷ ys) = ltb x y || (leb x y && lex_leb xs ys)

pub lex_leb_total : (xs ys : List ℕ) → lex_leb xs ys ≡ false → lex_leb ys xs ≡ true
lex_leb_total [] ys h = cc
lex_leb_total (x ∷ xs) [] h = refl
lex_leb_total (x ∷ xs) (y ∷ ys) h = ground (arith, lex_leb_total xs ys)

pub lex_leb_trans :
    (xs ys zs : List ℕ) → lex_leb xs ys ≡ true → lex_leb ys zs ≡ true → lex_leb xs zs ≡ true
lex_leb_trans [] ys zs h k = refl
lex_leb_trans (x ∷ xs) [] zs h k = cc
lex_leb_trans (x ∷ xs) (y ∷ ys) [] h k = cc
lex_leb_trans (x ∷ xs) (y ∷ ys) (z ∷ zs) h k = ground (arith, lex_leb_trans xs ys zs)

instance abbrev pub bytes_order : Order (List ℕ)
bytes_order = record { lte = lex_leb; lte_total = lex_leb_total; lte_trans = lex_leb_trans }

-- `sort_by_key`: stable, so an element goes before those that it ties with and came first of.
module _ {ℓ κ} {A : Type ℓ} {K : Type κ} (o : Order K) (key : A → K) where
  unfoldable pub insert_by_key : A → List A → List A
  insert_by_key x [] = x ∷ []
  insert_by_key x (y ∷ ys) = if o.lte (key x) (key y) then x ∷ y ∷ ys else y ∷ insert_by_key x ys

  unfoldable pub sort_by_key : List A → List A
  unfolding insert_by_key
  sort_by_key [] = []
  sort_by_key (x ∷ xs) = insert_by_key x (sort_by_key xs)

  abbrev pub IsBelow : A → List A → Type 0
  IsBelow x ys = All (λ y. o.lte (key x) (key y) ≡ true) ys

  abbrev pub IsSorted : List A → Type 0
  IsSorted [] = Unit
  IsSorted (x ∷ xs) = IsBelow x xs × IsSorted xs

  IsBelow-trans :
      (x y : A) (zs : List A) → o.lte (key x) (key y) ≡ true → IsBelow y zs → IsBelow x zs
  IsBelow-trans x y [] h below = tt
  IsBelow-trans x y (z ∷ zs) h below = (o.lte_trans _ _ _ h below.0, IsBelow-trans x y zs h below.1)

  IsBelow-insert_by_key :
      (x y : A) (zs : List A)
      → o.lte (key x) (key y) ≡ true
      → IsBelow x zs
      → IsBelow x (insert_by_key y zs)
  unfolding insert_by_key
  IsBelow-insert_by_key x y [] h below = (h, tt)
  IsBelow-insert_by_key x y (z ∷ zs) h below =
      ground (arith, IsBelow-insert_by_key x y zs h below.1)

  insert_by_key-IsSorted : (x : A) (ys : List A) → IsSorted ys → IsSorted (insert_by_key x ys)
  unfolding insert_by_key
  insert_by_key-IsSorted x [] sorted = (tt, tt)
  insert_by_key-IsSorted x (y ∷ ys) sorted = elim (Bool-cases (o.lte (key x) (key y))) [
    | inl before ↦ rw before ((before, IsBelow-trans x y ys before sorted.0), sorted)
    | inr after ↦ rw after (
      IsBelow-insert_by_key y x ys (o.lte_total _ _ after) sorted.0,
      insert_by_key-IsSorted x ys sorted.1,
    )
  ]

  pub sort_by_key-IsSorted : (xs : List A) → IsSorted (sort_by_key xs)
  unfolding sort_by_key
  sort_by_key-IsSorted [] = tt
  sort_by_key-IsSorted (x ∷ xs) = insert_by_key-IsSorted x _ (sort_by_key-IsSorted xs)

  insert_by_key-perm : (x : A) (ys : List A) → Perm (insert_by_key x ys) (x ∷ ys)
  unfolding insert_by_key
  insert_by_key-perm x [] = Perm.rfl
  insert_by_key-perm x (y ∷ ys) = elim (Bool-cases (o.lte (key x) (key y))) [
    | inl before ↦ rw before Perm.rfl
    | inr after ↦ rw after (Perm.trans (Perm.cons y (insert_by_key-perm x ys)) (Perm.swap x y ys))
  ]

  pub sort_by_key-perm : (xs : List A) → Perm (sort_by_key xs) xs
  unfolding sort_by_key
  sort_by_key-perm [] = Perm.rfl
  sort_by_key-perm (x ∷ xs) =
      Perm.trans (insert_by_key-perm x _) (Perm.cons x (sort_by_key-perm xs))

  insert_by_key-All {ν} :
      (P : A → Type ν) (x : A) (ys : List A) → P x → All P ys → All P (insert_by_key x ys)
  unfolding insert_by_key
  insert_by_key-All P x [] h all = (h, tt)
  insert_by_key-All P x (y ∷ ys) h all = elim (Bool-cases (o.lte (key x) (key y))) [
    | inl before ↦ rw before (h, all)
    | inr after ↦ rw after (all.0, insert_by_key-All P x ys h all.1)
  ]

  pub sort_by_key-All {ν} : (P : A → Type ν) (xs : List A) → All P xs → All P (sort_by_key xs)
  unfolding sort_by_key
  sort_by_key-All P [] all = tt
  sort_by_key-All P (x ∷ xs) all = insert_by_key-All P x _ all.0 (sort_by_key-All P xs all.1)

  length-insert_by_key : (x : A) (ys : List A) → length (insert_by_key x ys) ≡ length (x ∷ ys)
  unfolding insert_by_key
  length-insert_by_key x [] = refl
  length-insert_by_key x (y ∷ ys) = ground (arith, length-insert_by_key x ys)

  pub length-sort_by_key : (xs : List A) → length (sort_by_key xs) ≡ length xs
  unfolding sort_by_key
  length-sort_by_key [] = refl
  length-sort_by_key (x ∷ xs) =
      ground (arith, length-insert_by_key x (sort_by_key xs), length-sort_by_key xs)

-- A sorted list cut in two: the first part stays sorted, and is below the second.
module _ {ℓ κ} {A : Type ℓ} {K : Type κ} (o : Order K) (key : A → K) where
  pub IsSorted-take : (n : ℕ) (xs : List A) → IsSorted o key xs → IsSorted o key (take n xs)
  IsSorted-take zero xs sorted = tt
  IsSorted-take (suc n) [] sorted = tt
  IsSorted-take (suc n) (x ∷ xs) sorted = (All-take _ n xs sorted.0, IsSorted-take n xs sorted.1)

  pub take-IsBelow-drop :
      (n : ℕ) (xs : List A) → IsSorted o key xs → All (λ x. IsBelow o key x (drop n xs)) (take n xs)
  take-IsBelow-drop zero xs sorted = tt
  take-IsBelow-drop (suc n) [] sorted = tt
  take-IsBelow-drop (suc n) (x ∷ xs) sorted =
      (All-drop _ n xs sorted.0, take-IsBelow-drop n xs sorted.1)

pub lex_leb_antisym : (xs ys : List ℕ) → lex_leb xs ys ≡ true → lex_leb ys xs ≡ true → xs ≡ ys
lex_leb_antisym [] [] h k = refl
lex_leb_antisym [] (y ∷ ys) h k = cc
lex_leb_antisym (x ∷ xs) [] h k = cc
lex_leb_antisym (x ∷ xs) (y ∷ ys) h k = ground (arith, lex_leb_antisym xs ys)

-- Sorting does not see in which order elements with different keys came.
module _ {ℓ} {A : Type ℓ} (key : A → List ℕ) where
  abbrev by_key : A → List A → List A
  by_key = insert_by_key bytes_order key

  insert_by_key_comm :
      (x y : A) (zs : List A) → key x ≢ key y → by_key x (by_key y zs) ≡ by_key y (by_key x zs)
  unfolding insert_by_key
  insert_by_key_comm x y [] apart =
      ground (arith, lex_leb_antisym (key x) (key y), lex_leb_total (key x) (key y))
  insert_by_key_comm x y (z ∷ zs) apart = ground (
    arith,
    lex_leb_antisym (key x) (key y),
    lex_leb_total (key x) (key y),
    lex_leb_trans (key x) (key y) (key z),
    lex_leb_trans (key y) (key x) (key z),
    insert_by_key_comm x y zs apart,
  )

  -- One list from another by exchanging neighbours with different keys.
  pub data Exchanged : List A → List A → Type ℓ where
    same : (xs : List A) → Exchanged xs xs
    swap : (x y : A) (zs : List A) → key x ≢ key y → Exchanged (x ∷ y ∷ zs) (y ∷ x ∷ zs)
    under : (x : A) {ys zs : List A} → Exchanged ys zs → Exchanged (x ∷ ys) (x ∷ zs)
    after : {xs ys zs : List A} → Exchanged xs ys → Exchanged ys zs → Exchanged xs zs

  pub sort_by_key-Exchanged :
      {xs ys : List A}
      → Exchanged xs ys
      → sort_by_key bytes_order key xs ≡ sort_by_key bytes_order key ys
  unfolding sort_by_key
  sort_by_key-Exchanged (same xs) = refl
  sort_by_key-Exchanged (swap x y zs apart) = insert_by_key_comm x y _ apart
  sort_by_key-Exchanged (under x e) = ap (by_key x) (sort_by_key-Exchanged e)
  sort_by_key-Exchanged (after e f) = sort_by_key-Exchanged e ∙ sort_by_key-Exchanged f

  pub length-Exchanged : {xs ys : List A} → Exchanged xs ys → length xs ≡ length ys
  length-Exchanged (same xs) = refl
  length-Exchanged (swap x y zs apart) = refl
  length-Exchanged (under x e) = ap suc (length-Exchanged e)
  length-Exchanged (after e f) = length-Exchanged e ∙ length-Exchanged f
