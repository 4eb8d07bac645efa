-- ===== src/SharedRandom/Agreement.antt =====
-- What the authorities of phinet-core/src/shared_random.rs agree on, and are bound to.
use phinet.Prelude.{ℕ, ◌≡◌, refl, ap, ◌∙◌, List, [], ◌∷◌, ◌++◌, true, false, arith}
use phinet.Prelude.Eq.{◌==◌, nat_eq, list_eq, list_eqb_iff, beq_refl}
use phinet.Prelude.Order.{
  Exchanged, same, swap, under, after, lex_leb_antisym, lex_leb_total, lex_leb_trans,
}
use phinet.Prelude.Word.{codes, be64}
use phinet.SharedRandom.{Reveal, btree_insert, collect, commit, check_reveal, compute_srv}

btree_insert_comm :
    (k k' v v' : List ℕ) (m : List (List ℕ × List ℕ))
    → (k == k') ≡ false
    → btree_insert k v (btree_insert k' v' m) ≡ btree_insert k' v' (btree_insert k v m)
unfolding btree_insert
btree_insert_comm k k' v v' [] apart =
    ground (arith, list_eqb_iff k k', list_eqb_iff k' k, lex_leb_antisym k k', lex_leb_total k k')
btree_insert_comm k k' v v' ((j, w) ∷ m) apart = ground (
  arith,
  list_eqb_iff k k',
  list_eqb_iff k' k,
  list_eqb_iff k j,
  list_eqb_iff k' j,
  lex_leb_antisym k k',
  lex_leb_total k k',
  lex_leb_antisym k j,
  lex_leb_total k j,
  lex_leb_antisym k' j,
  lex_leb_total k' j,
  lex_leb_trans k k' j,
  lex_leb_trans k' k j,
  btree_insert_comm k k' v v' m apart,
)

btree_insert-again :
    (k v v' : List ℕ) (m : List (List ℕ × List ℕ))
    → btree_insert k v (btree_insert k v' m) ≡ btree_insert k v m
unfolding btree_insert
btree_insert-again k v v' [] = ground (arith, beq_refl k)
btree_insert-again k v v' ((j, w) ∷ m) = ground (arith, beq_refl k, btree_insert-again k v v' m)

collect-Exchanged :
    {xs ys : List Reveal} (m : List (List ℕ × List ℕ))
    → Exchanged (λ (r : Reveal). r.authority_id) xs ys
    → collect xs m ≡ collect ys m
unfolding collect
collect-Exchanged m (same xs) = refl
collect-Exchanged m (swap x y zs apart) = ap (collect zs) (
    btree_insert_comm y.authority_id x.authority_id y.contribution x.contribution m
      (ground (arith, apart, list_eqb_iff y.authority_id x.authority_id)))
collect-Exchanged m (under x e) = collect-Exchanged (btree_insert x.authority_id x.contribution m) e
collect-Exchanged m (after e f) = collect-Exchanged m e ∙ collect-Exchanged m f

append_cancel : (xs : List ℕ) {ys zs : List ℕ} → xs ++ ys ≡ xs ++ zs → ys ≡ zs
append_cancel [] h = h
append_cancel (x ∷ xs) {ys} {zs} h = append_cancel xs (cc (h))

module _ (sha256 : List ℕ → List ℕ) (hex : List ℕ → List ℕ) where
  -- Every authority computes the same value, in whatever order the reveals of different
  -- authorities reached it.
  pub compute_srv-Exchanged :
      (period min_reveals : ℕ) (xs ys : List Reveal)
      → Exchanged (λ (r : Reveal). r.authority_id) xs ys
      → compute_srv sha256 hex xs period min_reveals ≡ compute_srv sha256 hex ys period min_reveals
  unfolding compute_srv
  compute_srv-Exchanged period min_reveals xs ys e = rw (collect-Exchanged [] e) refl

  -- An authority counts once: a reveal that another of the same authority follows is as if it had
  -- not been sent.
  pub compute_srv-repeated :
      (period min_reveals : ℕ) (r r' : Reveal) (reveals : List Reveal)
      → (r.authority_id == r'.authority_id) ≡ true
      → compute_srv sha256 hex (r ∷ r' ∷ reveals) period min_reveals
        ≡ compute_srv sha256 hex (r' ∷ reveals) period min_reveals
  unfolding compute_srv collect
  compute_srv-repeated period min_reveals r r' reveals repeated =
      let key : r.authority_id ≡ r'.authority_id =
        (list_eqb_iff r.authority_id r'.authority_id).0 repeated in
      rw (key, btree_insert-again r'.authority_id r'.contribution r.contribution []) refl

  -- With a hash and an encoding that do not collide, a reveal that passes for an authority's
  -- commitment of a period is the value that was committed.
  pub check_reveal-binds :
      (authority_id contribution committed : List ℕ) (period : ℕ)
      → ((x y : List ℕ) → hex (sha256 x) ≡ hex (sha256 y) → x ≡ y)
      → check_reveal sha256 hex authority_id contribution period
          (commit sha256 hex authority_id committed period)
        ≡ true
      → contribution ≡ committed
  unfolding check_reveal commit
  check_reveal-binds authority_id contribution committed period no_collision passes =
      append_cancel (be64 period) (
        append_cancel authority_id (
          append_cancel (codes "phinet-srv-commit-v1")
            (no_collision _ _ ((list_eqb_iff _ _).0 passes))))
