-- ===== src/SharedRandom.antt =====
-- The shared random value of phinet-core/src/shared_random.rs. Texts are their bytes; SHA-256 and
-- the hex encoder are parameters, and a contribution is drawn by the caller.
mod Tests
pub mod Agreement
use phinet.Prelude.{ℕ, List, [], ◌∷◌, ◌++◌, Option, none, some, Bool, length, ltb, if◌then◌else◌}
use phinet.Prelude.Eq.{◌==◌, nat_eq, list_eq}
use phinet.Prelude.Order.{lex_leb}
use phinet.Prelude.Word.{codes, be32, be64}

abbrev pub contribution_len : ℕ
contribution_len = 32

pub record Reveal : Type 0 where
  pub authority_id : List ℕ
  pub contribution : List ℕ

-- `BTreeMap::insert`, the keys in order.
unfoldable pub btree_insert : List ℕ → List ℕ → List (List ℕ × List ℕ) → List (List ℕ × List ℕ)
btree_insert k v [] = (k, v) ∷ []
btree_insert k v ((j, w) ∷ m) =
    if k == j
    then (k, v) ∷ m
    else if lex_leb k j
    then (k, v) ∷ (j, w) ∷ m
    else (j, w) ∷ btree_insert k v m

unfoldable pub collect : List Reveal → List (List ℕ × List ℕ) → List (List ℕ × List ℕ)
unfolding btree_insert
collect [] sorted = sorted
collect (r ∷ reveals) sorted = collect reveals (btree_insert r.authority_id r.contribution sorted)

-- What the loop of `compute_srv` feeds to the hash.
unfoldable pub hashed : List (List ℕ × List ℕ) → List ℕ
hashed [] = []
hashed ((id, v) ∷ sorted) = be32 (length id) ++ (id ++ (v ++ hashed sorted))

module _ (sha256 : List ℕ → List ℕ) (hex : List ℕ → List ℕ) where
  unfoldable pub commit : List ℕ → List ℕ → ℕ → List ℕ
  commit authority_id contribution period =
      hex (sha256 (codes "phinet-srv-commit-v1" ++ (authority_id ++ (be64 period ++ contribution))))

  unfoldable pub check_reveal : List ℕ → List ℕ → ℕ → List ℕ → Bool
  unfolding commit
  check_reveal authority_id contribution period commitment =
      commit authority_id contribution period == commitment

  unfoldable pub compute_srv : List Reveal → ℕ → ℕ → Option (List ℕ)
  unfolding collect hashed
  compute_srv reveals period min_reveals =
      let sorted = collect reveals [] in
      if ltb (length sorted) min_reveals
      then none
      else some (hex (sha256 (codes "phinet-srv-v1" ++ (be64 period ++ hashed sorted))))
