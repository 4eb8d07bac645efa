-- ===== src/GuardSample.antt =====
-- The sampled guard set of phinet-core/src/guard_sample.rs. The clock is an argument, in seconds;
-- the shuffle of the random source is a parameter. `saturating_sub` is `-` on ℕ.

mod Tests
pub mod History
use phinet.Prelude.{
  ℕ, ◌+◌, ◌-◌, ◌*◌, List, [], ◌∷◌, ◌++◌, Option, none, some, Bool, true, false, not, ◌&&◌, ◌||◌,
  String, length, take, map, filter_b, ltb, leb, if◌then◌else◌,
}
use phinet.Prelude.Eq.{◌==◌, string_eq}
use phinet.Prelude.Order.{nat_order, sort_by_key}
use phinet.Prelude.Word.{u64_mod}

abbrev pub sample_size : ℕ
sample_size = 20

abbrev pub min_filtered : ℕ
min_filtered = 5

abbrev pub sample_lifetime : ℕ
sample_lifetime = 120 * 24 * 3600

abbrev pub primary_count : ℕ
primary_count = 3

pub record SampledGuard : Type 0 where
  pub node_id_hex : String
  pub added : ℕ
  pub confirmed_at : Option ℕ

pub record SampledSet : Type 0 where
  pub guards : List SampledGuard

unfoldable pub is_expired : ℕ → SampledGuard → Bool
is_expired now g = ltb sample_lifetime (now - g.added)

abbrev is_some : Option ℕ → Bool
is_some none = false
is_some (some t) = true

unfoldable pub is_confirmed : SampledGuard → Bool
is_confirmed g = is_some g.confirmed_at

-- `unwrap_or(u64::MAX)`
abbrev confirmed_or_max : Option ℕ → ℕ
confirmed_or_max none = u64_mod - 1
confirmed_or_max (some t) = t

abbrev pub new_sample : SampledSet
new_sample = record { guards = [] }

unfoldable pub has_guard : String → List SampledGuard → Bool
has_guard id [] = false
has_guard id (g ∷ gs) = (g.node_id_hex == id) || has_guard id gs

-- `live.contains(id)`
unfoldable pub is_live : List String → String → Bool
is_live [] id = false
is_live (l ∷ live) id = (l == id) || is_live live id

unfoldable pub expire : ℕ → SampledSet → SampledSet
expire now s = record s { guards = filter_b (λ g. not (is_expired now g)) s.guards }

unfoldable pub filtered : List String → SampledSet → List SampledGuard
filtered live s = filter_b (λ g. is_live live g.node_id_hex) s.guards

abbrev is_empty {ℓ} : {A : Type ℓ} → List A → Bool
is_empty [] = true
is_empty (x ∷ xs) = false

abbrev drawn : ℕ → String → SampledGuard
drawn now id = record { node_id_hex = id; added = now; confirmed_at = none }

-- The relays that may be drawn.
abbrev draw_pool : List String → SampledSet → List String
draw_pool candidates s = filter_b (λ c. not (has_guard c s.guards)) candidates

unfoldable pub maybe_extend :
    (List String → List String) → List String → List String → ℕ → SampledSet → SampledSet × ℕ
unfolding expire filtered
maybe_extend shuffle candidates live now s =
    let kept = expire now s in
    let pool = draw_pool candidates kept in
    let chosen = take (sample_size - length kept.guards) (shuffle pool) in
    if leb min_filtered (length (filtered live kept)) && not (is_empty kept.guards)
    then (kept, 0)
    else if is_empty pool
    then (kept, 0)
    else (record kept { guards = kept.guards ++ map (drawn now) chosen }, length chosen)

unfoldable pub stamp_first : String → ℕ → List SampledGuard → List SampledGuard
stamp_first id now [] = []
stamp_first id now (g ∷ gs) =
    let rest = stamp_first id now gs in
    if g.node_id_hex == id
    then (if is_some g.confirmed_at then g else record g { confirmed_at = some now }) ∷ gs
    else g ∷ rest

unfoldable pub confirm : String → ℕ → SampledSet → SampledSet
confirm id now s = record s { guards = stamp_first id now s.guards }

unfoldable pub primary : List String → SampledSet → List String
unfolding filtered is_confirmed
primary live s =
    let usable = filtered live s in
    let confirmed = filter_b is_confirmed usable in
    let unconfirmed = filter_b (λ g. not (is_confirmed g)) usable in
    take primary_count (
      map (λ g. g.node_id_hex)
        (sort_by_key nat_order (λ g. confirmed_or_max g.confirmed_at) confirmed ++ unconfirmed))
