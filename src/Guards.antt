-- ===== src/Guards.antt =====
-- The entry guards of phinet-core/src/guards.rs. The clock is an argument, in seconds; `encode` and
-- `decode` are the hex crate's; the store on disk is what serde reads back, if it reads at all.

mod Tests
pub mod Members
pub mod Kept
use phinet.Prelude.{
  ℕ, ◌+◌, ◌-◌, ◌*◌, List, [], ◌∷◌, ◌++◌, Option, none, some, Bool, true, false, not, ◌&&◌, ◌||◌,
  String, length, filter_b, is_some, leb, ltb, if◌then◌else◌,
}
use phinet.Prelude.Eq.{◌==◌, string_eq, nat_eq, list_eq}
use phinet.Prelude.Result.{Result, ok, err, crypto, guard, ◌>>=◌, ◌>>◌}
use phinet.Dht.{NodeId}

abbrev pub max_guards : ℕ
max_guards = 3

abbrev pub guard_lifetime : ℕ
guard_lifetime = 60 * 24 * 3600

abbrev pub guard_unreachable_before_drop : ℕ
guard_unreachable_before_drop = 24 * 3600

abbrev pub guard_retry_interval : ℕ
guard_retry_interval = 300

pub record GuardEntry : Type 0 where
  pub node_id : String
  pub host : String
  pub port : ℕ
  pub first_seen : ℕ
  pub last_tried : ℕ
  pub last_connected : ℕ
  pub unreachable_since : Option ℕ
  pub confirmed : Bool

-- `saturating_sub` is `-` on ℕ.
abbrev pub unreachable_too_long : ℕ → Option ℕ → Bool
unreachable_too_long now none = false
unreachable_too_long now (some since) = leb guard_unreachable_before_drop (now - since)

unfoldable pub should_retire : ℕ → GuardEntry → Bool
should_retire now g =
    leb guard_lifetime (now - g.first_seen) || unreachable_too_long now g.unreachable_since

unfoldable pub should_try : ℕ → GuardEntry → Bool
unfolding should_retire
should_try now g =
    if should_retire now g
    then false
    else if is_some g.unreachable_since
    then leb guard_retry_interval (now - g.last_tried)
    else true

unfoldable pub has_id : String → List GuardEntry → Bool
has_id id [] = false
has_id id (g ∷ gs) = (g.node_id == id) || has_id id gs

-- `iter_mut().find(…)` and what is done to the guard it finds.
unfoldable pub change_first : String → (GuardEntry → GuardEntry) → List GuardEntry → List GuardEntry
change_first id f [] = []
change_first id f (g ∷ gs) = if g.node_id == id then f g ∷ gs else g ∷ change_first id f gs

abbrev pub succeeded : ℕ → GuardEntry → GuardEntry
succeeded now g = record g {
  last_tried = now;
  last_connected = now;
  unreachable_since = none;
  confirmed = true;
}

abbrev first_failure : ℕ → Option ℕ → Option ℕ
first_failure now none = some now
first_failure now (some since) = some since

abbrev pub failed : ℕ → GuardEntry → GuardEntry
failed now g = record g {
  last_tried = now;
  unreachable_since = first_failure now g.unreachable_since;
}

abbrev pub candidate : ℕ → String → String → ℕ → GuardEntry
candidate now id host port = record {
  node_id = id;
  host = host;
  port = port;
  first_seen = now;
  last_tried = 0;
  last_connected = 0;
  unreachable_since = none;
  confirmed = false;
}

unfoldable pub prune : ℕ → List GuardEntry → List GuardEntry × ℕ
prune now gs =
    let left = filter_b (λ g. not (should_retire now g)) gs in (left, length gs - length left)

unfoldable pub active_count : ℕ → List GuardEntry → ℕ
active_count now gs = length (filter_b (λ g. not (should_retire now g)) gs)

module _ (encode : NodeId → String) where
  unfoldable pub is_guard : NodeId → List GuardEntry → Bool
  is_guard node_id gs = has_id (encode node_id) gs

  unfoldable pub add_candidate : ℕ → NodeId → String → ℕ → List GuardEntry → List GuardEntry × Bool
  add_candidate now node_id host port gs =
      let id = encode node_id in
      let left = filter_b (λ g. not (should_retire now g)) gs in
      if has_id id gs
      then (gs, false)
      else if leb max_guards (length left)
      then (left, false)
      else (left ++ candidate now id host port ∷ [], true)

  unfoldable pub mark_success : ℕ → NodeId → List GuardEntry → List GuardEntry
  mark_success now node_id gs = change_first (encode node_id) (succeeded now) gs

  unfoldable pub mark_failure : ℕ → NodeId → List GuardEntry → List GuardEntry
  mark_failure now node_id gs = change_first (encode node_id) (failed now) gs

unfoldable pub in_set : List NodeId → NodeId → Bool
in_set [] id = false
in_set (k ∷ ks) id = (k == id) || in_set ks id

-- `hex::decode` to 32 bytes, and in the set of ids to keep.
unfoldable pub is_kept : List NodeId → Option NodeId → Bool
unfolding in_set
is_kept keep none = false
is_kept keep (some id) = (length id == 32) && in_set keep id

abbrev of_length : NodeId → Result NodeId
of_length v = if length v == 32 then ok v else err crypto

module _ (decode : String → Option NodeId) where
  unfoldable pub retain_ids : List NodeId → List GuardEntry → List GuardEntry × ℕ
  retain_ids keep gs =
      let left = filter_b (λ g. is_kept keep (decode g.node_id)) gs in
      (left, length gs - length left)

  unfoldable pub node_id_bytes : GuardEntry → Result NodeId
  node_id_bytes g = elim (decode g.node_id) [ none ↦ err crypto | some v ↦ of_length v ]

-- What `open` finds: no file, a file that cannot be read or parsed, or the guards it was saved with.
unfoldable pub open_guards : Option (Option (List GuardEntry)) → List GuardEntry
open_guards none = []
open_guards (some none) = []
open_guards (some (some gs)) = gs

-- `save` through a temporary file: the file afterwards is the old one or the new one.
unfoldable pub save :
    Bool
    → Bool
    → Bool
    → List GuardEntry
    → Option (Option (List GuardEntry))
    → Option (Option (List GuardEntry)) × Result (Unit {0})
save folder_made written renamed gs file =
    if not folder_made
    then (file, err crypto)
    else if not written
    then (file, err crypto)
    else if not renamed
    then (file, err crypto)
    else (some (some gs), ok tt)
