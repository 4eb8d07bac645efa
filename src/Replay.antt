-- ===== src/Replay.antt =====
-- The replay cache of phinet-core/src/replay.rs: ids with the second they expire, in memory and in
-- an append-only log. The clock is an argument; where the source reads it twice, so does the model.
-- The file system answers by Booleans: whether a call succeeds. A line that is no entry is `junk`,
-- or `blank`, and serde reads a line back as it wrote it.

mod Tests
pub mod Marks
pub mod Room
pub mod Log
pub mod Mirrors
pub mod Recovery
use phinet.Prelude.{
  ℕ, zero, suc, ◌+◌, ◌-◌, ◌*◌, ◌/◌, ◌&&◌, min, List, [], ◌∷◌, ◌++◌, map, Option, none, some, Bool,
  true, false, not, String, length, take, leb, ltb, if◌then◌else◌,
}
use phinet.Prelude.Eq.{string_eq}
use phinet.Prelude.Map.{Map, lookup, insert, remove, retain}
use phinet.Prelude.Order.{sort_by_key, nat_order}
use phinet.Prelude.Result.{Error, crypto, Result, ok, err, guard, ◌>>=◌, ◌>>◌}
use phinet.Prelude.Word.{u64_mod}

abbrev pub replay_max_entries : ℕ
replay_max_entries = 100000

abbrev pub replay_compact_lines : ℕ
replay_compact_lines = 50000

pub data LogLine : Type 0 where
  blank junk : LogLine
  entry : String → ℕ → LogLine

pub record ReplayCache : Type 0 where
  pub has_path : Bool
  pub default_ttl : ℕ
  pub entries : List (String × ℕ)
  pub log_open : Bool
  pub log_lines : ℕ
  pub disk : List LogLine

-- The loop of `load_from_disk`: the entries and the count of lines so far.
unfoldable pub load_lines : ℕ → List LogLine → List (String × ℕ) → ℕ → List (String × ℕ) × ℕ
load_lines now [] entries count = (entries, count)
load_lines now (blank ∷ lines) entries count = load_lines now lines entries count
load_lines now (junk ∷ lines) entries count = load_lines now lines entries (count + 1)
load_lines now (entry id exp ∷ lines) entries count =
    load_lines now lines (if leb exp now then entries else insert id exp entries) (count + 1)

unfoldable pub load_from_disk : ℕ → ReplayCache → ReplayCache
load_from_disk now c =
    let (entries, count) = load_lines now c.disk c.entries 0 in
    record c { entries = entries; log_lines = count }

-- An entry counts while its expiry is in the future.
abbrev pub is_live : ℕ → Option ℕ → Bool
is_live now none = false
is_live now (some exp) = ltb now exp

unfoldable pub seen : ℕ → String → ReplayCache → Bool
seen now id c = is_live now (lookup id c.entries)

unfoldable pub remove_all : List (String × ℕ) → List (String × ℕ) → List (String × ℕ)
remove_all [] entries = entries
remove_all ((k, _) ∷ ks) entries = remove_all ks (remove k entries)

-- The eviction inside `mark_with_ttl`, where the cache is full.
unfoldable pub make_room : ℕ → List (String × ℕ) → List (String × ℕ)
make_room now entries =
    let live = retain (λ k exp. not (leb exp now)) entries in
    if leb replay_max_entries (length entries)
    then (if leb replay_max_entries (length live)
        then remove_all (take (replay_max_entries / 10) (sort_by_key nat_order (λ p. p.1) live))
            live
        else live)
    else entries

-- `append_to_log`; `written` tells whether the write succeeds.
unfoldable pub append_to_log : Bool → String → ℕ → ReplayCache → ReplayCache
append_to_log written id exp c =
    if c.log_open
    then (if written
        then record c { disk = c.disk ++ entry id exp ∷ []; log_lines = c.log_lines + 1 }
        else c)
    else c

-- `saturating_add` on `u64`.
abbrev pub expiry : ℕ → ℕ → ℕ
expiry now ttl = min (now + ttl) (u64_mod - 1)

-- `mark_with_ttl`: the clock is read for the expiry, and again under the lock.
unfoldable pub mark_with_ttl : Bool → ℕ → ℕ → String → ℕ → ReplayCache → ReplayCache × Bool
mark_with_ttl written now_first now id ttl c =
    let exp = expiry now_first ttl in
    let entries = make_room now c.entries in
    if is_live now (lookup id entries)
    then (record c { entries = entries }, false)
    else (append_to_log written id exp (record c { entries = insert id exp entries }), true)

unfoldable pub mark : Bool → ℕ → ℕ → String → ReplayCache → ReplayCache × Bool
unfolding mark_with_ttl
mark written now_first now id c = mark_with_ttl written now_first now id c.default_ttl c

unfoldable pub evict_expired : ℕ → ReplayCache → ReplayCache × ℕ
evict_expired now c =
    let left = retain (λ k exp. ltb now exp) c.entries in
    (record c { entries = left }, length c.entries - length left)

abbrev pub to_lines : List (String × ℕ) → List LogLine
to_lines [] = []
to_lines ((id, exp) ∷ entries) = entry id exp ∷ to_lines entries

-- The steps of `compact` that may fail: the temporary file, the rename, the reopening. The handle
-- is dropped first and a failure leaves it so.
pub record CompactFs : Type 0 where
  pub created : Bool
  pub written : Bool
  pub renamed : Bool
  pub reopened : Bool

unfoldable pub compact : CompactFs → ReplayCache → ReplayCache × Result (Unit {0})
compact fs c =
    let closed = record c { log_open = false } in
    let renamed = record closed { disk = to_lines c.entries } in
    if not c.has_path
    then (c, ok tt)
    else if not (fs.created && fs.written && fs.renamed)
    then (closed, err crypto)
    else if not fs.reopened
    then (renamed, err crypto)
    else (record renamed { log_open = true; log_lines = length c.entries }, ok tt)

-- What `open` finds on disk: the log, or none; and whether it can make the folder, read, append.
pub record OpenFs : Type 0 where
  pub found : Option (List LogLine)
  pub readable : Bool
  pub folder_made : Bool
  pub appendable : Bool
  pub compacting : CompactFs

abbrev pub fresh_cache : ℕ → List LogLine → ReplayCache
fresh_cache default_ttl disk = record {
  has_path = true;
  default_ttl = default_ttl;
  entries = [];
  log_open = false;
  log_lines = 0;
  disk = disk;
}

unfoldable pub load_or_create : OpenFs → ℕ → ℕ → Result ReplayCache
load_or_create fs now default_ttl = elim fs.found [
  | none ↦ do guard fs.folder_made crypto; ok (fresh_cache default_ttl [])
  | some lines ↦ do
    guard fs.readable crypto
    ok (load_from_disk now (fresh_cache default_ttl lines))
]

unfoldable pub open_cache : OpenFs → ℕ → ℕ → Result ReplayCache
open_cache fs now default_ttl = do
  loaded ← load_or_create fs now default_ttl
  guard fs.appendable crypto
  let opened = record loaded { log_open = true }
  ok (
      if ltb replay_compact_lines opened.log_lines
      then (compact fs.compacting opened).0
      else opened)

-- `len`: the live entries.
unfoldable pub count_live : ℕ → List (String × ℕ) → ℕ
count_live now [] = 0
count_live now ((_, exp) ∷ entries) = (if ltb now exp then 1 else 0) + count_live now entries

unfoldable pub len : ℕ → ReplayCache → ℕ
len now c = count_live now c.entries
