-- ===== src/Replay/Recovery.antt =====
-- A crash of the node of phinet-core/src/replay.rs: what the log on disk says is what memory said.
use phinet.Prelude.{
  ℕ, ◌+◌, ◌≤◌, ◌<◌, ◌≡◌, refl, ◌∙◌, List, [], ◌∷◌, some, true, String, arith, length, ltb,
  if◌then◌else◌,
}
use phinet.Prelude.Eq.{string_eq}
use phinet.Prelude.Map.{lookup}
use phinet.Prelude.Result.{ok}
use phinet.Replay.{
  ReplayCache, LogLine, replay_max_entries, replay_compact_lines, seen, load_lines, load_from_disk,
  expiry, evict_expired, CompactFs, compact, OpenFs, fresh_cache, load_or_create, open_cache,
}
use phinet.Replay.Marks.{
  Event, marked, evicted, compacted, step, run, entries-mark, length-insert-le, length-retain-le,
}
use phinet.Replay.Log.{load_lines-logged}
use phinet.Replay.Mirrors.{Mirrors, every_step, mark-Mirrors, evict-Mirrors, compact-Mirrors}

-- A step whose writes succeed, at a time not before `now`, and with a lifetime that outlasts the
-- gap between the two readings of the clock.
abbrev pub Timely : ℕ → Event → Type 0
Timely now (marked written now_first n id ttl) =
    (written ≡ true) × (now ≤ n) × (n ≤ expiry now_first ttl)
Timely now (evicted n) = now ≤ n
Timely now (compacted fs) = every_step fs ≡ true

abbrev pub time_after : ℕ → Event → ℕ
time_after now (marked written now_first n id ttl) = n
time_after now (evicted n) = n
time_after now (compacted fs) = now

abbrev pub AllTimely : ℕ → List Event → Type 0
AllTimely now [] = Unit
AllTimely now (e ∷ events) = Timely now e × AllTimely (time_after now e) events

abbrev pub last_time : ℕ → List Event → ℕ
last_time now [] = now
last_time now (e ∷ events) = last_time (time_after now e) events

step-Mirrors :
    (now : ℕ) (e : Event) (c : ReplayCache)
    → length c.entries < replay_max_entries
    → Mirrors now c
    → Timely now e
    → Mirrors (time_after now e) (step e c)
unfolding step
step-Mirrors now (marked written now_first n id ttl) c room mirrors timely =
    rw timely.0 (mark-Mirrors now_first now n id ttl c room mirrors timely.1 timely.2)
step-Mirrors now (evicted n) c room mirrors timely = evict-Mirrors now n c mirrors timely
step-Mirrors now (compacted fs) c room mirrors timely = compact-Mirrors now fs c mirrors timely

length-step :
    (e : Event) (c : ReplayCache)
    → length c.entries < replay_max_entries
    → length (step e c).entries ≤ length c.entries + 1
unfolding step
length-step (marked written now_first n id ttl) c room =
    rw (entries-mark written now_first n id ttl c room)
      (ground (arith, length-insert-le id (expiry now_first ttl) c.entries))
length-step (evicted n) c room =
    unfold evict_expired in omega (arith, length-retain-le (λ k exp. ltb n exp) c.entries)
length-step (compacted fs) c room = unfold compact in ground arith

run-Mirrors :
    (now n : ℕ) (events : List Event) (c : ReplayCache)
    → length c.entries ≤ n
    → n + length events ≤ replay_max_entries
    → Mirrors now c
    → AllTimely now events
    → Mirrors (last_time now events) (run events c)
unfolding run
run-Mirrors now n [] c small fits mirrors timely = mirrors
run-Mirrors now n (e ∷ events) c small fits mirrors timely =
    let room : length c.entries < replay_max_entries = omega (arith, small, fits) in
    run-Mirrors (time_after now e) (n + 1) events (step e c)
      (omega (arith, small, length-step e c room)) (omega (arith, fits))
      (step-Mirrors now e c room mirrors timely.0) timely.1

abbrev pub reopening : List LogLine → CompactFs → OpenFs
reopening lines compacting = record {
  found = some lines;
  readable = true;
  folder_made = true;
  appendable = true;
  compacting = compacting;
}

open-seen :
    (lines : List LogLine) (compacting : CompactFs) (now ttl : ℕ)
    → (reopened : ReplayCache) × (open_cache (reopening lines compacting) now ttl ≡ ok reopened)
      × (reopened.entries ≡ (load_lines now lines [] 0).0)
unfolding open_cache load_or_create load_from_disk
open-seen lines compacting now ttl =
    let loaded = load_from_disk now (fresh_cache ttl lines) in
    let opened = record loaded { log_open = true } in
    (
      (if ltb replay_compact_lines opened.log_lines then (compact compacting opened).0 else opened),
      refl,
      unfold compact in ground arith,
    )

-- A cache whose log agrees with it, as a new one's does, may run through any history of timely
-- steps that does not fill it, and be killed: whatever the outcome of a compaction, opening the
-- log again succeeds, and from that time on every id is seen exactly when it was seen before.
pub reopen-seen :
    (now ttl later t : ℕ) (id : String) (events : List Event) (c : ReplayCache)
    (compacting : CompactFs)
    → Mirrors now c
    → length c.entries + length events ≤ replay_max_entries
    → AllTimely now events
    → last_time now events ≤ later
    → later ≤ t
    → (reopened : ReplayCache) × (open_cache (reopening (run events c).disk compacting) later ttl
        ≡ ok reopened)
      × (seen t id reopened ≡ seen t id (run events c))
reopen-seen now ttl later t id events c compacting mirrors fits timely after in_future =
    let final = run-Mirrors now (length c.entries) events c (omega arith) fits mirrors timely in
    let (reopened, opens, entries) = open-seen (run events c).disk compacting later ttl in
    (reopened, opens, same_answer reopened entries final)
  where
    same_answer :
        (reopened : ReplayCache)
        → reopened.entries ≡ (load_lines later (run events c).disk [] 0).0
        → Mirrors (last_time now events) (run events c)
        → seen t id reopened ≡ seen t id (run events c)
    same_answer reopened entries final = rw (final.same t id (omega (arith, after, in_future))) (
        unfold seen in
        rw (entries) (
          load_lines-logged id later t (run events c).disk [] 0 in_future
            (unfold lookup in final.rising id)
          ∙ (unfold lookup in ground arith)))
