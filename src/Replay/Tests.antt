-- ===== src/Replay/Tests.antt =====
-- The replay cache at concrete times.
use phinet.Prelude.{◌≡◌, refl, List, [], ◌∷◌, true, false, arith}
use phinet.Prelude.Result.{ok}
use phinet.Prelude.Map.{lookup}
use phinet.Replay.{ReplayCache, seen, mark_with_ttl, make_room, CompactFs, open_cache, fresh_cache}
use phinet.Replay.Marks.{Event, marked, evicted, compacted, run, mark_once}
use phinet.Replay.Log.{logged}
use phinet.Replay.Mirrors.{Mirrors}
use phinet.Replay.Recovery.{reopening, reopen-seen}

abbrev working : CompactFs
working = record { created = true; written = true; renamed = true; reopened = true }

abbrev opened : ReplayCache
opened = record (fresh_cache 3600 []) { log_open = true }

abbrev history : List Event
history = marked true 20 20 "b" 60 ∷ evicted 30 ∷ compacted working ∷ []

opened-Mirrors : Mirrors 0 opened
unfolding seen logged lookup
opened-Mirrors = record {
  same = λ t id h. refl;
  rising = λ id. tt;
  keyed = tt;
  opened = refl;
  on_disk = refl;
}

first_mark : (mark_with_ttl true 10 10 "a" 60 opened).1 ≡ true
unfolding mark_with_ttl lookup make_room
first_mark = refl

mark_once_example :
    (mark_with_ttl true 40 40 "a" 60 (run history (mark_with_ttl true 10 10 "a" 60 opened).0)).1
    ≡ false
mark_once_example =
    mark_once true true 10 10 40 40 "a" 60 60 history opened tt (omega arith) first_mark
      (omega arith) (omega arith)

reopen-seen_example :
    (reopened : ReplayCache) × (open_cache (reopening (run history opened).disk working) 40 3600
      ≡ ok reopened)
    × (seen 45 "b" reopened ≡ seen 45 "b" (run history opened))
reopen-seen_example =
    reopen-seen 0 3600 40 45 "b" history opened working opened-Mirrors (omega arith)
      ((refl, omega arith, omega arith), (omega arith, (refl, tt))) (omega arith) (omega arith)
