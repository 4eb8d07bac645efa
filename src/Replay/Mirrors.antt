-- ===== src/Replay/Mirrors.antt =====
-- The log of phinet-core/src/replay.rs against memory, call by call.
use phinet.Prelude.{
  ℕ, ◌≤◌, ◌<◌, ◌≡◌, refl, ◌∙◌, [], ◌∷◌, ◌++◌, Option, none, some, Bool, true, false, ◌&&◌, String,
  arith, length, ltb, if◌then◌else◌, Bool-cases, inl, inr,
}
use phinet.Prelude.Eq.{string_eq}
use phinet.Prelude.Map.{
  lookup, insert, lookup-insert, Keyed, Keyed-insert, Keyed-retain, lookup-retain, keep_if,
}
use phinet.Replay.{
  ReplayCache, entry, replay_max_entries, is_live, seen, append_to_log, expiry, mark_with_ttl,
  evict_expired, CompactFs, compact, to_lines,
}
use phinet.Replay.Marks.{entries-mark, make_room-short}
use phinet.Replay.Log.{logged, Rising, logged-snoc, Rising-snoc, logged-to_lines, Rising-to_lines}

-- From `now` on the log says of every id what memory says, and is open for more.
pub record Mirrors (now : ℕ) (c : ReplayCache) : Type 0 where
  pub same : (t : ℕ) (id : String) → now ≤ t → seen t id c ≡ logged t id c.disk
  pub rising : (id : String) → Rising id 0 c.disk
  pub keyed : Keyed c.entries
  pub opened : c.log_open ≡ true
  pub on_disk : c.has_path ≡ true

abbrev pub every_step : CompactFs → Bool
every_step fs = fs.created && fs.written && fs.renamed && fs.reopened

is_live-stale : (n t : ℕ) (o : Option ℕ) → is_live n o ≡ false → n ≤ t → is_live t o ≡ false
is_live-stale n t none stale h = refl
is_live-stale n t (some exp) stale h = ground arith

module _ (now_first now n : ℕ) (id : String) (ttl : ℕ) (c : ReplayCache)
    (room : length c.entries < replay_max_entries) (mirrors : Mirrors now c) (later : now ≤ n)
    (lasts : n ≤ expiry now_first ttl) where
  disk-mark :
      (mark_with_ttl true now_first n id ttl c).0.disk
      ≡ (if seen n id c then c.disk else c.disk ++ entry id (expiry now_first ttl) ∷ [])
  unfolding mark_with_ttl append_to_log seen
  disk-mark = rw (make_room-short n c.entries room) (ground (arith, mirrors.opened))

  open-mark : (mark_with_ttl true now_first n id ttl c).0.log_open ≡ true
  unfolding mark_with_ttl append_to_log
  open-mark = rw (make_room-short n c.entries room) (ground (arith, mirrors.opened))

  path-mark : (mark_with_ttl true now_first n id ttl c).0.has_path ≡ true
  unfolding mark_with_ttl append_to_log
  path-mark = rw (make_room-short n c.entries room) (ground (arith, mirrors.on_disk))

  pub mark-Mirrors : Mirrors n (mark_with_ttl true now_first n id ttl c).0
  mark-Mirrors =
      let entries = entries-mark true now_first n id ttl c room in
      elim (Bool-cases (seen n id c)) [
        | inl old ↦ record {
          same = λ t other h. kept (entries ∙ rw old refl) (disk-mark ∙ rw old refl) t other h;
          rising = λ other. rw (disk-mark, old) (mirrors.rising other);
          keyed = rw (entries, old) mirrors.keyed;
          opened = open-mark;
          on_disk = path-mark;
        }
        | inr new ↦ record {
          same = λ t other h. added new t other h;
          rising = λ other.
              rw (disk-mark, new)
                (Rising-snoc other n (expiry now_first ttl) 0 id c.disk
                  (λ same. (unseen new other same, omega arith)) lasts (mirrors.rising other));
          keyed = rw (entries, new) (Keyed-insert id _ c.entries mirrors.keyed);
          opened = open-mark;
          on_disk = path-mark;
        }
      ]
    where
      after : ReplayCache
      after = (mark_with_ttl true now_first n id ttl c).0

      kept :
          after.entries ≡ c.entries
          → after.disk ≡ c.disk
          → (t : ℕ) (other : String) → n ≤ t
          → seen t other after ≡ logged t other after.disk
      kept same_entries same_disk t other h =
          rw (same_disk, ← mirrors.same t other (omega (arith, later, h)))
            (unfold seen in rw same_entries refl)

      unseen :
          seen n id c ≡ false
          → (other : String) → string_eq.beq id other ≡ true
          → logged n other c.disk ≡ false
      unseen new other same =
          let key : id ≡ other = (string_eq.beq_iff id other).0 same in
          rw (← key, ← mirrors.same n id later) new

      added :
          seen n id c ≡ false
          → (t : ℕ) (other : String) → n ≤ t
          → seen t other after ≡ logged t other after.disk
      added new t other h =
          let exp = expiry now_first ttl in
          let entries : after.entries ≡ insert id exp c.entries =
            entries-mark true now_first n id ttl c room ∙ rw new refl in
          let disk : after.disk ≡ c.disk ++ entry id exp ∷ [] = disk-mark ∙ rw new refl in
          rw
            (
              disk,
              logged-snoc other t exp id c.disk,
              ← mirrors.same t other (omega (arith, later, h)),
            )
            (unfold seen in
              rw (entries, lookup-insert id other exp c.entries)
                (elim (Bool-cases (string_eq.beq id other)) [
                  | inr apart ↦ rw apart (ground arith)
                  | inl same ↦
                      let key : id ≡ other = (string_eq.beq_iff id other).0 same in
                      let stale : is_live n (lookup other c.entries) ≡ false =
                        rw (← key) (unfold seen in new) in
                      rw (same, is_live-stale n t (lookup other c.entries) stale h) refl
                ]))

pub evict-Mirrors :
    (now n : ℕ) (c : ReplayCache) → Mirrors now c → now ≤ n → Mirrors n (evict_expired n c).0
unfolding evict_expired
evict-Mirrors now n c mirrors later = record {
  same = λ t id h. rw (← mirrors.same t id (omega (arith, later, h))) (
      unfold seen in
      rw (lookup-retain (λ k exp. ltb n exp) id c.entries mirrors.keyed)
        (still_live t h (lookup id c.entries)));
  rising = mirrors.rising;
  keyed = Keyed-retain _ c.entries mirrors.keyed;
  opened = mirrors.opened;
  on_disk = mirrors.on_disk;
}
  where
    still_live :
        (t : ℕ) → n ≤ t → (o : Option ℕ) → is_live t (keep_if (λ exp. ltb n exp) o) ≡ is_live t o
    still_live t h none = refl
    still_live t h (some exp) = ground arith

compact-all :
    (fs : CompactFs) (c : ReplayCache)
    → every_step fs ≡ true
    → c.has_path ≡ true
    → (compact fs c).0
      ≡ record c { log_open = true; disk = to_lines c.entries; log_lines = length c.entries }
unfolding compact
compact-all fs c steps path = ground arith

pub compact-Mirrors :
    (now : ℕ) (fs : CompactFs) (c : ReplayCache)
    → Mirrors now c
    → every_step fs ≡ true
    → Mirrors now (compact fs c).0
compact-Mirrors now fs c mirrors steps = rw (compact-all fs c steps mirrors.on_disk) (record {
  same = λ t id h. rw (logged-to_lines id t c.entries mirrors.keyed) (unfold seen in refl);
  rising = λ id. Rising-to_lines id c.entries mirrors.keyed;
  keyed = mirrors.keyed;
  opened = refl;
  on_disk = mirrors.on_disk;
})
