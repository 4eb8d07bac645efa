-- ===== src/Replay/Marks.antt =====
-- What `mark_with_ttl` of phinet-core/src/replay.rs promises: a message is processed once.
use phinet.Prelude.{
  ℕ, ◌+◌, ◌≤◌, ◌<◌, ◌≡◌, ◌∙◌, List, [], ◌∷◌, some, Bool, true, false, not, ◌&&◌, String, arith,
  length, All, ltb, if◌then◌else◌, Bool-cases, lt→ltb, inl, inr,
}
use phinet.Prelude.Eq.{string_eq}
use phinet.Prelude.Map.{
  lookup, insert, retain, lookup-insert, lookup-insert_same, lookup-insert_other, Keyed,
  Keyed-insert, Keyed-retain, lookup-retain,
}
use phinet.Replay.{
  ReplayCache, replay_max_entries, seen, make_room, append_to_log, expiry, mark_with_ttl,
  evict_expired, CompactFs, compact,
}

pub make_room-short :
    (now : ℕ) (entries : List (String × ℕ))
    → length entries < replay_max_entries
    → make_room now entries ≡ entries
unfolding make_room
make_room-short now entries h = ground arith

pub append_to_log-entries :
    (written : Bool) (id : String) (exp : ℕ) (c : ReplayCache)
    → (append_to_log written id exp c).entries ≡ c.entries
unfolding append_to_log
append_to_log-entries written id exp c = ground arith

-- With room for one more entry, `mark_with_ttl` accepts an id exactly when it is not seen, and
-- from then on the id is seen until the expiry: the new one, or what the cache had for it.
module _ (written : Bool) (now_first now : ℕ) (id : String) (ttl : ℕ) (c : ReplayCache)
    (room : length c.entries < replay_max_entries) where
  pub entries-mark :
      (mark_with_ttl written now_first now id ttl c).0.entries
      ≡ (if seen now id c then c.entries else insert id (expiry now_first ttl) c.entries)
  unfolding mark_with_ttl seen
  entries-mark = rw (make_room-short now c.entries room) (
      ground (
        arith,
        append_to_log-entries written id (expiry now_first ttl)
            (record c { entries = insert id (expiry now_first ttl) c.entries }),
      ))

  pub mark-seen :
      (later : ℕ) (other : String)
      → ((mark_with_ttl written now_first now id ttl c).1 ≡ not (seen now id c))
        × (seen later other (mark_with_ttl written now_first now id ttl c).0 ≡ (
            if not (seen now id c) && string_eq.beq id other
            then ltb later (expiry now_first ttl)
            else seen later other c))
  unfolding mark_with_ttl
  mark-seen later other = (
    rw (make_room-short now c.entries room) (unfold seen in ground arith),
    unfold seen in
        rw entries-mark (ground (arith, lookup-insert id other (expiry now_first ttl) c.entries)),
  )

pub data Event : Type 0 where
  marked : Bool → ℕ → ℕ → String → ℕ → Event
  evicted : ℕ → Event
  compacted : CompactFs → Event

unfoldable pub step : Event → ReplayCache → ReplayCache
step (marked written now_first now id ttl) c = (mark_with_ttl written now_first now id ttl c).0
step (evicted now) c = (evict_expired now c).0
step (compacted fs) c = (compact fs c).0

unfoldable pub run : List Event → ReplayCache → ReplayCache
unfolding step
run [] c = c
run (e ∷ events) c = run events (step e c)

-- Every time that the event reads under the lock is before `exp`.
abbrev pub Before : ℕ → Event → Type 0
Before exp (marked written now_first now id ttl) = now < exp
Before exp (evicted now) = now < exp
Before exp (compacted fs) = Unit

module _ (id : String) (exp : ℕ) where
  -- The id is there with its expiry, in a map with each key once and at most `n` keys.
  pub record Holds (n : ℕ) (c : ReplayCache) : Type 0 where
    pub found : lookup id c.entries ≡ some exp
    pub keyed : Keyed c.entries
    pub bounded : length c.entries ≤ n

pub length-insert-le :
    (k : String) (v : ℕ) (m : List (String × ℕ)) → length (insert k v m) ≤ length m + 1
unfolding insert
length-insert-le k v [] = omega arith
length-insert-le k v ((j, w) ∷ m) = ground (arith, length-insert-le k v m)

pub length-retain-le :
    (p : String → ℕ → Bool) (m : List (String × ℕ)) → length (retain p m) ≤ length m
unfolding retain
length-retain-le p [] = omega arith
length-retain-le p ((j, w) ∷ m) = ground (arith, length-retain-le p m)

module _ (id : String) (exp : ℕ) (n : ℕ) (c : ReplayCache) (small : n < replay_max_entries)
    (holds : Holds id exp n c) where
  marked-Holds :
      (written : Bool) (now_first now : ℕ) (other : String) (ttl : ℕ)
      → now < exp
      → Holds id exp (n + 1) (mark_with_ttl written now_first now other ttl c).0
  marked-Holds written now_first now other ttl before =
      let room : length c.entries < replay_max_entries = omega (arith, small, holds.bounded) in
      let after = entries-mark written now_first now other ttl c room in
      elim (Bool-cases (seen now other c)) [
        | inl old ↦ record {
          found = rw (after, old) holds.found;
          keyed = rw (after, old) holds.keyed;
          bounded = rw (after, old) (omega (arith, holds.bounded));
        }
        | inr new ↦ record {
          found =
              rw (after, new)
                (lookup-insert_other other id (expiry now_first ttl) c.entries (apart new)
                  ∙ holds.found);
          keyed = rw (after, new) (Keyed-insert other _ c.entries holds.keyed);
          bounded =
              rw (after, new)
                (omega
                  (arith, holds.bounded, length-insert-le other (expiry now_first ttl) c.entries));
        }
      ]
    where
      apart : seen now other c ≡ false → string_eq.beq other id ≡ false
      apart new = elim (Bool-cases (string_eq.beq other id)) [
        | inr other_id ↦ other_id
        | inl same ↦
            let live : seen now id c ≡ true =
              unfold seen in rw holds.found (lt→ltb now exp before) in
            let key : other ≡ id = (string_eq.beq_iff other id).0 same in
            absurd (cc (live, new, key))
      ]

  evicted-Holds : (now : ℕ) → now < exp → Holds id exp (n + 1) (evict_expired now c).0
  unfolding evict_expired
  evicted-Holds now before = record {
    found =
        rw (lookup-retain (λ k e. ltb now e) id c.entries holds.keyed, holds.found) (ground arith);
    keyed = Keyed-retain _ c.entries holds.keyed;
    bounded = omega (arith, holds.bounded, length-retain-le (λ k e. ltb now e) c.entries);
  }

  compacted-Holds : (fs : CompactFs) → Holds id exp (n + 1) (compact fs c).0
  compacted-Holds fs = record {
    found = rw same_entries holds.found;
    keyed = rw same_entries holds.keyed;
    bounded = rw same_entries (omega (arith, holds.bounded));
  }
    where
      same_entries : (compact fs c).0.entries ≡ c.entries
      same_entries = unfold compact in ground arith

seen-Holds :
    (id : String) (exp now n : ℕ) (c : ReplayCache)
    → now < exp
    → Holds id exp n c
    → seen now id c ≡ true
unfolding seen
seen-Holds id exp now n c before holds = rw holds.found (lt→ltb now exp before)

step-Holds :
    (id : String) (exp n : ℕ) (e : Event) (c : ReplayCache)
    → n < replay_max_entries
    → Before exp e
    → Holds id exp n c
    → Holds id exp (n + 1) (step e c)
unfolding step
step-Holds id exp n (marked written now_first now other ttl) c small before holds =
    marked-Holds id exp n c small holds written now_first now other ttl before
step-Holds id exp n (evicted now) c small before holds =
    evicted-Holds id exp n c small holds now before
step-Holds id exp n (compacted fs) c small before holds = compacted-Holds id exp n c small holds fs

run-Holds :
    (id : String) (exp n : ℕ) (events : List Event) (c : ReplayCache)
    → n + length events ≤ replay_max_entries
    → All (Before exp) events
    → Holds id exp n c
    → Holds id exp (n + length events) (run events c)
unfolding run
run-Holds id exp n [] c fits before holds = record {
  found = holds.found;
  keyed = holds.keyed;
  bounded = omega (arith, holds.bounded);
}
run-Holds id exp n (e ∷ events) c fits before holds =
    let sum : n + length (e ∷ events) ≡ (n + 1) + length events = omega arith in
    rw sum (
      run-Holds id exp (n + 1) events (step e c) (omega (arith, fits)) before.1
        (step-Holds id exp n e c (omega (arith, fits)) before.0 holds))

-- An id that was accepted is refused until it expires, whatever is marked, evicted or compacted
-- in between, as long as the cache does not fill up.
pub mark_once :
    (w w' : Bool) (now_first now now_first' now' : ℕ) (id : String) (ttl ttl' : ℕ)
    (events : List Event) (c : ReplayCache)
    → Keyed c.entries
    → length c.entries + 1 + length events < replay_max_entries
    → (mark_with_ttl w now_first now id ttl c).1 ≡ true
    → All (Before (expiry now_first ttl)) events
    → now' < expiry now_first ttl
    → (mark_with_ttl w' now_first' now' id ttl'
        (run events (mark_with_ttl w now_first now id ttl c).0)).1
      ≡ false
mark_once w w' now_first now now_first' now' id ttl ttl' events c keyed fits accepted before
      in_time =
    let room : length c.entries < replay_max_entries = omega (arith, fits) in
    let new : seen now id c ≡ false =
      ground (arith, (mark-seen w now_first now id ttl c room now id).0, accepted) in
    let exp = expiry now_first ttl in
    let after = entries-mark w now_first now id ttl c room in
    let start : Holds id exp (length c.entries + 1) (mark_with_ttl w now_first now id ttl c).0 =
      record {
        found = rw (after, new) (lookup-insert_same id exp c.entries);
        keyed = rw (after, new) (Keyed-insert id exp c.entries keyed);
        bounded = rw (after, new) (length-insert-le id exp c.entries);
      } in
    let end = run-Holds id exp (length c.entries + 1) events _ (omega (arith, fits)) before start in
    let last : ReplayCache = run events (mark_with_ttl w now_first now id ttl c).0 in
    let last_room : length last.entries < replay_max_entries = omega (arith, end.bounded, fits) in
    ground (
      arith,
      (mark-seen w' now_first' now' id ttl' last last_room now' id).0,
      seen-Holds id exp now' (length c.entries + 1 + length events) _ in_time end,
    )
