-- ===== src/Replay/Room.antt =====
-- The size bound of the replay cache of phinet-core/src/replay.rs: a full cache drops what has
-- expired, or else a tenth of its entries, those that expire first.
use phinet.Prelude.{
  ℕ, zero, suc, ◌/◌, ◌≤◌, ◌<◌, ◌≡◌, List, [], ◌∷◌, Bool, true, not, String, arith, length, take,
  All, leb, Bool-cases, leb→le, is_some, inl, inr,
}
use phinet.Prelude.Eq.{string_eq, beq_refl}
use phinet.Prelude.Map.{lookup, insert, remove, retain}
use phinet.Prelude.Order.{sort_by_key, nat_order, length-sort_by_key, sort_by_key-All}
use phinet.Replay.{
  ReplayCache, replay_max_entries, is_live, make_room, remove_all, expiry, mark_with_ttl,
}
use phinet.Replay.Marks.{length-insert-le, length-retain-le, append_to_log-entries}

length-remove-le : (k : String) (m : List (String × ℕ)) → length (remove k m) ≤ length m
unfolding remove
length-remove-le k [] = omega arith
length-remove-le k ((j, w) ∷ m) = ground (arith, length-remove-le k m)

length-remove-lt :
    (k : String) (m : List (String × ℕ))
    → is_some (lookup k m) ≡ true
    → suc (length (remove k m)) ≤ length m
unfolding lookup remove
length-remove-lt k [] found = cc
length-remove-lt k ((j, w) ∷ m) found = ground (arith, length-remove-lt k m, length-remove-le k m)

length-remove_all-le : (ks m : List (String × ℕ)) → length (remove_all ks m) ≤ length m
unfolding remove_all
length-remove_all-le [] m = omega arith
length-remove_all-le ((k, v) ∷ ks) m =
    omega (arith, length-remove_all-le ks (remove k m), length-remove-le k m)

-- Each pair's key is one of the map's.
abbrev Known : List (String × ℕ) → List (String × ℕ) → Type 0
Known m ps = All (λ p. is_some (lookup p.0 m) ≡ true) ps

Known-cons : (j : String) (w : ℕ) (m ps : List (String × ℕ)) → Known m ps → Known ((j, w) ∷ m) ps
unfolding lookup
Known-cons j w m [] known = tt
Known-cons j w m (p ∷ ps) known = (ground (arith, known.0), Known-cons j w m ps known.1)

Known-self : (m : List (String × ℕ)) → Known m m
Known-self [] = tt
Known-self ((j, w) ∷ m) =
    (unfold lookup in ground (arith, beq_refl j), Known-cons j w m m (Known-self m))

forced-lt :
    (n : ℕ) (m ps : List (String × ℕ))
    → 0 < n
    → 0 < length ps
    → Known m ps
    → suc (length (remove_all (take n ps) m)) ≤ length m
forced-lt zero m ps some_dropped some_there known = absurd (omega arith)
forced-lt (suc n) m [] some_dropped some_there known = absurd (omega arith)
forced-lt (suc n) m (p ∷ ps) some_dropped some_there known =
    unfold remove_all in
    omega (arith, length-remove_all-le (take n ps) (remove p.0 m), length-remove-lt p.0 m known.0)

live_part : ℕ → List (String × ℕ) → List (String × ℕ)
live_part now m = retain (λ k exp. not (leb exp now)) m

make_room-lt :
    (now : ℕ) (m : List (String × ℕ))
    → length m ≤ replay_max_entries
    → suc (length (make_room now m)) ≤ replay_max_entries
unfolding make_room
make_room-lt now m bounded = elim (Bool-cases (leb replay_max_entries (length m))) [
  | inr short ↦ rw short (ground arith)
  | inl full ↦
      rw full
        (elim (Bool-cases
          (leb replay_max_entries (length (retain (λ k exp. not (leb exp now)) m)))) [
            | inr room ↦ rw room (ground arith)
            | inl still ↦ rw still (forced still)
          ])
]
  where
    forced :
        leb replay_max_entries (length (retain (λ k exp. not (leb exp now)) m)) ≡ true
        → suc (
            length (
              remove_all
                (take
                  (replay_max_entries / 10)
                  (sort_by_key nat_order (λ p. p.1) (retain (λ k exp. not (leb exp now)) m)))
                (retain (λ k exp. not (leb exp now)) m)))
          ≤ replay_max_entries
    forced still =
        let live = retain (λ k exp. not (leb exp now)) m in
        let sorted = sort_by_key nat_order (λ p. p.1) live in
        let size : length sorted ≡ length live = length-sort_by_key nat_order (λ p. p.1) live in
        let many : replay_max_entries ≤ length live = leb→le _ _ still in
        let fewer =
          forced-lt (replay_max_entries / 10) live sorted (omega arith) (omega (arith, size, many))
            (sort_by_key-All nat_order (λ p. p.1) _ live (Known-self live)) in
        omega (arith, fewer, bounded, length-retain-le (λ k exp. not (leb exp now)) m)

-- A cache of at most 100000 entries never grows past that, however many of them are live.
pub mark-bounded :
    (written : Bool) (now_first now : ℕ) (id : String) (ttl : ℕ) (c : ReplayCache)
    → length c.entries ≤ replay_max_entries
    → length (mark_with_ttl written now_first now id ttl c).0.entries ≤ replay_max_entries
unfolding mark_with_ttl
mark-bounded written now_first now id ttl c bounded =
    let entries = make_room now c.entries in
    let added = insert id (expiry now_first ttl) entries in
    let room = make_room-lt now c.entries bounded in
    elim (Bool-cases (is_live now (lookup id entries))) [
      | inl old ↦ rw old (omega (arith, room))
      | inr new ↦
          rw
            (
              new,
              append_to_log-entries written id (expiry now_first ttl)
                  (record c { entries = added }),
            )
            (omega (arith, room, length-insert-le id (expiry now_first ttl) entries))
    ]
