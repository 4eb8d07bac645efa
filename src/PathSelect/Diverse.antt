-- ===== src/PathSelect/Diverse.antt =====
-- What the paths of phinet-core/src/path_select.rs are made of.
use mathlib.Core.List.{Mem, mem-cons_self, mem-cons_of_mem}
use Prim.Native.Nat.{bit_and}
use phinet.Prelude.{
  nat_eqb_iff, ◌<◌, ℕ, ◌≡◌, refl, ap, sym, ◌∙◌, List, [], ◌∷◌, Option, none, some, true, false, not,
  ◌&&◌, String, arith, All, All-map, All-filter_b, filter_b, filter_b-All, All-map2, Option-cases,
  inl, inr,
}
use phinet.Prelude.Eq.{◌==◌, nat_eq, string_eq, list_eq}
use phinet.PathSelect.{
  PeerEntry, SelectedHop, from_peer, found, Position, guard, middle, exit, is_eligible,
  eligible_for_position, weighted_random_pick, subnet_key, same_family, is_listed, apart_from,
  guard_candidates, exit_candidates, middle_candidates, pick_guard, with_middle, with_exit,
  with_guard, select_path,
}
use phinet.PathSelect.Pick.{pick-All}

-- Two relays that are not the same, not in one subnet and not of one family.
pub record Apart (p q : PeerEntry) : Type 0 where
  pub ids : (p.node_id_hex == q.node_id_hex) ≡ false
  pub subnets : (subnet_key p.host == subnet_key q.host) ≡ false
  pub families : same_family p.family q.family ≡ false

-- Running, valid, fast and stable; a guard is also a Guard, an exit an Exit.
abbrev pub needs : Position → ℕ
needs guard = 55
needs middle = 51
needs exit = 59

pub record Suits (peers : List PeerEntry) (excluded : List String) (position : Position)
    (p : PeerEntry) : Type 0 where
  pub listed : Mem p peers
  pub flagged : bit_and p.flags (needs position) ≡ needs position
  pub measured : 0 < p.bandwidth_kbs
  pub allowed : is_listed excluded p.node_id_hex ≡ false

pub record IsDiverse (peers : List PeerEntry) (excluded : List String) (g m e : PeerEntry)
    : Type 0 where
  pub exit_suits : Suits peers excluded exit e
  pub middle_suits : Suits peers excluded middle m
  pub exit_guard : Apart e g
  pub middle_guard : Apart m g
  pub middle_exit : Apart m e

apart_from-Apart : (p q : PeerEntry) → apart_from (from_peer q) q.family p ≡ true → Apart p q
unfolding apart_from
apart_from-Apart p q h = record {
  ids = ground arith;
  subnets = ground arith;
  families = ground arith;
}

flagged :
    (position : Position) (p : PeerEntry)
    → is_eligible position p ≡ true
    → bit_and p.flags (needs position) ≡ needs position
unfolding is_eligible
flagged guard p h = ground (arith, nat_eqb_iff (bit_and p.flags 55) 55)
flagged middle p h = ground (arith, nat_eqb_iff (bit_and p.flags 51) 51)
flagged exit p h = ground (arith, nat_eqb_iff (bit_and p.flags 59) 59)

measured :
    (position : Position) (p : PeerEntry) → is_eligible position p ≡ true → 0 < p.bandwidth_kbs
unfolding is_eligible
measured position p h = ground arith

All-Mem : (xs : List PeerEntry) → All (λ p. Mem p xs) xs
All-Mem [] = tt
All-Mem (x ∷ xs) = (
  mem-cons_self,
  All-map (λ p. Mem p xs) (λ p. Mem p (x ∷ xs)) xs (λ p m. mem-cons_of_mem x m) (All-Mem xs),
)

module _ (excluded : List String) (peers : List PeerEntry) where
  suitable :
      (position : Position)
      → All (Suits peers excluded position) (
          filter_b
            (λ p. not (is_listed excluded p.node_id_hex))
            (eligible_for_position peers position))
  unfolding eligible_for_position
  suitable position =
      let fit = filter_b (is_eligible position) peers in
      let left = filter_b (λ p. not (is_listed excluded p.node_id_hex)) fit in
      let eligible =
        All-map2 (λ p. Mem p peers) (λ p. is_eligible position p ≡ true)
          (λ p. Mem p peers × (is_eligible position p ≡ true)) fit (λ p listed fits. (listed, fits))
          (All-filter_b _ _ peers (All-Mem peers)) (filter_b-All (is_eligible position) peers) in
      All-map2 (λ p. Mem p peers × (is_eligible position p ≡ true))
        (λ p. not (is_listed excluded p.node_id_hex) ≡ true) (Suits peers excluded position) left
        (λ p fits kept. record {
          listed = fits.0;
          flagged = flagged position p fits.1;
          measured = measured position p fits.1;
          allowed = ground arith;
        })
        (All-filter_b _ _ fit eligible)
        (filter_b-All (λ p. not (is_listed excluded p.node_id_hex)) fit)

  exits :
      (g : PeerEntry)
      → All
          (λ e. Suits peers excluded exit e × Apart e g)
          (exit_candidates excluded peers (from_peer g) g.family)
  unfolding exit_candidates
  exits g =
      let fit =
        filter_b (λ p. not (is_listed excluded p.node_id_hex)) (eligible_for_position peers exit) in
      All-map2 (Suits peers excluded exit) (λ p. apart_from (from_peer g) g.family p ≡ true) _
        (filter_b (apart_from (from_peer g) g.family) fit)
        (λ p suits apart. (suits, apart_from-Apart p g apart))
        (All-filter_b _ _ fit (suitable exit))
        (filter_b-All (apart_from (from_peer g) g.family) fit)

  middles :
      (g e : PeerEntry)
      → All
          (λ m. Suits peers excluded middle m × Apart m g × Apart m e)
          (middle_candidates excluded peers (from_peer g) g.family (from_peer e) e.family)
  unfolding middle_candidates
  middles g e =
      let both = λ (p : PeerEntry).
        apart_from (from_peer g) g.family p && apart_from (from_peer e) e.family p in
      let fit =
        filter_b (λ p. not (is_listed excluded p.node_id_hex))
          (eligible_for_position peers middle) in
      All-map2 (Suits peers excluded middle) (λ p. both p ≡ true) _ (filter_b both fit)
        (λ p suits apart.
          (suits, apart_from-Apart p g (ground arith), apart_from-Apart p e (ground arith)))
        (All-filter_b _ _ fit (suitable middle)) (filter_b-All both fit)

  module _ (draw : ℕ → ℕ → ℕ) where
    with_exit-IsDiverse :
        (g : PeerEntry) (picked : Option PeerEntry) (hops : List SelectedHop)
        → picked
          ≡ weighted_random_pick (draw 1) (exit_candidates excluded peers (from_peer g) g.family)
        → with_exit draw excluded peers g picked ≡ found hops
        → (m e : PeerEntry) × (hops ≡ from_peer g ∷ from_peer m ∷ from_peer e ∷ [])
          × IsDiverse peers excluded g m e
    with_exit-IsDiverse g none hops from_exits h = cc
    with_exit-IsDiverse g (some e) hops from_exits h =
        let candidates =
          middle_candidates excluded peers (from_peer g) g.family (from_peer e) e.family in
        elim (Option-cases (weighted_random_pick (draw 2) candidates)) [
          | inl nobody ↦ absurd (cc (h, ap (with_middle draw excluded peers g e) nobody))
          | inr chosen ↦
              let m = chosen.0 in
              let exit_facts = pick-All _ (draw 1) _ (exits g) (sym from_exits) in
              let middle_facts = pick-All _ (draw 2) _ (middles g e) chosen.1 in
              (
                m,
                e,
                cc (h, ap (with_middle draw excluded peers g e) chosen.1),
                record {
                  exit_suits = exit_facts.0;
                  middle_suits = middle_facts.0;
                  exit_guard = exit_facts.1;
                  middle_guard = middle_facts.1;
                  middle_exit = middle_facts.2;
                },
              )
        ]

    -- A path that is selected is guard, middle and exit, where middle and exit are peers of the
    -- list, have the flags of their position and measured bandwidth there and are not excluded,
    -- and no two of the three are one relay, share a subnet or declare one family. The guard is
    -- the one that was picked or pinned.
    pub select_path-IsDiverse :
        (pinned : Option PeerEntry) (hops : List SelectedHop)
        → select_path draw excluded peers pinned ≡ found hops
        → (g m e : PeerEntry) × (pick_guard draw excluded peers pinned ≡ some g)
          × (hops ≡ from_peer g ∷ from_peer m ∷ from_peer e ∷ [])
          × IsDiverse peers excluded g m e
    unfolding select_path
    select_path-IsDiverse pinned hops h =
        elim (Option-cases (pick_guard draw excluded peers pinned)) [
          | inl nobody ↦ absurd (cc (h, ap (with_guard draw excluded peers) nobody))
          | inr chosen ↦
              let g = chosen.0 in
              let rest =
                with_exit-IsDiverse g _ hops refl
                  (sym (ap (with_guard draw excluded peers) chosen.1) ∙ h) in
              (g, rest.0, rest.1, chosen.1, rest.2, rest.3)
        ]

    -- Without a pinned guard the guard too has the flags of its position and is not excluded.
    pub select_path-guard-Suits :
        (g : PeerEntry)
        → pick_guard draw excluded peers none ≡ some g
        → Suits peers excluded guard g
    unfolding pick_guard guard_candidates
    select_path-guard-Suits g picked = pick-All _ (draw 0) _ (suitable guard) picked
