-- ===== src/GuardSample/History.antt =====
-- How many guards the sample of phinet-core/src/guard_sample.rs draws, and how long they stay.
use phinet.Prelude.{
  ℕ, ◌+◌, ◌-◌, ◌≤◌, ◌≡◌, refl, ◌∙◌, nat_eqb, nat_eqb_iff, All, List, [], ◌∷◌, ◌++◌, Bool, true,
  false, not, ◌&&◌, ◌||◌, String, arith, length, take, map, filter_b, leb, length-append,
  length-take, length-filter_b-le, Bool-cases, inl, inr,
}
use phinet.Prelude.Eq.{◌==◌, string_eq}
use phinet.GuardSample.{
  sample_size, sample_lifetime, SampledGuard, SampledSet, drawn, draw_pool, is_empty, min_filtered,
  is_expired, expire, filtered, maybe_extend, stamp_first, confirm,
}

-- Each extension comes with its own shuffle.
pub data SampleEvent : Type 0 where
  extended : (List String → List String) → List String → List String → ℕ → SampleEvent
  confirmed : String → ℕ → SampleEvent
  expired : ℕ → SampleEvent

unfoldable sample_step : SampleEvent → SampledSet → SampledSet
sample_step (extended shuffle candidates live now) s =
    (maybe_extend shuffle candidates live now s).0
sample_step (confirmed id now) s = confirm id now s
sample_step (expired now) s = expire now s

unfoldable pub sample_run : List SampleEvent → SampledSet → SampledSet
unfolding sample_step
sample_run [] s = s
sample_run (e ∷ events) s = sample_run events (sample_step e s)

-- When a step happens; a confirmation does not read the clock to drop anything.
abbrev pub IsBy : ℕ → SampleEvent → Type 0
IsBy deadline (extended shuffle candidates live now) = now ≤ deadline
IsBy deadline (confirmed id now) = Unit
IsBy deadline (expired now) = now ≤ deadline

-- The guard of an id that joined at a time.
unfoldable pub has_since : String → ℕ → List SampledGuard → Bool
has_since id t [] = false
has_since id t (g ∷ gs) = (g.node_id_hex == id && nat_eqb g.added t) || has_since id t gs

length-drawn : (now : ℕ) (ids : List String) → length (map (drawn now) ids) ≡ length ids
length-drawn now [] = refl
length-drawn now (x ∷ ids) = omega (arith, length-drawn now ids)

length-stamp_first :
    (id : String) (now : ℕ) (gs : List SampledGuard) → length (stamp_first id now gs) ≡ length gs
unfolding stamp_first
length-stamp_first id now [] = refl
length-stamp_first id now (g ∷ gs) = ground (arith, length-stamp_first id now gs)

has_since-append :
    (id : String) (t : ℕ) (gs more : List SampledGuard)
    → has_since id t gs ≡ true
    → has_since id t (gs ++ more) ≡ true
unfolding has_since
has_since-append id t [] more here = cc
has_since-append id t (g ∷ gs) more here = ground (arith, has_since-append id t gs more)

has_since-stamp_first :
    (id other : String) (t now : ℕ) (gs : List SampledGuard)
    → has_since id t (stamp_first other now gs) ≡ has_since id t gs
unfolding has_since stamp_first
has_since-stamp_first id other t now [] = refl
has_since-stamp_first id other t now (g ∷ gs) =
    ground (arith, has_since-stamp_first id other t now gs)

has_since-expire :
    (id : String) (t now : ℕ) (gs : List SampledGuard)
    → now ≤ t + sample_lifetime
    → has_since id t gs ≡ true
    → has_since id t (filter_b (λ g. not (is_expired now g)) gs) ≡ true
unfolding has_since is_expired
has_since-expire id t now [] young here = cc
has_since-expire id t now (g ∷ gs) young here =
    ground (arith, nat_eqb_iff g.added t, has_since-expire id t now gs young)

-- A sample that is not too large and has a guard since some time.
pub record Keeps (id : String) (t : ℕ) (s : SampledSet) : Type 0 where
  pub small : length s.guards ≤ sample_size
  pub there : has_since id t s.guards ≡ true

module _ (id : String) (t : ℕ) where
  expire-Keeps :
      (now : ℕ) (s : SampledSet)
      → now ≤ t + sample_lifetime
      → Keeps id t s
      → Keeps id t (expire now s)
  unfolding expire
  expire-Keeps now s young keeps = record {
    small = omega (arith, length-filter_b-le (λ g. not (is_expired now g)) s.guards, keeps.small);
    there = has_since-expire id t now s.guards young keeps.there;
  }

  draw-Keeps :
      (now : ℕ) (pool : List String) (s : SampledSet)
      → Keeps id t s
      → Keeps id t (record s {
        guards = s.guards ++ map (drawn now) (take (sample_size - length s.guards) pool);
      })
  draw-Keeps now pool s keeps =
      let chosen = take (sample_size - length s.guards) pool in
      record {
        small = omega (
          arith,
          length-append s.guards (map (drawn now) chosen),
          length-drawn now chosen,
          length-take (sample_size - length s.guards) pool,
          keeps.small,
        );
        there = has_since-append id t s.guards (map (drawn now) chosen) keeps.there;
      }

  extend-Keeps :
      (shuffle : List String → List String) (candidates live : List String) (now : ℕ)
      (s : SampledSet)
      → now ≤ t + sample_lifetime
      → Keeps id t s
      → Keeps id t (maybe_extend shuffle candidates live now s).0
  unfolding maybe_extend
  extend-Keeps shuffle candidates live now s young keeps =
      let kept = expire-Keeps now s young keeps in
      let left = expire now s in
      let enough = leb min_filtered (length (filtered live left)) && not (is_empty left.guards) in
      elim (Bool-cases enough) [
        | inl plenty ↦ rw plenty kept
        | inr few ↦ elim (Bool-cases (is_empty (draw_pool candidates left))) [
          | inl none_left ↦ rw (few, none_left) kept
          | inr some_left ↦
              rw (few, some_left) (draw-Keeps now (shuffle (draw_pool candidates left)) left kept)
        ]
      ]

  -- Whatever the consensus offers, whoever is live and however each draw is shuffled, a sample of
  -- at most twenty guards stays so, and a guard in it stays for 120 days from when it joined.
  pub sample_run-Keeps :
      (events : List SampleEvent) (s : SampledSet)
      → All (IsBy (t + sample_lifetime)) events
      → Keeps id t s
      → Keeps id t (sample_run events s)
  unfolding sample_run sample_step
  sample_run-Keeps [] s young keeps = keeps
  sample_run-Keeps (extended shuffle candidates live now ∷ events) s young keeps =
      sample_run-Keeps events _ young.1 (extend-Keeps shuffle candidates live now s young.0 keeps)
  sample_run-Keeps (expired now ∷ events) s young keeps =
      sample_run-Keeps events _ young.1 (expire-Keeps now s young.0 keeps)
  sample_run-Keeps (confirmed other now ∷ events) s young keeps =
      let after : Keeps id t (confirm other now s) =
        unfold confirm in
        record {
          small = omega (arith, length-stamp_first other now s.guards, keeps.small);
          there = has_since-stamp_first id other t now s.guards ∙ keeps.there;
        } in
      sample_run-Keeps events _ young.1 after
