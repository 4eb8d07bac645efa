-- ===== src/CircuitPool/Flow.antt =====
-- What goes into the pool of phinet-core/src/circuit_pool.rs and what comes out.
use phinet.Prelude.{
  ℕ, ◌+◌, ◌<◌, ◌⊎◌, ◌≤◌, ◌≡◌, refl, ap, ◌∙◌, List, [], ◌∷◌, ◌++◌, Option, none, some, true, false,
  not, arith, All, length, filter_b, length-append, length-filter_b-le, if◌then◌else◌, Bool-cases,
  Option-cases, inl, inr,
}
use mathlib.Core.List.{append_assoc, append-nil}
use phinet.Prelude.Eq.{list_eqb_iff, nat_eq}
use phinet.Circuit.Extend.{LinkSpec}
use phinet.CircuitPool.{
  last_hop, is_avoided, max_idle, terminal_hex, PooledCircuit, CircuitPool, pool_target, is_stale,
  push, note_failure, wants_more, split_stale, drain_stale, usable, take_first, take_circuit,
}

split_stale-filter :
    (now : ℕ) (cs out keep : List PooledCircuit)
    → split_stale now cs out keep
      ≡ (out ++ filter_b (λ c. is_stale c now) cs, keep ++ filter_b (λ c. not (is_stale c now)) cs)
unfolding split_stale
split_stale-filter now [] out keep = rw (append-nil, append-nil) refl
split_stale-filter now (c ∷ cs) out keep = elim (Bool-cases (is_stale c now)) [
  | inl stale ↦ rw (stale, split_stale-filter now cs (out ++ c ∷ []) keep, append_assoc) refl
  | inr fresh ↦ rw (fresh, split_stale-filter now cs out (keep ++ c ∷ []), append_assoc) refl
]

last_hop-append : (hops : List LinkSpec) (h : LinkSpec) → last_hop (hops ++ h ∷ []) ≡ some h
last_hop-append [] h = refl
last_hop-append (g ∷ []) h = refl
last_hop-append (g ∷ g' ∷ hops) h = last_hop-append (g' ∷ hops) h

last_hop-some :
    (path : List LinkSpec) (h : LinkSpec)
    → last_hop path ≡ some h
    → (hops : List LinkSpec) × (path ≡ hops ++ h ∷ [])
last_hop-some [] h last = absurd (cc last)
last_hop-some (g ∷ []) h last = ([], ground (arith, last))
last_hop-some (g ∷ g' ∷ path) h last =
    let rest = last_hop-some (g' ∷ path) h last in (g ∷ rest.0, ap (◌∷◌ g) rest.1)

module _ (hex : List ℕ → List ℕ) (now : ℕ) (avoid : Option (List ℕ)) where
  -- The circuit ends at the avoided relay.
  pub record EndsBadly (c : PooledCircuit) : Type 0 where
    pub bad : List ℕ
    pub is_avoided : avoid ≡ some bad
    pub hops : List LinkSpec
    pub last : LinkSpec
    pub parts : c.path ≡ hops ++ last ∷ []
    pub named : hex last.node_id ≡ bad

  -- Built more than ten minutes ago, or ending at the avoided relay.
  pub IsUnfit : PooledCircuit → Type 0
  IsUnfit c = (c.built_at + max_idle < now) ⊎ EndsBadly c

  ends_badly : (c : PooledCircuit) → is_avoided hex avoid (terminal_hex hex c) ≡ true → EndsBadly c
  unfolding terminal_hex
  ends_badly c h = elim (Option-cases avoid) [
    | inl nothing ↦ absurd (ground (arith, nothing, h))
    | inr (bad, avoids) ↦ elim (Option-cases (last_hop c.path)) [
      | inl no_hops ↦ absurd (ground (arith, avoids, no_hops, h))
      | inr (last, at_end) ↦
          let split = last_hop-some c.path last at_end in
          record {
            bad = bad;
            is_avoided = avoids;
            hops = split.0;
            last = last;
            parts = split.1;
            named = ground (arith, avoids, at_end, h, list_eqb_iff (hex last.node_id) bad);
          }
    ]
  ]

  EndsBadly-is_avoided :
      (c : PooledCircuit) → EndsBadly c → is_avoided hex avoid (terminal_hex hex c) ≡ true
  unfolding terminal_hex
  EndsBadly-is_avoided c e =
      rw (e.is_avoided, e.parts, last_hop-append e.hops e.last)
        ((list_eqb_iff (hex e.last.node_id) e.bad).1 e.named)

  usable-false : (c : PooledCircuit) → usable hex now avoid c ≡ false → IsUnfit c
  unfolding usable is_stale IsUnfit
  usable-false c refused = elim (Bool-cases (is_avoided hex avoid (terminal_hex hex c))) [
    | inl avoided ↦ inr (ends_badly c avoided)
    | inr elsewhere ↦ inl (ground (arith, refused, elsewhere))
  ]

  usable-true : (c : PooledCircuit) → usable hex now avoid c ≡ true → ¬ (IsUnfit c)
  unfolding usable is_stale IsUnfit
  usable-true c passed (inl stale) = ground (arith, passed, stale)
  usable-true c passed (inr badly) = ground (arith, passed, EndsBadly-is_avoided c badly)

  -- The first circuit that can be used, and the others in their order.
  pub record Taken (cs : List PooledCircuit) (c : PooledCircuit) (left : List PooledCircuit)
      : Type 0 where
    pub before : List PooledCircuit
    pub after : List PooledCircuit
    pub parts : cs ≡ before ++ c ∷ after
    pub others : left ≡ before ++ after
    pub passed_over : All IsUnfit before
    pub fits : ¬ (IsUnfit c)

  take_first-Taken :
      (cs : List PooledCircuit) (c : PooledCircuit) (left : List PooledCircuit)
      → take_first hex now avoid cs ≡ some (c, left)
      → Taken cs c left
  unfolding take_first
  take_first-Taken [] c left taken = absurd (cc (taken))
  take_first-Taken (d ∷ cs) c left taken = elim (Bool-cases (usable hex now avoid d)) [
    | inl here ↦ record {
      before = [];
      after = cs;
      parts = ground (arith, here);
      others = ground (arith, here);
      passed_over = tt;
      fits = let which : c ≡ d = ground (arith, here) in rw which (usable-true d here);
    }
    | inr there ↦ elim (Option-cases (take_first hex now avoid cs)) [
      | inl nobody ↦ absurd (ground (arith, there, nobody))
      | inr found ↦
          let rest = take_first-Taken cs found.0.0 found.0.1 found.1 in
          let which : c ≡ found.0.0 = ground (arith, there, found.1) in
          let others : left ≡ d ∷ found.0.1 = ground (arith, there, found.1) in
          record {
            before = d ∷ rest.before;
            after = rest.after;
            parts = rw which (ap (◌∷◌ d) rest.parts);
            others = others ∙ ap (◌∷◌ d) rest.others;
            passed_over = (usable-false d there, rest.passed_over);
            fits = rw which rest.fits;
          }
    ]
  ]

module _ (hex : List ℕ → List ℕ) (now : ℕ) (avoid : Option (List ℕ)) (pool : CircuitPool) where
  take_circuit-none :
      take_first hex now avoid pool.ready ≡ none → take_circuit hex now avoid pool ≡ (pool, none)
  unfolding take_circuit
  take_circuit-none h = rw (h, take_circuit) refl

  take_circuit-some :
      (c : PooledCircuit) (left : List PooledCircuit)
      → take_first hex now avoid pool.ready ≡ some (c, left)
      → take_circuit hex now avoid pool ≡ (record pool { ready = left }, some c)
  unfolding take_circuit
  take_circuit-some c left h = rw (h, take_circuit) refl

-- A circuit that `take` hands out is the first of the pool that was built at most ten minutes ago
-- and does not end at the avoided relay: every circuit before it fails one of the two, it fails
-- neither, and the others stay in order.
pub take_circuit-Taken :
    (hex : List ℕ → List ℕ) (now : ℕ) (avoid : Option (List ℕ)) (pool : CircuitPool)
    (c : PooledCircuit)
    → (take_circuit hex now avoid pool).1 ≡ some c
    → Taken hex now avoid pool.ready c (take_circuit hex now avoid pool).0.ready
take_circuit-Taken hex now avoid pool c taken =
    elim (Option-cases (take_first hex now avoid pool.ready)) [
      | inl nobody ↦ absurd (
          cc (
            taken,
            ap (λ (r : CircuitPool × Option PooledCircuit). r.1)
                (take_circuit-none hex now avoid pool nobody),
          ))
      | inr found ↦
          let result = take_circuit-some hex now avoid pool found.0.0 found.0.1 found.1 in
          let which : c ≡ found.0.0 =
            ground (arith, ap (λ (r : CircuitPool × Option PooledCircuit). r.1) result, taken) in
          rw (result, which) (take_first-Taken hex now avoid pool.ready found.0.0 found.0.1 found.1)
    ]

-- `drain_stale` parts the pool: the stale circuits come out and the others stay, both in order.
pub drain_stale-filter :
    (now : ℕ) (pool : CircuitPool)
    → ((drain_stale now pool).1 ≡ filter_b (λ c. is_stale c now) pool.ready)
      × ((drain_stale now pool).0.ready ≡ filter_b (λ c. not (is_stale c now)) pool.ready)
unfolding drain_stale
drain_stale-filter now pool = (
  ap (λ p. p.0) (split_stale-filter now pool.ready [] []),
  ap (λ p. p.1) (split_stale-filter now pool.ready [] []),
)

-- The maintenance loop, the clients and a failing network.
pub data PoolEvent : Type 0 where
  built : ℕ → PooledCircuit → PoolEvent
  build_failed : ℕ → PoolEvent
  taken : ℕ → Option (List ℕ) → PoolEvent
  drained : ℕ → PoolEvent

module _ (hex : List ℕ → List ℕ) where
  -- The loop builds only where the pool asks for it.
  pub pool_step : PoolEvent → CircuitPool → CircuitPool
  pool_step (built now c) pool = if wants_more now pool then push c pool else pool
  pool_step (build_failed now) pool = note_failure now pool
  pool_step (taken now avoid) pool = (take_circuit hex now avoid pool).0
  pool_step (drained now) pool = (drain_stale now pool).0

  pub pool_run : List PoolEvent → CircuitPool → CircuitPool
  unfolding pool_step
  pool_run [] pool = pool
  pool_run (e ∷ events) pool = pool_run events (pool_step e pool)

  length-take_circuit :
      (now : ℕ) (avoid : Option (List ℕ)) (cs : List PooledCircuit) (c : PooledCircuit)
      (left : List PooledCircuit)
      → take_first hex now avoid cs ≡ some (c, left)
      → length left ≤ length cs
  length-take_circuit now avoid cs c left h =
      let t = take_first-Taken hex now avoid cs c left h in
      rw (t.parts, t.others)
        (omega (arith, length-append t.before (c ∷ t.after), length-append t.before t.after))

  take_circuit-le :
      (now : ℕ) (avoid : Option (List ℕ)) (pool : CircuitPool)
      → length (take_circuit hex now avoid pool).0.ready ≤ length pool.ready
  take_circuit-le now avoid pool = elim (Option-cases (take_first hex now avoid pool.ready)) [
    | inl nobody ↦ rw (take_circuit-none hex now avoid pool nobody) (omega arith)
    | inr found ↦
        rw (take_circuit-some hex now avoid pool found.0.0 found.0.1 found.1)
          (length-take_circuit now avoid pool.ready found.0.0 found.0.1 found.1)
  ]

  pool_step-le :
      (e : PoolEvent) (pool : CircuitPool)
      → length pool.ready ≤ pool_target
      → length (pool_step e pool).ready ≤ pool_target
  unfolding pool_step push note_failure
  pool_step-le (built now c) pool h =
      unfold wants_more in ground (arith, length-append pool.ready (c ∷ []))
  pool_step-le (build_failed now) pool h = h
  pool_step-le (taken now avoid) pool h = omega (arith, h, take_circuit-le now avoid pool)
  pool_step-le (drained now) pool h =
      rw ((drain_stale-filter now pool).1)
        (omega (arith, h, length-filter_b-le (λ c. not (is_stale c now)) pool.ready))

  -- A pool of at most two circuits never holds more, whatever is built on its wish, fails, is
  -- taken or drained.
  pub pool_run-le :
      (events : List PoolEvent) (pool : CircuitPool)
      → length pool.ready ≤ pool_target
      → length (pool_run events pool).ready ≤ pool_target
  unfolding pool_run
  pool_run-le [] pool h = h
  pool_run-le (e ∷ events) pool h = pool_run-le events (pool_step e pool) (pool_step-le e pool h)
