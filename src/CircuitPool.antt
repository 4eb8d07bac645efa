-- ===== src/CircuitPool.antt =====
-- The pool of warm circuits of phinet-core/src/circuit_pool.rs. Times are nanoseconds, given by the
-- caller as there; `hex` is the hex encoder.

mod Tests
pub mod Flow
use phinet.Prelude.{
  ℕ, ◌+◌, ◌-◌, ◌*◌, List, [], ◌∷◌, ◌++◌, Option, none, some, Bool, true, false, not, ◌&&◌, length,
  ltb, if◌then◌else◌,
}
use phinet.Prelude.Eq.{◌==◌, nat_eq, list_eq}
use phinet.Circuit.Extend.{LinkSpec}

abbrev pub pool_target : ℕ
pool_target = 2

abbrev pub second : ℕ
second = 1000000000

abbrev pub max_idle : ℕ
max_idle = 10 * 60 * second

abbrev pub rebuild_backoff : ℕ
rebuild_backoff = 15 * second

pub record PooledCircuit : Type 0 where
  pub cid : ℕ
  pub path : List LinkSpec
  pub built_at : ℕ

pub record CircuitPool : Type 0 where
  pub ready : List PooledCircuit
  pub last_failure : Option ℕ

abbrev pub new_pool : CircuitPool
new_pool = record { ready = []; last_failure = none }

-- `duration_since` is zero where the argument is later, as `-` on ℕ.
unfoldable pub is_stale : PooledCircuit → ℕ → Bool
is_stale c now = ltb max_idle (now - c.built_at)

abbrev pub last_hop : List LinkSpec → Option LinkSpec
last_hop [] = none
last_hop (h ∷ []) = some h
last_hop (h ∷ h' ∷ hops) = last_hop (h' ∷ hops)

unfoldable pub push : PooledCircuit → CircuitPool → CircuitPool
push c pool = record pool { ready = pool.ready ++ c ∷ [] }

unfoldable pub note_failure : ℕ → CircuitPool → CircuitPool
note_failure now pool = record pool { last_failure = some now }

abbrev backs_off : ℕ → Option ℕ → Bool
backs_off now none = false
backs_off now (some t) = ltb (now - t) rebuild_backoff

unfoldable pub wants_more : ℕ → CircuitPool → Bool
wants_more now pool =
    if backs_off now pool.last_failure then false else ltb (length pool.ready) pool_target

-- The loop of `drain_stale`: what is out and what is kept, each in the order of the pool.
unfoldable pub split_stale :
    ℕ
    → List PooledCircuit
    → List PooledCircuit
    → List PooledCircuit
    → List PooledCircuit × List PooledCircuit
unfolding is_stale
split_stale now [] out keep = (out, keep)
split_stale now (c ∷ cs) out keep =
    split_stale now cs (if is_stale c now then out ++ c ∷ [] else out)
      (if is_stale c now then keep else keep ++ c ∷ [])

unfoldable pub drain_stale : ℕ → CircuitPool → CircuitPool × List PooledCircuit
unfolding split_stale
drain_stale now pool =
    let (out, keep) = split_stale now pool.ready [] [] in (record pool { ready = keep }, out)

module _ (hex : List ℕ → List ℕ) where
  abbrev pub hex_of : Option LinkSpec → Option (List ℕ)
  hex_of none = none
  hex_of (some h) = some (hex h.node_id)

  unfoldable pub terminal_hex : PooledCircuit → Option (List ℕ)
  terminal_hex c = hex_of (last_hop c.path)

  abbrev pub is_avoided : Option (List ℕ) → Option (List ℕ) → Bool
  is_avoided none terminal = false
  is_avoided (some bad) none = false
  is_avoided (some bad) (some t) = t == bad

  -- The test of `take`.
  unfoldable pub usable : ℕ → Option (List ℕ) → PooledCircuit → Bool
  unfolding is_stale terminal_hex
  usable now avoid c = not (is_stale c now) && not (is_avoided avoid (terminal_hex c))

  -- `position` and `remove` of the first circuit that passes.
  unfoldable pub take_first :
      ℕ → Option (List ℕ) → List PooledCircuit → Option (PooledCircuit × List PooledCircuit)
  unfolding usable
  take_first now avoid [] = none
  take_first now avoid (c ∷ cs) =
      let rest = take_first now avoid cs in
      if usable now avoid c
      then some (c, cs)
      else elim rest [ none ↦ none | some (found, left) ↦ some (found, c ∷ left) ]

  unfoldable pub take_circuit :
      ℕ → Option (List ℕ) → CircuitPool → CircuitPool × Option PooledCircuit
  unfolding take_first
  take_circuit now avoid pool = elim (take_first now avoid pool.ready) [
    | none ↦ (pool, none)
    | some (c, left) ↦ (record pool { ready = left }, some c)
  ]

unfoldable pub take_all : CircuitPool → CircuitPool × List PooledCircuit
take_all pool = (record pool { ready = [] }, pool.ready)
