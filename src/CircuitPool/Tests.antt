-- ===== src/CircuitPool/Tests.antt =====
-- A pool of three circuits.
use phinet.Prelude.{ℕ, ◌≡◌, refl, List, [], ◌∷◌, none, some, ◌*◌}
use phinet.CircuitPool.{PooledCircuit, CircuitPool, second, take_circuit}
use phinet.Circuit.Extend.{LinkSpec}
use phinet.CircuitPool.Flow.{Taken, take_circuit-Taken}

abbrev through : ℕ → List LinkSpec
through id = record { host = []; port = 7700; node_id = id ∷ []; static_pub = [] } ∷ []

abbrev circuit : ℕ → ℕ → PooledCircuit
circuit id now = record { cid = id; path = through id; built_at = now * second }

abbrev same_bytes : List ℕ → List ℕ
same_bytes bytes = bytes

abbrev pool : CircuitPool
pool = record { ready = circuit 1 0 ∷ circuit 2 500 ∷ circuit 3 500 ∷ []; last_failure = none }

abbrev moment : ℕ
moment = 700 * second

-- The first is too old, and the second ends at the avoided relay.
takes_third : (take_circuit same_bytes moment (some (2 ∷ [])) pool).1 ≡ some (circuit 3 500)
unfolding take_circuit
takes_third = refl

take_circuit-Taken_example :
    Taken same_bytes moment
      (some (2 ∷ []))
      pool.ready
      (circuit 3 500)
      (take_circuit same_bytes moment (some (2 ∷ [])) pool).0.ready
take_circuit-Taken_example =
    take_circuit-Taken same_bytes moment (some (2 ∷ [])) pool (circuit 3 500) takes_third
