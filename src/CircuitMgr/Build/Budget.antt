-- ===== src/CircuitMgr/Build/Budget.antt =====
-- The budget of RELAY_EARLY cells: a circuit is extended at most five times.
use phinet.Prelude.{
  ℕ, ◌+◌, ◌-◌, ◌≤◌, ◌≡◌, refl, some, List, [], ◌∷◌, length, arith, inl, inr, leb, nat_eqb,
  Bool-cases,
}
use mathlib.Core.Path.{subst}
use phinet.Prelude.Eq.{nat_eq}
use phinet.Prelude.Map.{lookup, lookup-insert_same}
use phinet.Prelude.Result.{Result, ok, err, Result-cases}
use phinet.Ntor.{Primitives, client_handshake_start}
use phinet.Circuit.Cell.{CircuitId, max_relay_early}
use phinet.Circuit.Relay.{Sha256, RelayCell, extend2}
use phinet.Circuit.Relay
use phinet.Circuit.Extend.{LinkSpec, build_extend2}
use phinet.Circuit.Hop.{ChaCha20}
use phinet.CircuitMgr.{OriginCircuit, CircuitManager}
use phinet.CircuitMgr.Origin.{encrypt_outbound, seal}
use phinet.CircuitMgr.Build.{extend_circuit, extend_origin, put_origin}

module _ {sha : Sha256} {Channel : Type 0} where
  -- What a call did to the circuit: it used one cell of the budget and waits for the reply, or it
  -- used none.
  abbrev pub Outcome :
      OriginCircuit sha Channel → OriginCircuit sha Channel → Result (List ℕ) → Type 0
  Outcome c c' (ok bytes) =
      (c'.relay_early_used ≡ c.relay_early_used + 1) × (c'.relay_early_used ≤ max_relay_early)
  Outcome c c' (err e) = c'.relay_early_used ≡ c.relay_early_used

module _ {sha : Sha256} {Channel : Type 0} (cipher : ChaCha20) where
  -- Sending a cell touches neither the budget nor the handshake that waits.
  encrypt_outbound-keeps :
      (now target : ℕ) (cell : RelayCell) (c : OriginCircuit sha Channel)
      → let (c', _) = encrypt_outbound cipher now target cell c in
        (c'.relay_early_used ≡ c.relay_early_used) × (c'.pending ≡ c.pending)
  unfolding encrypt_outbound seal
  encrypt_outbound-keeps now target cell c = unfold encrypt_outbound seal in ground arith

  pub extend_circuit-budget :
      (prim : Primitives) (x_priv : List ℕ) (now : ℕ) (cid : CircuitId) (next : LinkSpec)
      (m : CircuitManager sha Channel) (c : OriginCircuit sha Channel)
      → lookup cid m.origins ≡ some c
      → let (m', result) = extend_circuit sha prim cipher x_priv now cid next m in
        (c' : OriginCircuit sha Channel) × (lookup cid m'.origins ≡ some c') × Outcome c c' result
  unfolding extend_circuit extend_origin put_origin
  extend_circuit-budget prim x_priv now cid next m c here =
      elim (Bool-cases (nat_eqb (length c.hops) 0)) [
        | inl empty ↦ rw (here, extend_circuit, empty) (c, here, refl)
        | inr built ↦ elim (Bool-cases (leb max_relay_early c.relay_early_used)) [
          | inl spent ↦ rw (here, extend_circuit, built, spent) (c, here, refl)
          | inr left ↦
              let msg = (client_handshake_start prim x_priv next.node_id next.static_pub).1 in
              let waiting = record c {
                pending = some (client_handshake_start prim x_priv next.node_id next.static_pub).0;
              } in
              elim (Result-cases (Relay.new extend2 0 (build_extend2 next msg))) [
                | inr (e, refused) ↦
                    rw (here, extend_circuit, built, left, refused, extend_origin)
                      (_, lookup-insert_same cid _ m.origins, refl)
                | inl (cell, made) ↦
                    let sent = encrypt_outbound cipher now (length c.hops - 1) cell waiting in
                    let (used, _) = encrypt_outbound-keeps now (length c.hops - 1) cell waiting in
                    elim (Result-cases sent.1) [
                      | inr (e, unsent) ↦
                          rw (here, extend_circuit, built, left, made, extend_origin, unsent)
                            (_, lookup-insert_same cid _ m.origins, used)
                      | inl (payload, sealed) ↦
                          rw (here, extend_circuit, built, left, made, extend_origin, sealed)
                            (_, lookup-insert_same cid _ m.origins, (ground arith, ground arith))
                    ]
              ]
        ]
      ]

abbrev count_ok : Result (List ℕ) → ℕ
count_ok (ok bytes) = 1
count_ok (err e) = 0

module _ {sha : Sha256} {Channel : Type 0} (cipher : ChaCha20) (prim : Primitives) where
  -- The extensions of a circuit that succeed, one call after another.
  pub extensions : CircuitId → List (List ℕ × ℕ × LinkSpec) → CircuitManager sha Channel → ℕ
  extensions cid [] m = 0
  extensions cid ((x_priv, now, next) ∷ calls) m =
      let (m', result) = extend_circuit sha prim cipher x_priv now cid next m in
      let rest = extensions cid calls m' in count_ok result + rest

  -- However often a circuit is extended, the extensions that go out are at most the budget, less
  -- what was used before.
  pub extensions-le :
      (cid : CircuitId) (calls : List (List ℕ × ℕ × LinkSpec)) (m : CircuitManager sha Channel)
      (c : OriginCircuit sha Channel)
      → lookup cid m.origins ≡ some c
      → c.relay_early_used ≤ max_relay_early
      → extensions cid calls m + c.relay_early_used ≤ max_relay_early
  unfolding extensions
  extensions-le cid [] m c here le = omega arith
  extensions-le cid ((x_priv, now, next) ∷ calls) m c here le =
      let (m', result) = extend_circuit sha prim cipher x_priv now cid next m in
      let (c', here', outcome) = extend_circuit-budget cipher prim x_priv now cid next m c here in
      elim (Result-cases result) [
        | inl (bytes, sent) ↦
            let (more, within) : (c'.relay_early_used ≡ c.relay_early_used + 1)
                × (c'.relay_early_used ≤ max_relay_early) =
              subst (Outcome c c') sent outcome in
            rw sent (omega (arith, extensions-le cid calls m' c' here' within))
        | inr (e, refused) ↦
            let same : c'.relay_early_used ≡ c.relay_early_used =
              subst (Outcome c c') refused outcome in
            rw refused (omega (arith, extensions-le cid calls m' c' here' (omega arith)))
      ]
