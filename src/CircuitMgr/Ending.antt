-- ===== src/CircuitMgr/Ending.antt =====
-- phinet-core/src/circuit_mgr.rs, the end of a circuit at a relay: DESTROY, and the end of a
-- rendezvous bridge.
pub mod Exact
use phinet.Prelude.{not, Option, none, some}
use phinet.Prelude.Eq.{◌==◌, nat_eq, list_eq, pair_eq}
use phinet.Prelude.Map.{lookup, remove, retain}
use phinet.Circuit.Cell.{CircuitId}
use phinet.Circuit.Relay.{Sha256}
use phinet.CircuitMgr.{PeerId, Leg, RelayCircuit, CircuitManager}

module _ {sha : Sha256} {Channel : Type 0} where
  -- The leg's bridge, both directions gone, and the partner that it had.
  unfoldable pub unbridge_rendezvous :
      Leg → CircuitManager sha Channel → CircuitManager sha Channel × Option Leg
  unbridge_rendezvous leg m = elim (lookup leg m.rendezvous_bridges) [
    | none ↦ (m, none)
    | some partner ↦ (
      record m { rendezvous_bridges = remove partner (remove leg m.rendezvous_bridges) },
      some partner,
    )
  ]

  -- The entry of `relay_by_next` for the relay circuit's far side, taken away.
  unfoldable pub forget_next :
      RelayCircuit sha Channel → CircuitManager sha Channel → CircuitManager sha Channel
  forget_next r m = elim r.next_peer [
    | none ↦ m
    | some np ↦ elim r.next_circ_id [
      | none ↦ m
      | some ncid ↦ record m { relay_by_next = remove (np, ncid) m.relay_by_next }
    ]
  ]

  -- `if let Some(rc) = self.relays.remove(key) { … }`
  unfoldable pub drop_relay : Leg → CircuitManager sha Channel → CircuitManager sha Channel
  unfolding forget_next
  drop_relay key m = elim (lookup key m.relays) [
    | none ↦ m
    | some r ↦ forget_next r (record m { relays = remove key m.relays })
  ]

  unfoldable pub destroy :
      PeerId → CircuitId → CircuitManager sha Channel → CircuitManager sha Channel
  unfolding drop_relay
  destroy from_peer cid m =
      let (m', _) = unbridge_rendezvous (from_peer, cid) (drop_relay (from_peer, cid) m) in
      record m' {
        origins = remove cid m'.origins;
        e2e_keys = remove cid m'.e2e_keys;
        intro_circuits = retain (λ key c. not (c == cid)) m'.intro_circuits;
        intro_registered = remove (from_peer, cid) m'.intro_registered;
      }
