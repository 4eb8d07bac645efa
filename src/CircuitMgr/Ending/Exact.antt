-- ===== src/CircuitMgr/Ending/Exact.antt =====
-- What DESTROY takes away, and what it leaves.
use phinet.Prelude.{
  ◌≡◌, refl, ◌∙◌, List, ℕ, Option, none, some, Bool, false, not, ◌||◌, nat_eqb, if◌then◌else◌,
  arith, Option-cases, inl, inr,
}
use phinet.Prelude.Eq.{◌==◌, nat_eq, list_eq, pair_eq, pair_eqb_iff}
use phinet.Prelude.Map.{lookup, remove, lookup-remove, lookup-retain, keep_if, Keyed}
use phinet.Circuit.Cell.{CircuitId}
use phinet.Circuit.Relay.{Sha256}
use phinet.CircuitMgr.{PeerId, Leg, RelayCircuit, CircuitManager}
use phinet.CircuitMgr.Ending.{destroy, drop_relay, forget_next, unbridge_rendezvous}

abbrev is_leg : Option Leg → Leg → Bool
is_leg none k = false
is_leg (some leg) k = leg == k

abbrev leg_of : Option PeerId → Option CircuitId → Option Leg
leg_of none c = none
leg_of (some p) none = none
leg_of (some p) (some c) = some (p, c)

module _ {sha : Sha256} {Channel : Type 0} where
  -- The far side of a relay circuit, if it has been extended.
  abbrev far_side : Option (RelayCircuit sha Channel) → Option Leg
  far_side none = none
  far_side (some r) = leg_of r.next_peer r.next_circ_id

  -- What is left of a manager, table by table, after a DESTROY of a leg.
  pub record Destroyed (key : Leg) (m m' : CircuitManager sha Channel) : Type 0 where
    pub relays : (k : Leg) → lookup k m'.relays ≡ (if key == k then none else lookup k m.relays)
    pub far :
        (k : Leg)
        → lookup k m'.relay_by_next
          ≡ (if is_leg (far_side (lookup key m.relays)) k then none else lookup k m.relay_by_next)
    pub bridges :
        (k : Leg)
        → lookup k m'.rendezvous_bridges ≡ (
            if (key == k) || is_leg (lookup key m.rendezvous_bridges) k
            then none
            else lookup k m.rendezvous_bridges)
    pub registered :
        (k : Leg)
        → lookup k m'.intro_registered ≡ (if key == k then none else lookup k m.intro_registered)
    pub intros :
        (k : List ℕ)
        → lookup k m'.intro_circuits ≡ keep_if (λ c. not (c == key.1)) (lookup k m.intro_circuits)
    pub origins :
        (j : CircuitId)
        → lookup j m'.origins ≡ (if nat_eqb key.1 j then none else lookup j m.origins)
    pub keys :
        (j : CircuitId)
        → lookup j m'.e2e_keys ≡ (if nat_eqb key.1 j then none else lookup j m.e2e_keys)
    pub ids : m'.next_origin_id ≡ m.next_origin_id
    pub cookies : m'.rendezvous_cookies ≡ m.rendezvous_cookies
    pub pending : m'.pending_rendezvous ≡ m.pending_rendezvous

  forget_next-far :
      (r : RelayCircuit sha Channel) (m : CircuitManager sha Channel) (k : Leg)
      → lookup k (forget_next r m).relay_by_next
        ≡ (if is_leg (leg_of r.next_peer r.next_circ_id) k then none else lookup k m.relay_by_next)
  unfolding forget_next
  forget_next-far r m k = elim (Option-cases r.next_peer) [
    | inl alone ↦ rw alone refl
    | inr (p, to) ↦ elim (Option-cases r.next_circ_id) [
      | inl waiting ↦ rw (to, waiting) refl
      | inr (c, at) ↦ rw (to, at) (lookup-remove (p, c) k m.relay_by_next)
    ]
  ]

  drop_relay-far :
      (key : Leg) (m : CircuitManager sha Channel) (k : Leg)
      → lookup k (drop_relay key m).relay_by_next
        ≡ (if is_leg (far_side (lookup key m.relays)) k then none else lookup k m.relay_by_next)
  unfolding drop_relay
  drop_relay-far key m k = elim (Option-cases (lookup key m.relays)) [
    | inl unknown ↦ rw (unknown, drop_relay) refl
    | inr (r, known) ↦ rw (known, drop_relay) (forget_next-far r _ k)
  ]

  unbridge-bridges :
      (key : Leg) (m : CircuitManager sha Channel) (k : Leg)
      → lookup k (unbridge_rendezvous key m).0.rendezvous_bridges ≡ (
          if (key == k) || is_leg (lookup key m.rendezvous_bridges) k
          then none
          else lookup k m.rendezvous_bridges)
  unfolding unbridge_rendezvous
  unbridge-bridges key m k = elim (Option-cases (lookup key m.rendezvous_bridges)) [
    | inl alone ↦ rw alone (ground (arith, alone, pair_eqb_iff key k))
    | inr (partner, with) ↦ rw with (
        ground (
          arith,
          lookup-remove partner k (remove key m.rendezvous_bridges),
          lookup-remove key k m.rendezvous_bridges,
        ))
  ]

  drop_relay-bridges :
      (key : Leg) (m : CircuitManager sha Channel)
      → (drop_relay key m).rendezvous_bridges ≡ m.rendezvous_bridges
  unfolding drop_relay forget_next
  drop_relay-bridges key m = ground arith

  unbridge-next :
      (key : Leg) (m : CircuitManager sha Channel)
      → (unbridge_rendezvous key m).0.relay_by_next ≡ m.relay_by_next
  unfolding unbridge_rendezvous
  unbridge-next key m = ground arith

  -- A DESTROY from any peer takes the relay circuit of its leg with the entry of its far side, the
  -- bridge of the leg in both directions, and what hidden services registered for it; and also
  -- the origin circuit, the end-to-end keys and the introduction circuits of that id, whichever
  -- peer that circuit goes through. Nothing else of the manager changes. The introduction
  -- circuits are a map, with each key once.
  pub destroy-exact :
      (m : CircuitManager sha Channel) (from_peer : PeerId) (cid : CircuitId)
      → Keyed m.intro_circuits
      → Destroyed (from_peer, cid) m (destroy from_peer cid m)
  destroy-exact m from_peer cid keyed =
      let key : Leg = (from_peer, cid) in
      record {
        relays = λ k.
            unfold destroy drop_relay forget_next unbridge_rendezvous in
            ground (arith, lookup-remove key k m.relays, pair_eqb_iff key k);
        far = λ k.
            unfold destroy in rw (unbridge-next key (drop_relay key m)) (drop_relay-far key m k);
        bridges = λ k.
            unfold destroy in
            unbridge-bridges key (drop_relay key m) k ∙ rw (drop_relay-bridges key m) refl;
        registered = λ k.
            unfold destroy drop_relay forget_next unbridge_rendezvous in
            ground (arith, lookup-remove key k m.intro_registered);
        intros = λ k.
            unfold destroy drop_relay forget_next unbridge_rendezvous in
            ground (arith, lookup-retain (λ i c. not (c == cid)) k m.intro_circuits keyed);
        origins = λ j.
            unfold destroy drop_relay forget_next unbridge_rendezvous in
            ground (arith, lookup-remove cid j m.origins);
        keys = λ j.
            unfold destroy drop_relay forget_next unbridge_rendezvous in
            ground (arith, lookup-remove cid j m.e2e_keys);
        ids = unfold destroy drop_relay forget_next unbridge_rendezvous in ground arith;
        cookies = unfold destroy drop_relay forget_next unbridge_rendezvous in ground arith;
        pending = unfold destroy drop_relay forget_next unbridge_rendezvous in ground arith;
      }
