-- ===== src/CircuitMgr/Forward/Legs.antt =====
-- The two indices of a relay's circuits agree: what `relay_by_next` says of a far leg, the circuit
-- that it names says of itself. Every operation of the relay's side keeps that.
use phinet.Prelude.{◌≡◌, none, some, List, Bool-cases, Option-cases, inl, inr, arith}
use phinet.Prelude.Eq.{◌==◌, nat_eq, list_eq, pair_eq, pair_eqb_iff}
use phinet.Prelude.Map.{
  lookup, remove, lookup-insert_same, lookup-insert_other, lookup-remove_other, lookup-remove-some,
}
use phinet.Circuit.Relay.{Sha256}
use phinet.CircuitMgr.{Leg, RelayCircuit, CircuitManager}
use phinet.CircuitMgr.Forward.{put_relay}
use phinet.CircuitMgr.Ending.{forget_next, drop_relay}

module _ {sha : Sha256} {Channel : Type 0} where
  -- The circuit's own idea of its far leg.
  abbrev pub Extends : RelayCircuit sha Channel → Leg → Type 0
  Extends r far = (r.next_peer ≡ some far.0) × (r.next_circ_id ≡ some far.1)

  abbrev pub Indexed : CircuitManager sha Channel → Type 0
  Indexed m =
      (far near : Leg)
      → lookup far m.relay_by_next ≡ some near
      → (r : RelayCircuit sha Channel) × (lookup near m.relays ≡ some r) × Extends r far

  -- A circuit may change in all but its far leg.
  pub put_relay-Indexed :
      (m : CircuitManager sha Channel) (key : Leg) (r r' : RelayCircuit sha Channel)
      → Indexed m
      → lookup key m.relays ≡ some r
      → r'.next_peer ≡ r.next_peer
      → r'.next_circ_id ≡ r.next_circ_id
      → Indexed (put_relay key r' m)
  unfolding put_relay
  put_relay-Indexed m key r r' inv here p c far near e =
      let (s, at_near, ext) = inv far near e in
      elim (Bool-cases (key == near)) [
        | inl same ↦
            let key_near : key ≡ near = (pair_eqb_iff key near).0 same in
            let r_s : r ≡ s = ground (arith) in
            (r', rw (← key_near) (lookup-insert_same key r' m.relays), (cc, cc))
        | inr other ↦ (s, rw (lookup-insert_other key near r' m.relays other) at_near, ext)
      ]

  -- A new circuit under a key that is free has no far leg to be named by.
  pub put_relay-new-Indexed :
      (m : CircuitManager sha Channel) (key : Leg) (r : RelayCircuit sha Channel)
      → Indexed m
      → lookup key m.relays ≡ none
      → Indexed (put_relay key r m)
  unfolding put_relay
  put_relay-new-Indexed m key r inv free far near e =
      let (s, at_near, ext) = inv far near e in
      elim (Bool-cases (key == near)) [
        | inl same ↦ let key_near : key ≡ near = (pair_eqb_iff key near).0 same in absurd (cc)
        | inr other ↦ (s, rw (lookup-insert_other key near r m.relays other) at_near, ext)
      ]

  -- The circuit under `key` may go when no entry is left that could name it.
  without-Indexed :
      (m : CircuitManager sha Channel) (key : Leg) (r : RelayCircuit sha Channel)
      (index : List (Leg × Leg))
      → Indexed m
      → lookup key m.relays ≡ some r
      → ((far near : Leg)
          → lookup far index ≡ some near
          → (lookup far m.relay_by_next ≡ some near) × ¬ Extends r far)
      → Indexed (record m { relays = remove key m.relays; relay_by_next = index })
  without-Indexed m key r index inv here left far near e =
      let (before, not_r) = left far near e in
      let (s, at_near, ext) = inv far near before in
      elim (Bool-cases (key == near)) [
        | inl same ↦
            let key_near : key ≡ near = (pair_eqb_iff key near).0 same in
            let r_s : r ≡ s = ground (arith) in absurd (not_r (rw r_s ext))
        | inr other ↦ (s, rw (lookup-remove_other key near m.relays other) at_near, ext)
      ]

  forget_next-Indexed :
      (m : CircuitManager sha Channel) (key : Leg) (r : RelayCircuit sha Channel)
      → Indexed m
      → lookup key m.relays ≡ some r
      → Indexed (forget_next r (record m { relays = remove key m.relays }))
  unfolding forget_next
  forget_next-Indexed m key r inv here = elim (Option-cases r.next_peer) [
    | inl no_peer ↦
        rw (no_peer, forget_next)
          (without-Indexed m key r m.relay_by_next inv here (λ far near e. (e, λ ext. cc)))
    | inr (np, at_np) ↦ elim (Option-cases r.next_circ_id) [
      | inl no_id ↦
          rw (at_np, forget_next, no_id)
            (without-Indexed m key r m.relay_by_next inv here (λ far near e. (e, λ ext. cc)))
      | inr (nc, at_nc) ↦
          rw (at_np, forget_next, at_nc)
            (without-Indexed m key r (remove (np, nc) m.relay_by_next) inv here (λ far near e.
              let (differs, before) = lookup-remove-some (np, nc) far near m.relay_by_next e in
              (before, λ ext. absurd (ground (arith, pair_eqb_iff (np, nc) far, ext)))))
    ]
  ]

  -- A circuit goes with the entry that names it.
  pub drop_relay-Indexed :
      (m : CircuitManager sha Channel) (key : Leg) → Indexed m → Indexed (drop_relay key m)
  unfolding drop_relay
  drop_relay-Indexed m key inv = elim (Option-cases (lookup key m.relays)) [
    | inl gone ↦ rw (gone, drop_relay) inv
    | inr (r, here) ↦ rw (here, drop_relay) (forget_next-Indexed m key r inv here)
  ]
