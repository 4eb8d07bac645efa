-- ===== src/CircuitMgr/Forward/Steps.antt =====
-- Each operation of the relay's side keeps the two indices in agreement.
use phinet.Prelude.{
  ℕ, ◌≡◌, refl, none, some, List, length, nat_eqb, Bool-cases, Option-cases, inl, inr, arith,
}
use phinet.Prelude.Eq.{◌==◌, nat_eq, list_eq, pair_eq, pair_eqb_iff}
use phinet.Prelude.Map.{lookup, insert, lookup-insert_same, lookup-insert_other, lookup-insert-some}
use phinet.Prelude.Result.{Result-cases}
use phinet.Ntor.{Primitives, server_handshake, client_handshake_len}
use phinet.Circuit.Cell.{Cell, CircuitId}
use phinet.Circuit.Relay.{Sha256, extended2}
use phinet.Circuit.Relay
use phinet.Circuit.Extend.{parse_extend2, build_extended2}
use phinet.Circuit.Hop.{ChaCha20, onion_decrypt_forward}
use phinet.CircuitMgr.{PeerId, Leg, RelayCircuit, CircuitManager}
use phinet.CircuitMgr.Forward.{
  put_relay, begin_extend, handle_create, across_bridge, pass_on, recognize_forward,
  handle_forward_relay, handle_created_from_next, handle_backward_relay,
}
use phinet.CircuitMgr.Ending.{unbridge_rendezvous, destroy, drop_relay}
use phinet.CircuitMgr.Forward.Legs.{
  Extends, Indexed, put_relay-Indexed, put_relay-new-Indexed, drop_relay-Indexed,
}

module _ {sha : Sha256} {Channel : Type 0} where
  pub unbridge-Indexed :
      (m : CircuitManager sha Channel) (leg : Leg)
      → Indexed m
      → Indexed (unbridge_rendezvous leg m).0
  unfolding unbridge_rendezvous
  unbridge-Indexed m leg inv = elim (Option-cases (lookup leg m.rendezvous_bridges)) [
    | inl e ↦ rw (e, unbridge_rendezvous) inv
    | inr (partner, e) ↦ rw (e, unbridge_rendezvous) inv
  ]

  pub destroy-Indexed :
      (m : CircuitManager sha Channel) (from_peer : PeerId) (cid : CircuitId)
      → Indexed m
      → Indexed (destroy from_peer cid m)
  unfolding destroy
  destroy-Indexed m from_peer cid inv =
      unbridge-Indexed (drop_relay (from_peer, cid) m) (from_peer, cid)
        (drop_relay-Indexed m (from_peer, cid) inv)

  -- The entry for the new far leg, put in with the circuit that now extends to it.
  extended-Indexed :
      (m : CircuitManager sha Channel) (key far : Leg) (r r' : RelayCircuit sha Channel)
      → Indexed m
      → lookup key m.relays ≡ some r
      → r.next_peer ≡ none
      → Extends r' far
      → Indexed (record m {
        relays = insert key r' m.relays;
        relay_by_next = insert far key m.relay_by_next;
      })
  extended-Indexed m key far r r' inv here unextended ext other near e =
      elim (lookup-insert-some far other key near m.relay_by_next e) [
        | inl (at_far, at_key) ↦
            (r', rw (← at_key) (lookup-insert_same key r' m.relays), rw (← at_far) ext)
        | inr (differs, before) ↦
            let (s, at_near, sext) = inv other near before in
            elim (Bool-cases (key == near)) [
              | inl same ↦
                  let key_near : key ≡ near = (pair_eqb_iff key near).0 same in
                  let r_s : r ≡ s = ground (arith) in absurd (cc)
              | inr apart ↦ (s, rw (lookup-insert_other key near r' m.relays apart) at_near, sext)
            ]
      ]

  pub begin_extend-Indexed :
      (m : CircuitManager sha Channel) (from_peer next_peer : PeerId)
      (prev_cid next_cid : CircuitId) (extend_data : List ℕ)
      → Indexed m
      → Indexed (begin_extend from_peer prev_cid next_peer next_cid extend_data m).0
  unfolding begin_extend put_relay
  begin_extend-Indexed m from_peer next_peer prev_cid next_cid extend_data inv =
      let key : Leg = (from_peer, prev_cid) in
      elim (Option-cases (lookup key m.relays)) [
        | inl gone ↦ rw (gone, begin_extend) inv
        | inr (r, here) ↦ elim (Option-cases r.next_peer) [
          | inr (np, extended) ↦ rw (here, begin_extend, extended) inv
          | inl free ↦ elim (Result-cases (parse_extend2 extend_data)) [
            | inr (e, refused) ↦ rw (here, begin_extend, free, refused) inv
            | inl ((link, msg), parsed) ↦
                elim (Bool-cases (nat_eqb (length msg) client_handshake_len)) [
                  | inr wrong ↦ rw (here, begin_extend, free, parsed, wrong) inv
                  | inl right ↦
                      rw (here, begin_extend, free, parsed, right)
                        (extended-Indexed m key (next_peer, next_cid) r _ inv here free
                          (refl, refl))
                ]
          ]
        ]
      ]

module _ {Channel : Type 0} (sha : Sha256) (prim : Primitives) where
  -- A CREATE on a circuit id that the peer does not use yet.
  pub handle_create-Indexed :
      (m : CircuitManager sha Channel) (y_priv : List ℕ) (now : ℕ) (from_peer : PeerId)
      (cid : CircuitId) (my_id my_b_pub my_b_sec client_msg : List ℕ)
      → Indexed m
      → lookup (from_peer, cid) m.relays ≡ none
      → Indexed
          (handle_create sha prim y_priv now from_peer cid my_id my_b_pub my_b_sec client_msg m).0
  unfolding handle_create
  handle_create-Indexed m y_priv now from_peer cid my_id my_b_pub my_b_sec client_msg inv free =
      elim (Result-cases (server_handshake prim y_priv my_id my_b_pub my_b_sec client_msg)) [
        | inr (e, refused) ↦ rw (refused, handle_create) inv
        | inl ((keys, reply), done) ↦
            rw (done, handle_create) (put_relay-new-Indexed m (from_peer, cid) _ inv free)
      ]

module _ {sha : Sha256} {Channel : Type 0} (cipher : ChaCha20) where
  across_bridge-Indexed :
      (m : CircuitManager sha Channel) (now : ℕ) (arriving : Leg) (cell : Cell)
      → Indexed m
      → Indexed (across_bridge cipher now arriving cell m).0
  unfolding across_bridge
  across_bridge-Indexed m now arriving cell inv =
      elim (Option-cases (lookup arriving m.rendezvous_bridges)) [
        | inl unbridged ↦ rw (unbridged, across_bridge) inv
        | inr (partner, bridged) ↦ elim (Option-cases (lookup partner m.relays)) [
          | inl gone ↦ rw (bridged, across_bridge, gone) inv
          | inr (prc, here) ↦
              rw (bridged, across_bridge, here)
                (put_relay-Indexed m partner prc _ inv here refl refl)
        ]
      ]

  pass_on-Indexed :
      (m : CircuitManager sha Channel) (now : ℕ) (key : Leg) (r : RelayCircuit sha Channel)
      (cell : Cell)
      → Indexed m
      → Indexed (pass_on cipher now key r cell m).0
  unfolding pass_on
  pass_on-Indexed m now key r cell inv = elim (Option-cases r.next_peer) [
    | inl e ↦ rw (e, pass_on) (across_bridge-Indexed m now key cell inv)
    | inr (np, e) ↦ elim (Option-cases r.next_circ_id) [
      | inl f ↦ rw (e, pass_on, f) (across_bridge-Indexed m now key cell inv)
      | inr (nc, f) ↦ rw (e, pass_on, f) inv
    ]
  ]

  pub handle_forward_relay-Indexed :
      (m : CircuitManager sha Channel) (now : ℕ) (from_peer : PeerId) (cid : CircuitId)
      (cell : Cell)
      → Indexed m
      → Indexed (handle_forward_relay cipher now from_peer cid cell m).0
  unfolding handle_forward_relay
  handle_forward_relay-Indexed m now from_peer cid cell inv =
      let key : Leg = (from_peer, cid) in
      elim (Option-cases (lookup key m.relays)) [
        | inl gone ↦ rw (gone, handle_forward_relay) inv
        | inr (r, here) ↦
            let (hop, payload) = onion_decrypt_forward cipher r.hop cell.payload in
            let r' = record r { hop = hop; last_activity = now } in
            elim (Option-cases (recognize_forward hop payload)) [
              | inl e ↦
                  rw (here, handle_forward_relay, e)
                    (pass_on-Indexed _ now key r' (record cell { payload = payload })
                      (put_relay-Indexed m key r _ inv here refl refl))
              | inr ((moved, rc), e) ↦
                  rw (here, handle_forward_relay, e)
                    (put_relay-Indexed m key r _ inv here refl refl)
            ]
      ]

  pub handle_created_from_next-Indexed :
      (m : CircuitManager sha Channel) (from_next : PeerId) (next_cid : CircuitId) (reply : List ℕ)
      → Indexed m
      → Indexed (handle_created_from_next cipher from_next next_cid reply m).0
  unfolding handle_created_from_next
  handle_created_from_next-Indexed m from_next next_cid reply inv =
      elim (Option-cases (lookup (from_next, next_cid) m.relay_by_next)) [
        | inl e ↦ rw (e, handle_created_from_next) inv
        | inr (key, e) ↦ elim (Option-cases (lookup key m.relays)) [
          | inl f ↦ rw (e, handle_created_from_next, f) inv
          | inr (r, f) ↦ elim (Bool-cases r.awaiting_extended) [
            | inr idle ↦ rw (e, handle_created_from_next, f, idle) inv
            | inl waits ↦ elim (Result-cases (Relay.new extended2 0 (build_extended2 reply))) [
              | inr (x, refused) ↦
                  rw (e, handle_created_from_next, f, waits, refused)
                    (put_relay-Indexed m key r _ inv f refl refl)
              | inl (c, made) ↦
                  rw (e, handle_created_from_next, f, waits, made)
                    (put_relay-Indexed m key r _ inv f refl refl)
            ]
          ]
        ]
      ]

  pub handle_backward_relay-Indexed :
      (m : CircuitManager sha Channel) (from_next : PeerId) (next_cid : CircuitId) (cell : Cell)
      → Indexed m
      → Indexed (handle_backward_relay cipher from_next next_cid cell m).0
  unfolding handle_backward_relay
  handle_backward_relay-Indexed m from_next next_cid cell inv =
      elim (Option-cases (lookup (from_next, next_cid) m.relay_by_next)) [
        | inl e ↦ rw (e, handle_backward_relay) inv
        | inr (key, e) ↦ elim (Option-cases (lookup key m.relays)) [
          | inl f ↦ rw (e, handle_backward_relay, f) inv
          | inr (r, f) ↦
              rw (e, handle_backward_relay, f) (put_relay-Indexed m key r _ inv f refl refl)
        ]
      ]
