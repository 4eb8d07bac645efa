-- ===== src/CircuitMgr/Forward.antt =====
-- phinet-core/src/circuit_mgr.rs, the relay's side of the manager: the circuits of others, cell by
-- cell in both directions.
pub mod Legs
pub mod Steps
pub mod Unbridged
use phinet.Prelude.{
  ℕ, Bool, true, false, not, List, [], ◌∷◌, Option, none, some, nat_eqb, length, if◌then◌else◌,
  is_some,
}
use phinet.Prelude.Eq.{◌==◌, nat_eq, list_eq, pair_eq}
use phinet.Prelude.Map.{lookup, insert, remove, retain}
use phinet.Prelude.Result.{Result, ok, err, handshake, ◌>>=◌}
use phinet.Ntor.{Primitives, server_handshake, client_handshake_len}
use phinet.Stream.Mux
use phinet.Congestion
use phinet.Circuit.Cell.{CircuitId, Cell, create, created, relay, with_payload, to_bytes}
use phinet.Circuit.Relay.{
  RelayCell, extended2, Sha256, to_payload, from_payload, zero_digest, is_recognized_at,
  stamp_digest,
}
use phinet.Circuit.Relay
use phinet.Circuit.Extend.{parse_extend2, build_extended2}
use phinet.Circuit.Hop.{
  ChaCha20, HopState, from_ntor, onion_decrypt_forward, onion_encrypt_backward,
}
use phinet.CircuitMgr.{
  PeerId, Leg, RelayCircuit, CircuitManager, RelayAction, handle, forward, drop_it,
}

module _ {sha : Sha256} {Channel : Type 0} where
  -- The circuit that `handle_create` makes.
  unfoldable pub new_relay_circuit :
      PeerId → CircuitId → ℕ → HopState sha → RelayCircuit sha Channel
  new_relay_circuit from_peer cid now hop = record {
    prev_peer = from_peer;
    prev_circ_id = cid;
    next_peer = none;
    next_circ_id = none;
    hop = hop;
    awaiting_extended = false;
    exit_streams = Mux.new;
    cc = Congestion.new;
    circ_delivered_since_sendme = 0;
    last_activity = now;
  }

  unfoldable pub put_relay :
      Leg → RelayCircuit sha Channel → CircuitManager sha Channel → CircuitManager sha Channel
  put_relay key r m = record m { relays = insert key r m.relays }

  -- What `begin_extend` sets on a circuit, and the CREATE cell for the next hop.
  pub begin_extend :
      PeerId
      → CircuitId
      → PeerId
      → CircuitId
      → List ℕ
      → CircuitManager sha Channel
      → CircuitManager sha Channel × Result (List ℕ)
  unfolding put_relay
  begin_extend from_peer prev_cid next_peer next_cid extend_data m =
      let key : Leg = (from_peer, prev_cid) in
      elim (lookup key m.relays) [
        | none ↦ (m, err handshake)
        | some r ↦
            if is_some r.next_peer then (m, err handshake) else elim (parse_extend2 extend_data) [
              | err e ↦ (m, err e)
              | ok (link, client_msg) ↦
                  if nat_eqb (length client_msg) client_handshake_len
                  then (let r' = record r {
                    next_peer = some next_peer;
                    next_circ_id = some next_cid;
                    awaiting_extended = true;
                  } in
                      let m' = put_relay key r' m in
                      (
                        record m' {
                          relay_by_next = insert (next_peer, next_cid) key m'.relay_by_next;
                        },
                        (do cell ← with_payload next_cid create client_msg; ok (to_bytes cell)),
                      ))
                  else (m, err handshake)
            ]
      ]

module _ {sha : Sha256} where
  -- The cell that a payload is, where it is one recognized at the hop's forward hash, and the
  -- hop with that hash moved on.
  unfoldable pub recognize_forward : HopState sha → List ℕ → Option (HopState sha × RelayCell)
  recognize_forward h payload = elim (from_payload payload) [
    | err _ ↦ none
    | ok rc ↦
        if is_recognized_at sha payload h.forward_digest rc
        then some
            (record h { forward_digest = sha.absorb h.forward_digest (zero_digest payload) }, rc)
        else none
  ]

module _ {Channel : Type 0} (sha : Sha256) (prim : Primitives) where
  unfoldable pub handle_create :
      List ℕ
      → ℕ
      → PeerId
      → CircuitId
      → List ℕ
      → List ℕ
      → List ℕ
      → List ℕ
      → CircuitManager sha Channel
      → CircuitManager sha Channel × Result (List ℕ)
  unfolding put_relay
  handle_create y_priv now from_peer cid my_id my_b_pub my_b_sec client_msg m =
      elim (server_handshake prim y_priv my_id my_b_pub my_b_sec client_msg) [
        | err e ↦ (m, err e)
        | ok (keys, reply) ↦
            let r = new_relay_circuit from_peer cid now (from_ntor sha keys) in
            (
              put_relay (from_peer, cid) r m,
              (do cell ← with_payload cid created reply; ok (to_bytes cell)),
            )
      ]

module _ {sha : Sha256} {Channel : Type 0} (cipher : ChaCha20) where
  -- No onward hop: across the rendezvous bridge, or nowhere.
  across_bridge :
      ℕ → Leg → Cell → CircuitManager sha Channel → CircuitManager sha Channel × RelayAction
  unfolding put_relay
  across_bridge now arriving cell m = elim (lookup arriving m.rendezvous_bridges) [
    | none ↦ (m, drop_it)
    | some partner ↦ elim (lookup partner m.relays) [
      | none ↦ (m, drop_it)
      | some prc ↦
          let (hop, payload) = onion_encrypt_backward cipher prc.hop cell.payload in
          (
            put_relay partner (record prc { hop = hop; last_activity = now }) m,
            forward prc.prev_peer
                (to_bytes (record cell { circ_id = prc.prev_circ_id; payload = payload })),
          )
    ]
  ]

  -- A cell that is not for us, with our layer off.
  pass_on :
      ℕ
      → Leg
      → RelayCircuit sha Channel
      → Cell
      → CircuitManager sha Channel
      → CircuitManager sha Channel × RelayAction
  unfolding across_bridge
  pass_on now key r cell m = elim r.next_peer [
    | none ↦ across_bridge now key cell m
    | some np ↦ elim r.next_circ_id [
      | none ↦ across_bridge now key cell m
      | some ncid ↦ (m, forward np (to_bytes (record cell { circ_id = ncid })))
    ]
  ]

  pub handle_forward_relay :
      ℕ
      → PeerId
      → CircuitId
      → Cell
      → CircuitManager sha Channel
      → CircuitManager sha Channel × RelayAction
  unfolding put_relay pass_on
  handle_forward_relay now from_peer cid cell m =
      let key : Leg = (from_peer, cid) in
      elim (lookup key m.relays) [
        | none ↦ (m, drop_it)
        | some r ↦
            let (hop, payload) = onion_decrypt_forward cipher r.hop cell.payload in
            let r' = record r { hop = hop; last_activity = now } in
            elim (recognize_forward hop payload) [
              | some (moved, rc) ↦ (put_relay key (record r' { hop = moved }) m, handle rc)
              | none ↦ pass_on now key r' (record cell { payload = payload }) (put_relay key r' m)
            ]
      ]

  pub handle_created_from_next :
      PeerId
      → CircuitId
      → List ℕ
      → CircuitManager sha Channel
      → CircuitManager sha Channel × Result (PeerId × List ℕ)
  unfolding put_relay
  handle_created_from_next from_next next_cid reply m =
      elim (lookup (from_next, next_cid) m.relay_by_next) [
        | none ↦ (m, err handshake)
        | some prev_key ↦ elim (lookup prev_key m.relays) [
          | none ↦ (m, err handshake)
          | some r ↦
              if r.awaiting_extended
              then (let r' = record r { awaiting_extended = false } in
                  elim (Relay.new extended2 0 (build_extended2 reply)) [
                    | err e ↦ (put_relay prev_key r' m, err e)
                    | ok cell ↦
                        let (stamped, digest) = stamp_digest sha r.hop.backward_digest cell in
                        let (hop, payload) =
                          onion_encrypt_backward cipher
                            (record (r.hop) { backward_digest = digest }) (to_payload stamped) in
                        (
                          put_relay prev_key (record r' { hop = hop }) m,
                          ok (
                            r.prev_peer,
                            to_bytes (record {
                              circ_id = r.prev_circ_id;
                              command = relay;
                              payload = payload;
                            }),
                          ),
                        )
                  ])
              else (m, err handshake)
        ]
      ]

  pub handle_backward_relay :
      PeerId
      → CircuitId
      → Cell
      → CircuitManager sha Channel
      → CircuitManager sha Channel × Option (PeerId × List ℕ)
  unfolding put_relay
  handle_backward_relay from_next next_cid cell m =
      elim (lookup (from_next, next_cid) m.relay_by_next) [
        | none ↦ (m, none)
        | some prev_key ↦ elim (lookup prev_key m.relays) [
          | none ↦ (m, none)
          | some r ↦
              let (hop, payload) = onion_encrypt_backward cipher r.hop cell.payload in
              (
                put_relay prev_key (record r { hop = hop }) m,
                some (
                  r.prev_peer,
                  to_bytes (record cell { circ_id = r.prev_circ_id; payload = payload }),
                ),
              )
        ]
      ]
