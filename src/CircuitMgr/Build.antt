-- ===== src/CircuitMgr/Build.antt =====
-- phinet-core/src/circuit_mgr.rs, the client's side of the manager: building a circuit hop by hop,
-- reading what arrives on it, and dropping idle circuits.
pub mod Handshake
pub mod Budget
use phinet.Prelude.{
  ℕ, suc, ◌+◌, ◌-◌, Bool, true, false, not, List, [], ◌∷◌, ◌++◌, Option, none, some, ltb, leb,
  nat_eqb, length, map, if◌then◌else◌, is_some,
}
use phinet.Prelude.Eq.{◌==◌, nat_eq, list_eq, pair_eq}
use phinet.Prelude.Map.{Map, lookup, insert, remove, retain}
use phinet.Prelude.Result.{Result, ok, err, crypto, handshake, auth_failed, ◌>>=◌, Error}
use phinet.Ntor.{
  Primitives, ClientHandshake, client_handshake_start, client_handshake_finish,
  server_handshake_len,
}
use phinet.Padding.{PaddingScheduler}
use phinet.Circuit.Cell.{
  CircuitId, Cell, create, relay_early, with_payload, to_bytes, max_relay_early,
}
use phinet.Circuit.Relay.{RelayCell, RelayCommand, extend2, extended2, Sha256}
use phinet.Circuit.Relay
use phinet.Circuit.Extend.{LinkSpec, build_extend2, parse_extended2}
use phinet.Circuit.Hop.{ChaCha20, HopState, from_ntor}
use phinet.CircuitMgr.Origin.{encrypt_outbound, decrypt_inbound}
use phinet.CircuitMgr.{PeerId, OriginCircuit, CircuitManager, new_circuit, fresh_origin_id}

-- `rc.command == RelayCommand::Extended2`
abbrev is_extended2 : RelayCommand → Bool
is_extended2 extended2 = true
is_extended2 _ = false

module _ {sha : Sha256} {Channel : Type 0} where
  put_origin :
      CircuitId
      → OriginCircuit sha Channel
      → CircuitManager sha Channel
      → CircuitManager sha Channel
  put_origin cid c m = record m { origins = insert cid c m.origins }

  pub set_padding_scheduler :
      CircuitId → PaddingScheduler → CircuitManager sha Channel → CircuitManager sha Channel × Bool
  unfolding put_origin
  set_padding_scheduler cid scheduler m = elim (lookup cid m.origins) [
    | some c ↦ (put_origin cid (record c { padding_scheduler = scheduler }) m, true)
    | none ↦ (m, false)
  ]

module _ {Channel : Type 0} (sha : Sha256) (prim : Primitives) where
  -- The new circuit's id and the CREATE cell.
  pub start_circuit :
      List ℕ
      → ℕ
      → PeerId
      → List ℕ
      → List ℕ
      → CircuitManager sha Channel
      → CircuitManager sha Channel × Result (CircuitId × List ℕ)
  unfolding put_origin
  start_circuit x_priv now guard_peer guard_id guard_b m =
      let (m', cid) = fresh_origin_id m in
      let (hs, client_msg) = client_handshake_start prim x_priv guard_id guard_b in
      let c = record (new_circuit cid guard_peer now) { pending = some hs } in
      (put_origin cid c m', (do cell ← with_payload cid create client_msg; ok (cid, to_bytes cell)))

  -- A reply to the handshake that waits: it is taken, and on success the hop is there.
  finish_pending :
      List ℕ → OriginCircuit sha Channel → OriginCircuit sha Channel × Result (Unit {0})
  finish_pending reply c = elim c.pending [
    | none ↦ (c, err handshake)
    | some hs ↦
        let taken = record c { pending = none } in
        elim (client_handshake_finish prim hs reply) [
          | err e ↦ (taken, err e)
          | ok keys ↦ (record taken { hops = c.hops ++ from_ntor sha keys ∷ [] }, ok tt)
        ]
  ]

  pub handle_created :
      CircuitId
      → List ℕ
      → CircuitManager sha Channel
      → CircuitManager sha Channel × Result (Unit {0})
  unfolding finish_pending put_origin
  handle_created cid server_reply m = elim (lookup cid m.origins) [
    | none ↦ (m, err handshake)
    | some c ↦ let (c', result) = finish_pending server_reply c in (put_origin cid c' m, result)
  ]

  module _ (cipher : ChaCha20) where
    -- After the guards: the handshake with `next`, sent to the last hop.
    extend_origin :
        List ℕ
        → ℕ
        → LinkSpec
        → OriginCircuit sha Channel
        → OriginCircuit sha Channel × Result (List ℕ)
    extend_origin x_priv now next c =
        let (hs, client_msg) = client_handshake_start prim x_priv next.node_id next.static_pub in
        let waiting = record c { pending = some hs } in
        elim (Relay.new extend2 0 (build_extend2 next client_msg)) [
          | err e ↦ (waiting, err e)
          | ok cell ↦
              let (sent, sealed) = encrypt_outbound cipher now (length c.hops - 1) cell waiting in
              elim sealed [
                | err e ↦ (sent, err e)
                | ok payload ↦
                    (record sent { relay_early_used = sent.relay_early_used + 1 }, ok payload)
              ]
        ]

    pub extend_circuit :
        List ℕ
        → ℕ
        → CircuitId
        → LinkSpec
        → CircuitManager sha Channel
        → CircuitManager sha Channel × Result (List ℕ)
    unfolding extend_origin put_origin
    extend_circuit x_priv now cid next m = elim (lookup cid m.origins) [
      | none ↦ (m, err handshake)
      | some c ↦
          if nat_eqb (length c.hops) 0
          then (m, err handshake)
          else if leb max_relay_early c.relay_early_used
          then (m, err handshake)
          else (let (c', sealed) = extend_origin x_priv now next c in
              (
                put_origin cid c' m,
                (do
                  payload ← sealed
                  ok (
                      to_bytes
                        (record { circ_id = cid; command = relay_early; payload = payload }))),
              ))
    ]

    -- EXTENDED2 ends the handshake that waits, any other cell is the caller's.
    take_relay :
        ℕ
        → RelayCell
        → OriginCircuit sha Channel
        → OriginCircuit sha Channel × Result (Option (ℕ × RelayCell))
    unfolding finish_pending
    take_relay hop_idx rc c =
        if is_extended2 rc.command
        then elim (parse_extended2 rc.bytes) [
          | err e ↦ (c, err e)
          | ok reply ↦
              if nat_eqb (length reply) server_handshake_len
              then (let (c', result) = finish_pending reply c in (c', (do done ← result; ok none)))
              else (c, err handshake)
        ]
        else (c, ok (some (hop_idx, rc)))

    pub handle_origin_relay :
        ℕ
        → CircuitId
        → List ℕ
        → CircuitManager sha Channel
        → CircuitManager sha Channel × Result (Option (ℕ × RelayCell))
    unfolding take_relay put_origin
    handle_origin_relay now cid payload m = elim (lookup cid m.origins) [
      | none ↦ (m, err handshake)
      | some c ↦
          let (c', found) = decrypt_inbound cipher now payload c in
          elim found [
            | none ↦ (put_origin cid c' m, err auth_failed)
            | some (hop_idx, rc) ↦
                let (c'', result) = take_relay hop_idx rc c' in (put_origin cid c'' m, result)
          ]
    ]
