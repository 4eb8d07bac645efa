-- ===== src/CircuitMgr/Build/Handshake.antt =====
-- A circuit's first hop: CREATE from the client, CREATED from the relay, each read from the bytes
-- that the connection carries, as `on_circuit_cell` of node.rs does.
use phinet.Prelude.{ℕ, ◌≡◌, ◌<◌, refl, List, [], ◌∷◌, ◌++◌, none, some, length, take, arith}
use phinet.Prelude.Eq.{nat_eq, list_eq, pair_eq}
use phinet.Prelude.Map.{lookup, insert, lookup-insert_same}
use phinet.Prelude.Word.{u32_mod}
use phinet.Prelude.Result.{ok}
use phinet.Ntor.{
  Primitives, NtorKeys, ClientHandshake, server_handshake, client_handshake_finish,
  client_handshake_start, client_handshake_len, server_handshake_len,
}
use phinet.Ntor.Agreement.{
  IsSound, handshake_agrees, client_handshake_start-length, server_handshake-length,
}
use phinet.Circuit.Cell.{
  Cell, CircuitId, create, created, with_payload, with_payload-carries, to_bytes, from_bytes,
}
use phinet.Circuit.Relay.{Sha256}
use phinet.Circuit.Hop.{from_ntor}
use phinet.CircuitMgr.{
  PeerId, OriginCircuit, RelayCircuit, CircuitManager, fresh_origin_id, new_circuit,
}
use phinet.CircuitMgr.Build.{start_circuit, handle_created, put_origin, finish_pending}
use phinet.CircuitMgr.Forward.{handle_create, put_relay, new_relay_circuit}

module _ (sha : Sha256) (prim : Primitives) (Channel : Type 0)
    (m : CircuitManager sha Channel) where
  -- The circuit that a start leaves waiting.
  started_circuit :
      (x_priv : List ℕ) (now : ℕ) (guard_peer : PeerId) (guard_id guard_b : List ℕ)
      → (c : OriginCircuit sha Channel) × (lookup m.next_origin_id
            (start_circuit sha prim x_priv now guard_peer guard_id guard_b m).0.origins
          ≡ some c)
        × (c.pending ≡ some (client_handshake_start prim x_priv guard_id guard_b).0)
        × (c.hops ≡ [])
  unfolding start_circuit fresh_origin_id put_origin new_circuit
  started_circuit x_priv now guard_peer guard_id guard_b =
      (_, lookup-insert_same m.next_origin_id _ m.origins, refl, refl)

  -- A CREATE that the server's half accepts, and its reply that the client's half accepts.
  create_step :
      (y_priv : List ℕ) (now : ℕ) (peer : PeerId) (cid : CircuitId) (my_id b_pub b_sec msg : List ℕ)
      (keys : NtorKeys) (reply : List ℕ) (cell : Cell)
      → server_handshake prim y_priv my_id b_pub b_sec msg ≡ ok (keys, reply)
      → with_payload cid created reply ≡ ok cell
      → handle_create sha prim y_priv now peer cid my_id b_pub b_sec msg m ≡ (
        record m {
          relays =
              insert (peer, cid) (new_relay_circuit peer cid now (from_ntor sha keys)) m.relays;
        },
        ok (to_bytes cell),
      )
  unfolding handle_create put_relay
  create_step y_priv now peer cid my_id b_pub b_sec msg keys reply cell served made =
      rw (served, handle_create, made) refl

  created_step :
      (cid : CircuitId) (c : OriginCircuit sha Channel) (hs : ClientHandshake) (reply : List ℕ)
      (keys : NtorKeys)
      → lookup cid m.origins ≡ some c
      → c.pending ≡ some hs
      → client_handshake_finish prim hs reply ≡ ok keys
      → handle_created sha prim cid reply m ≡ (
        record m {
          origins =
              insert cid
                (record c { pending = none; hops = c.hops ++ from_ntor sha keys ∷ [] })
                m.origins;
        },
        ok tt,
      )
  unfolding handle_created finish_pending put_origin
  created_step cid c hs reply keys here waits done =
      rw (here, handle_created) (rw (waits, finish_pending) (rw (done, finish_pending) refl))

-- One exchange of CREATE and CREATED, each read from the bytes of its cell: the client finds one hop,
-- the relay a circuit under the client's id, and both hold the same hop state.
abbrev pub FirstHop :
    (sha : Sha256) (prim : Primitives) (Channel : Type 0)
    (client relay_mgr : CircuitManager sha Channel) (now : ℕ) (guard_peer client_peer : PeerId)
    (x_priv y_priv relay_id b_priv : List ℕ)
    → Type 0
FirstHop sha prim Channel client relay_mgr now guard_peer client_peer x_priv y_priv relay_id
      b_priv =
    let b_pub = prim.public_key b_priv in
    let (client1, started) = start_circuit sha prim x_priv now guard_peer relay_id b_pub client in
    (cid : CircuitId) × (sent : List ℕ) × (cell : Cell) × (started ≡ ok (cid, sent))
    × (from_bytes sent ≡ ok cell)
    × (let (relay1, answered) =
          handle_create sha prim y_priv now client_peer cell.circ_id relay_id b_pub b_priv
            (take client_handshake_len cell.payload) relay_mgr in
        (back : List ℕ) × (reply : Cell) × (answered ≡ ok back)
        × (from_bytes back ≡ ok reply)
        × (reply.circ_id ≡ cid)
        × (let (client2, done) =
              handle_created sha prim reply.circ_id (take server_handshake_len reply.payload)
                client1 in
            (c : OriginCircuit sha Channel) × (r : RelayCircuit sha Channel) × (done ≡ ok tt)
            × (lookup cid client2.origins ≡ some c)
            × (lookup (client_peer, cid) relay1.relays ≡ some r)
            × (c.hops ≡ r.hop ∷ [])))

-- A relay whose X25519 key the client knows answers the client's CREATE, the client accepts the
-- CREATED, and the two hold one hop state, for a client whose counter is a `u32`.
pub create_agrees :
    (sha : Sha256) (prim : Primitives) (sound : IsSound prim) (Channel : Type 0)
    (client relay_mgr : CircuitManager sha Channel) (now : ℕ) (guard_peer client_peer : PeerId)
    (x_priv y_priv relay_id b_priv : List ℕ)
    → length relay_id ≡ 32
    → client.next_origin_id < u32_mod
    → FirstHop sha prim Channel client relay_mgr now guard_peer client_peer x_priv y_priv relay_id
        b_priv
unfolding start_circuit fresh_origin_id new_relay_circuit
create_agrees sha prim sound Channel client relay_mgr now guard_peer client_peer x_priv y_priv
      relay_id b_priv li fits =
    let b_pub = prim.public_key b_priv in
    let cid = client.next_origin_id in
    let (hs, msg) = client_handshake_start prim x_priv relay_id b_pub in
    let msg_len =
      client_handshake_start-length prim sound x_priv relay_id b_pub li
        (sound.public_length b_priv) in
    let (keys, answer, served, finished) =
      handshake_agrees prim sound x_priv y_priv relay_id b_priv li in
    let answer_len =
      server_handshake-length prim sound y_priv relay_id b_pub b_priv msg keys answer served in
    let (cell, made, read, at_cid, _, carried) =
      with_payload-carries cid create msg fits (omega arith) in
    let (back, made', read', at_cid', _, carried') =
      with_payload-carries cid created answer fits (omega arith) in
    let (client1, _) = start_circuit sha prim x_priv now guard_peer relay_id b_pub client in
    let (c, waits, pending, no_hops) =
      started_circuit sha prim Channel client x_priv now guard_peer relay_id b_pub in
    let msg_read : take client_handshake_len cell.payload ≡ msg = rw (← msg_len) carried in
    let answer_read : take server_handshake_len back.payload ≡ answer =
      rw (← answer_len) carried' in
    let r : RelayCircuit sha Channel = new_relay_circuit client_peer cid now (from_ntor sha keys) in
    let served' =
      create_step sha prim Channel relay_mgr y_priv now client_peer cid relay_id b_pub b_priv msg
        keys answer back served made' in
    (
      cid,
      to_bytes cell,
      cell,
      rw made refl,
      read,
      rw (at_cid, msg_read, served')
          (
            to_bytes back,
            back,
            refl,
            read',
            at_cid',
            rw
                (
                  at_cid',
                  answer_read,
                  created_step sha prim Channel client1 cid c hs answer keys waits pending finished,
                )
                (
                  _,
                  r,
                  refl,
                  lookup-insert_same cid _ client1.origins,
                  lookup-insert_same _ r relay_mgr.relays,
                  rw no_hops refl,
                ),
          ),
    )
