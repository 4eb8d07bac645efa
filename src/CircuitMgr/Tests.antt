-- ===== src/CircuitMgr/Tests.antt =====
-- The manager at concrete inputs: the primitives of Samples, and a test channel that is a number.
use phinet.Prelude.{ℕ, ◌≡◌, refl, List, [], ◌∷◌, none, some, replicate, arith, true}
use phinet.Prelude.Eq.{nat_eq, list_eq, pair_eq}
use phinet.Prelude.Map.{Keyed, lookup, insert}
use phinet.Prelude.Word.{codes}
use phinet.Prelude.Result.{ok}
use phinet.Samples.{toy_ntor, toy_ntor-IsSound, toy_sha, toy_cipher}
use phinet.Rendezvous.{hs_finalize}
use phinet.Circuit.Relay.{
  RelayCell, data_cmd, to_payload, from_payload, stamp_digest, relay_command_byte,
  relay_command_from_byte, hidden_service_from_byte,
}
use phinet.Circuit.Relay.Digest.{HashIsBytes}
use phinet.Circuit.Hop.{
  HopState, onion_encrypt_forward, onion_decrypt_forward, onion_encrypt_backward,
  onion_decrypt_backward, crypt_in_place, from_e2e_keys,
}
use phinet.CircuitMgr.{
  Leg, OriginCircuit, CircuitManager, PendingRendezvous, new_circuit, new_manager,
}
use phinet.CircuitMgr.Origin.{
  encrypt_outbound, seal, stamp_at, wrap, decrypt_inbound, recognize_backward,
}
use phinet.CircuitMgr.Path.{IsFresh, deliver, reply, PassesBackward}
use phinet.CircuitMgr.Path.Outbound.{SealedPasses, encrypt_outbound-deliver}
use phinet.CircuitMgr.Path.Inbound.{decrypt_inbound-reply}
use phinet.CircuitMgr.Build.Handshake.{FirstHop, create_agrees}
use phinet.CircuitMgr.Forward.{recognize_forward}
use phinet.CircuitMgr.Ending.{destroy}
use phinet.CircuitMgr.Ending.Exact.{Destroyed, destroy-exact}
use phinet.CircuitMgr.Splice.{
  evict_idle_circuits, bridge_rendezvous, register_pending_rendezvous, complete_rendezvous,
}
use phinet.CircuitMgr.Splice.Bridges.{Symmetric, bridge_rendezvous-Symmetric}
use phinet.CircuitMgr.Splice.Reach.{
  IsSane, Reach, start, then_step, bridge, destroy_cell, evict, Reach-IsSane,
}
use phinet.CircuitMgr.Splice.Complete.{complete_rendezvous-once, complete_rendezvous-agrees}

toy_sha-HashIsBytes : HashIsBytes toy_sha
toy_sha-HashIsBytes s = omega arith

abbrev hop : ℕ → HopState toy_sha
hop seed = record {
  forward_key = seed ∷ [];
  backward_key = seed ∷ [];
  forward_nonce = 0;
  backward_nonce = 0;
  forward_digest = seed;
  backward_digest = seed;
}

-- A circuit of two hops with the id 9.
abbrev two_hops : OriginCircuit toy_sha ℕ
two_hops = record (new_circuit 9 (replicate 32 1) 0) { hops = hop 1 ∷ hop 2 ∷ [] }

abbrev hello : RelayCell
hello = record { command = data_cmd; recognized = 0; stream_id = 5; digest = 0; bytes = codes "hi" }

hello-IsFresh : IsFresh hello
hello-IsFresh = record {
  wire = record {
    recognized_fits = omega arith;
    stream_fits = omega arith;
    digest_fits = omega arith;
    data_fits = omega arith;
  };
  unmarked = refl;
}

two_hops_pass :
    SealedPasses toy_cipher 1 two_hops.hops (encrypt_outbound toy_cipher 7 1 hello two_hops).1
unfolding new_circuit encrypt_outbound seal stamp_at wrap onion_encrypt_forward
    onion_decrypt_forward crypt_in_place recognize_forward stamp_digest to_payload from_payload
    relay_command_byte relay_command_from_byte hidden_service_from_byte
two_hops_pass = (refl, tt)

encrypt_outbound-deliver_example :
    let (c', sealed) = encrypt_outbound toy_cipher 7 1 hello two_hops in
    (payload : List ℕ) × (stamped : RelayCell) × (sealed ≡ ok payload)
    × (deliver toy_cipher 1 two_hops.hops payload ≡ (c'.hops, some stamped))
    × (record stamped { digest = hello.digest } ≡ hello)
unfolding new_circuit
encrypt_outbound-deliver_example =
    encrypt_outbound-deliver toy_cipher toy_sha toy_sha-HashIsBytes ℕ 7 1 hello two_hops refl
      (omega arith) hello-IsFresh two_hops_pass

two_hops_reply :
    let (hops, stamped, payload) = reply toy_cipher 1 hello two_hops.hops in
    PassesBackward toy_cipher 1 two_hops.hops payload
unfolding reply onion_encrypt_backward onion_decrypt_backward crypt_in_place recognize_backward
    stamp_digest to_payload from_payload relay_command_byte relay_command_from_byte
    hidden_service_from_byte new_circuit
two_hops_reply = (refl, tt)

decrypt_inbound-reply_example :
    let (hops, stamped, payload) = reply toy_cipher 1 hello two_hops.hops in
    decrypt_inbound toy_cipher 7 payload two_hops
    ≡ (record two_hops { hops = hops; last_activity = 7 }, some (1, stamped))
unfolding new_circuit
decrypt_inbound-reply_example =
    decrypt_inbound-reply toy_cipher toy_sha toy_sha-HashIsBytes ℕ 7 1 hello two_hops hello-IsFresh
      (omega arith) two_hops_reply

create_agrees_example :
    FirstHop toy_sha toy_ntor ℕ new_manager new_manager 5
      (replicate 32 1)
      (replicate 32 2)
      (3 ∷ [])
      (4 ∷ [])
      (replicate 32 7)
      (5 ∷ [])
unfolding new_manager
create_agrees_example =
    create_agrees toy_sha toy_ntor toy_ntor-IsSound ℕ new_manager new_manager 5 (replicate 32 1)
      (replicate 32 2) (3 ∷ []) (4 ∷ []) (replicate 32 7) (5 ∷ []) refl (omega arith)

abbrev client_mgr : CircuitManager toy_sha ℕ
client_mgr = record {
  origins = (9, two_hops) ∷ [];
  relays = [];
  relay_by_next = [];
  next_origin_id = 10;
  intro_circuits = [];
  intro_registered = [];
  rendezvous_cookies = [];
  rendezvous_bridges = [];
  pending_rendezvous = [];
  e2e_keys = [];
}

abbrev leg : ℕ → Leg
leg n = (replicate 32 n, n)

abbrev bridged : CircuitManager toy_sha ℕ
bridged = record client_mgr { rendezvous_bridges = (leg 1, leg 2) ∷ (leg 2, leg 1) ∷ [] }

abbrev registering : CircuitManager toy_sha ℕ
registering = record bridged { intro_circuits = (replicate 32 5, 1) ∷ (replicate 32 6, 2) ∷ [] }

intros-Keyed : Keyed registering.intro_circuits
intros-Keyed = ((refl, tt), (tt, tt))

-- One leg of a bridge is destroyed, on an id that an introduction circuit has too.
destroy-exact_example : Destroyed (leg 1) registering (destroy (replicate 32 1) 1 registering)
destroy-exact_example = destroy-exact registering (replicate 32 1) 1 intros-Keyed

no_bridges-Symmetric : Symmetric client_mgr.rendezvous_bridges
unfolding lookup
no_bridges-Symmetric a b e = absurd cc

bridged-Symmetric : Symmetric bridged.rendezvous_bridges
unfolding bridge_rendezvous lookup insert
bridged-Symmetric =
    (bridge_rendezvous-Symmetric client_mgr (leg 1) (leg 2) no_bridges-Symmetric refl refl).0

abbrev story :
    Reach toy_sha toy_cipher toy_ntor ℕ
      (evict_idle_circuits 99
        (destroy (replicate 32 1) 1 (bridge_rendezvous (leg 1) (leg 2) new_manager))).0
story =
    then_step
      (then_step (then_step start (bridge (leg 1) (leg 2))) (destroy_cell (replicate 32 1) 1))
      (evict 99)

Reach-IsSane_example :
    IsSane
      (evict_idle_circuits 99 (
        destroy
          (replicate 32 1)
          1
          (bridge_rendezvous (leg 1) (leg 2) (new_manager {sha = toy_sha} {Channel = ℕ})))).0
unfolding new_manager lookup
Reach-IsSane_example =
    Reach-IsSane toy_sha toy_cipher toy_ntor ℕ _ story (((tt, (refl, refl)), tt), tt)

abbrev waiting : CircuitManager toy_sha ℕ
waiting = record client_mgr {
  pending_rendezvous =
      (8 ∷ [], record { rp_cid = 9; client_sk = 2 ∷ []; client_x_pub = []; hs_b_pub = [] }) ∷ [];
}

-- The reply does not verify, and the cookie is used up all the same.
complete_rendezvous-once_example :
    lookup
      (8 ∷ [])
      (complete_rendezvous toy_ntor (8 ∷ []) (1 ∷ []) (2 ∷ []) waiting).0.pending_rendezvous
    ≡ none
complete_rendezvous-once_example =
    complete_rendezvous-once waiting toy_ntor (8 ∷ []) (1 ∷ []) (2 ∷ [])

complete_rendezvous-agrees_example :
    let x_pub = toy_ntor.public_key (2 ∷ []) in
    let b_pub = toy_ntor.public_key (5 ∷ []) in
    let (keys, y_pub, auth) = hs_finalize toy_ntor (3 ∷ []) (5 ∷ []) b_pub x_pub in
    let pending : PendingRendezvous = record {
      rp_cid = 9;
      client_sk = 2 ∷ [];
      client_x_pub = x_pub;
      hs_b_pub = b_pub;
    } in
    let (m', result) =
      complete_rendezvous toy_ntor
        (8 ∷ [])
        y_pub
        auth
        (register_pending_rendezvous (8 ∷ []) pending client_mgr) in
    (result ≡ ok 9)
    × (lookup 9 m'.e2e_keys ≡ some keys)
    × (lookup 9 m'.origins
        ≡ some (record two_hops { e2e = some (from_e2e_keys toy_sha keys true) }))
    × (lookup (8 ∷ []) m'.pending_rendezvous ≡ none)
unfolding lookup
complete_rendezvous-agrees_example =
    complete_rendezvous-agrees client_mgr toy_ntor toy_ntor-IsSound (8 ∷ []) (2 ∷ []) (3 ∷ [])
      (5 ∷ []) 9 two_hops refl
