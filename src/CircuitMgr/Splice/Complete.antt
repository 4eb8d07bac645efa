-- ===== src/CircuitMgr/Splice/Complete.antt =====
-- The client's end of a rendezvous: the service's reply installs the keys that the service holds,
-- and a cookie serves once.
use phinet.Prelude.{ℕ, ◌≡◌, refl, none, some, List, true, Option-cases, inl, inr}
use phinet.Prelude.Eq.{nat_eq, list_eq, beq_refl}
use phinet.Prelude.Map.{lookup, lookup-insert_same, lookup-remove_same, lookup-update}
use phinet.Prelude.Result.{ok, Result-cases}
use phinet.Ntor.{Primitives}
use phinet.Ntor.Agreement.{IsSound}
use phinet.Rendezvous.{hs_finalize, client_finalize}
use phinet.Rendezvous.Agreement.{client_finalize-hs_finalize}
use phinet.Circuit.Cell.{CircuitId}
use phinet.Circuit.Relay.{Sha256}
use phinet.Circuit.Hop.{from_e2e_keys}
use phinet.CircuitMgr.{OriginCircuit, CircuitManager, PendingRendezvous}
use phinet.CircuitMgr.Splice.{register_pending_rendezvous, complete_rendezvous, install_e2e}

module _ {sha : Sha256} {Channel : Type 0} (m : CircuitManager sha Channel) where
  -- Whatever the reply, and whether it is accepted or refused, the cookie is gone afterwards.
  pub complete_rendezvous-once :
      (prim : Primitives) (cookie y auth : List ℕ)
      → lookup cookie (complete_rendezvous prim cookie y auth m).0.pending_rendezvous ≡ none
  unfolding complete_rendezvous install_e2e
  complete_rendezvous-once prim cookie y auth =
      elim (Option-cases (lookup cookie m.pending_rendezvous)) [
        | inl absent ↦ rw (absent, complete_rendezvous) absent
        | inr (p, waits) ↦
            elim (Result-cases
              (client_finalize prim p.client_sk p.client_x_pub p.hs_b_pub y auth)) [
                | inl (keys, accepted) ↦
                    rw (waits, complete_rendezvous, accepted)
                      (lookup-remove_same cookie m.pending_rendezvous)
                | inr (e, refused) ↦
                    rw (waits, complete_rendezvous, refused)
                      (lookup-remove_same cookie m.pending_rendezvous)
              ]
      ]

  -- The reply that the service finalizes for a registered rendezvous is accepted: the circuit gets
  -- the end-to-end layer of the service's keys in the client's orientation, the keys are kept under
  -- its id, and the cookie is gone.
  pub complete_rendezvous-agrees :
      (prim : Primitives) (sound : IsSound prim) (cookie x_sk y_sk b_sk : List ℕ) (cid : CircuitId)
      (c : OriginCircuit sha Channel)
      → lookup cid m.origins ≡ some c
      → let x_pub = prim.public_key x_sk in
        let b_pub = prim.public_key b_sk in
        let (keys, y_pub, auth) = hs_finalize prim y_sk b_sk b_pub x_pub in
        let pending : PendingRendezvous = record {
          rp_cid = cid;
          client_sk = x_sk;
          client_x_pub = x_pub;
          hs_b_pub = b_pub;
        } in
        let (m', result) =
          complete_rendezvous prim cookie y_pub auth
            (register_pending_rendezvous cookie pending m) in
        (result ≡ ok cid)
        × (lookup cid m'.e2e_keys ≡ some keys)
        × (lookup cid m'.origins ≡ some (record c { e2e = some (from_e2e_keys sha keys true) }))
        × (lookup cookie m'.pending_rendezvous ≡ none)
  unfolding register_pending_rendezvous complete_rendezvous install_e2e
  complete_rendezvous-agrees prim sound cookie x_sk y_sk b_sk cid c here =
      let x_pub = prim.public_key x_sk in
      let b_pub = prim.public_key b_sk in
      let (keys, y_pub, auth) = hs_finalize prim y_sk b_sk b_pub x_pub in
      let pending : PendingRendezvous = record {
        rp_cid = cid;
        client_sk = x_sk;
        client_x_pub = x_pub;
        hs_b_pub = b_pub;
      } in
      let waits = lookup-insert_same cookie pending m.pending_rendezvous in
      rw (waits, complete_rendezvous, client_finalize-hs_finalize prim sound x_sk y_sk b_sk)
        (
          refl,
          lookup-insert_same cid keys m.e2e_keys,
          rw
              (
                lookup-update cid cid (λ c. record c { e2e = some (from_e2e_keys sha keys true) })
                    m.origins,
                beq_refl cid,
                here,
              )
              refl,
          lookup-remove_same cookie _,
        )
