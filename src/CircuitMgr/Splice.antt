-- ===== src/CircuitMgr/Splice.antt =====
-- phinet-core/src/circuit_mgr.rs, what the manager keeps for hidden services (introduction points,
-- the rendezvous point's cookies and bridges, the client's pending rendezvous), and the eviction
-- of idle circuits.
pub mod Bridges
pub mod Reach
pub mod Complete
use phinet.Prelude.{
  ℕ, ◌-◌, Bool, true, not, List, [], ◌∷◌, Option, none, some, ltb, length, map, if◌then◌else◌,
}
use phinet.Prelude.Eq.{◌==◌, nat_eq, list_eq, pair_eq}
use phinet.Prelude.Map.{Map, lookup, insert, remove, retain, update}
use phinet.Prelude.Result.{Result, ok, err, handshake}
use phinet.Ntor.{Primitives}
use phinet.Rendezvous.{E2eKeys, client_finalize}
use phinet.Circuit.Cell.{CircuitId, circuit_idle_timeout}
use phinet.Circuit.Relay.{Sha256}
use phinet.Circuit.Hop.{from_e2e_keys}
use phinet.CircuitMgr.{PeerId, Leg, CircuitManager, PendingRendezvous}
use phinet.CircuitMgr.Ending.{unbridge_rendezvous, drop_relay}

-- `iter().find(..)`: the first in the map's order.
find_key : List ℕ → List (Leg × List ℕ) → Option Leg
find_key auth_key [] = none
find_key auth_key ((leg, k) ∷ rest) = if k == auth_key then some leg else find_key auth_key rest

module _ {sha : Sha256} {Channel : Type 0} where
  pub register_intro_circuit :
      CircuitId → List ℕ → CircuitManager sha Channel → CircuitManager sha Channel
  register_intro_circuit cid auth_key m = record m {
    intro_circuits = insert auth_key cid m.intro_circuits;
  }

  pub register_intro_relay :
      PeerId → CircuitId → List ℕ → CircuitManager sha Channel → CircuitManager sha Channel
  register_intro_relay from_peer cid auth_key m = record m {
    intro_registered = insert (from_peer, cid) auth_key m.intro_registered;
  }

  pub find_intro_target : List ℕ → CircuitManager sha Channel → Option Leg
  unfolding find_key
  find_intro_target auth_key m = find_key auth_key m.intro_registered

  pub register_rendezvous_cookie :
      List ℕ → PeerId → CircuitId → CircuitManager sha Channel → CircuitManager sha Channel
  register_rendezvous_cookie cookie peer cid m = record m {
    rendezvous_cookies = insert cookie (peer, cid) m.rendezvous_cookies;
  }

  pub consume_rendezvous_cookie :
      List ℕ → CircuitManager sha Channel → CircuitManager sha Channel × Option Leg
  consume_rendezvous_cookie cookie m = (
    record m { rendezvous_cookies = remove cookie m.rendezvous_cookies },
    lookup cookie m.rendezvous_cookies,
  )

  unfoldable pub bridge_rendezvous :
      Leg → Leg → CircuitManager sha Channel → CircuitManager sha Channel
  bridge_rendezvous client_leg hs_leg m = record m {
    rendezvous_bridges = insert hs_leg client_leg (insert client_leg hs_leg m.rendezvous_bridges);
  }

  unfoldable pub bridge_partner : Leg → CircuitManager sha Channel → Option Leg
  bridge_partner leg m = lookup leg m.rendezvous_bridges

  pub register_pending_rendezvous :
      List ℕ → PendingRendezvous → CircuitManager sha Channel → CircuitManager sha Channel
  register_pending_rendezvous cookie pending m = record m {
    pending_rendezvous = insert cookie pending m.pending_rendezvous;
  }

  -- The keys in the map, and the innermost layer on the circuit where it is still there.
  install_e2e : CircuitId → E2eKeys → CircuitManager sha Channel → CircuitManager sha Channel
  install_e2e cid keys m = record m {
    origins = update cid (λ c. record c { e2e = some (from_e2e_keys sha keys true) }) m.origins;
    e2e_keys = insert cid keys m.e2e_keys;
  }

  pub complete_rendezvous :
      Primitives
      → List ℕ
      → List ℕ
      → List ℕ
      → CircuitManager sha Channel
      → CircuitManager sha Channel × Result CircuitId
  unfolding install_e2e
  complete_rendezvous prim cookie server_y auth m = elim (lookup cookie m.pending_rendezvous) [
    | none ↦ (m, err handshake)
    | some p ↦
        let m' = record m { pending_rendezvous = remove cookie m.pending_rendezvous } in
        elim (client_finalize prim p.client_sk p.client_x_pub p.hs_b_pub server_y auth) [
          | err e ↦ (m', err e)
          | ok keys ↦ (install_e2e p.rp_cid keys m', ok p.rp_cid)
        ]
  ]

  -- One turn of the loop over the dead origin circuits.
  evict_origin : CircuitId → CircuitManager sha Channel → CircuitManager sha Channel
  evict_origin cid m = record m {
    origins = remove cid m.origins;
    intro_circuits = retain (λ key c. not (c == cid)) m.intro_circuits;
    pending_rendezvous = retain (λ key p. not (p.rp_cid == cid)) m.pending_rendezvous;
    e2e_keys = remove cid m.e2e_keys;
  }

  -- One turn of the loop over the dead relay circuits.
  evict_relay : Leg → CircuitManager sha Channel → CircuitManager sha Channel
  evict_relay key m =
      let m' = drop_relay key m in
      (unbridge_rendezvous key (record m' {
        intro_registered = retain (λ leg k. not (leg == key)) m'.intro_registered;
        rendezvous_cookies = retain (λ k leg. not (leg == key)) m'.rendezvous_cookies;
      })).0

  evict_origins : List CircuitId → CircuitManager sha Channel → CircuitManager sha Channel
  unfolding evict_origin
  evict_origins [] m = m
  evict_origins (cid ∷ cids) m = evict_origins cids (evict_origin cid m)

  evict_relays : List Leg → CircuitManager sha Channel → CircuitManager sha Channel
  unfolding evict_relay
  evict_relays [] m = m
  evict_relays (key ∷ keys) m = evict_relays keys (evict_relay key m)

-- The keys whose entry is past the timeout.
pub idle_keys : {K V : Type 0} → (V → ℕ) → ℕ → List (K × V) → List K
idle_keys seen now [] = []
idle_keys seen now ((k, v) ∷ rest) =
    let keys = idle_keys seen now rest in
    if ltb circuit_idle_timeout (now - seen v) then k ∷ keys else keys

pub evict_idle_circuits :
    {sha : Sha256} {Channel : Type 0}
    → ℕ
    → CircuitManager sha Channel
    → CircuitManager sha Channel × ℕ × ℕ
unfolding evict_origins evict_relays
evict_idle_circuits now m =
    let dead_origins = idle_keys (λ c. c.last_activity) now m.origins in
    let m' = evict_origins dead_origins m in
    let dead_relays = idle_keys (λ r. r.last_activity) now m'.relays in
    (evict_relays dead_relays m', length dead_origins, length dead_relays)
