-- ===== src/CircuitMgr/Splice/Reach.antt =====
-- What a relay's manager can come to, by any sequence of cells and requests, and what always holds
-- there.
use phinet.Prelude.{ℕ, ◌≡◌, List, [], ◌∷◌, none}
use phinet.Prelude.Eq.{nat_eq, list_eq, pair_eq}
use phinet.Prelude.Map.{lookup}
use phinet.Ntor.{Primitives}
use phinet.Circuit.Cell.{Cell, CircuitId}
use phinet.Circuit.Relay.{Sha256}
use phinet.Circuit.Hop.{ChaCha20}
use phinet.CircuitMgr.{PeerId, Leg, CircuitManager, new_manager}
use phinet.CircuitMgr.Forward.{
  begin_extend, handle_create, handle_forward_relay, handle_created_from_next,
  handle_backward_relay,
}
use phinet.CircuitMgr.Ending.{drop_relay, unbridge_rendezvous, destroy}
use phinet.CircuitMgr.Forward.Legs.{Indexed, drop_relay-Indexed}
use phinet.CircuitMgr.Forward.Steps.{
  unbridge-Indexed, begin_extend-Indexed, handle_create-Indexed, handle_forward_relay-Indexed,
  handle_created_from_next-Indexed, handle_backward_relay-Indexed,
}
use phinet.CircuitMgr.Forward.Unbridged.{
  drop_relay-bridges, begin_extend-bridges, handle_create-bridges, handle_forward_relay-bridges,
  handle_created_from_next-bridges, handle_backward_relay-bridges,
}
use phinet.CircuitMgr.Splice.{
  bridge_rendezvous, evict_relay, evict_relays, idle_keys, evict_origin, evict_origins,
  evict_idle_circuits,
}
use phinet.CircuitMgr.Splice.Bridges.{Symmetric, bridge_rendezvous-Symmetric, unbridge-cases}

module _ (sha : Sha256) (cipher : ChaCha20) (prim : Primitives) (Channel : Type 0) where
  -- One request to a relay's manager.
  pub data Step : CircuitManager sha Channel → CircuitManager sha Channel → Type 0 where
    create_cell :
        {m : CircuitManager sha Channel} (y_priv : List ℕ) (now : ℕ) (from_peer : PeerId)
        (cid : CircuitId) (my_id my_b_pub my_b_sec client_msg : List ℕ)
        → Step m
            (handle_create sha prim y_priv now from_peer cid my_id my_b_pub my_b_sec client_msg m).0
    extend_cell :
        {m : CircuitManager sha Channel} (from_peer next_peer : PeerId)
        (prev_cid next_cid : CircuitId) (extend_data : List ℕ)
        → Step m (begin_extend from_peer prev_cid next_peer next_cid extend_data m).0
    forward_cell :
        {m : CircuitManager sha Channel} (now : ℕ) (from_peer : PeerId) (cid : CircuitId)
        (cell : Cell)
        → Step m (handle_forward_relay cipher now from_peer cid cell m).0
    created_cell :
        {m : CircuitManager sha Channel} (from_next : PeerId) (next_cid : CircuitId)
        (reply : List ℕ)
        → Step m (handle_created_from_next cipher from_next next_cid reply m).0
    backward_cell :
        {m : CircuitManager sha Channel} (from_next : PeerId) (next_cid : CircuitId) (cell : Cell)
        → Step m (handle_backward_relay cipher from_next next_cid cell m).0
    destroy_cell :
        {m : CircuitManager sha Channel} (from_peer : PeerId) (cid : CircuitId)
        → Step m (destroy from_peer cid m)
    bridge :
        {m : CircuitManager sha Channel} (client_leg hs_leg : Leg)
        → Step m (bridge_rendezvous client_leg hs_leg m)
    evict : {m : CircuitManager sha Channel} (now : ℕ) → Step m (evict_idle_circuits now m).0

  -- The managers that a run of such requests leads to, from the empty one.
  pub data Reach : CircuitManager sha Channel → Type 0 where
    start : Reach new_manager
    then_step : {m m' : CircuitManager sha Channel} → Reach m → Step m m' → Reach m'

  -- What the manager takes on trust: a CREATE uses an id that is free on its connection, and a
  -- bridge joins legs without one.
  abbrev pub Careful : {m m' : CircuitManager sha Channel} → Step m m' → Type 0
  Careful (create_cell {m = m} y now p cid i b s msg) = lookup (p, cid) m.relays ≡ none
  Careful (bridge {m = m} c h) =
      (lookup c m.rendezvous_bridges ≡ none) × (lookup h m.rendezvous_bridges ≡ none)
  Careful _ = Unit {0}

  abbrev pub AllCareful : {m : CircuitManager sha Channel} → Reach m → Type 0
  AllCareful start = Unit {0}
  AllCareful (then_step r s) = AllCareful r × Careful s

-- What holds in a manager: the indices agree, and every bridge goes both ways.
pub record IsSane {sha : Sha256} {Channel : Type 0} (m : CircuitManager sha Channel) : Type 0 where
  pub indexed : Indexed m
  pub bridges : Symmetric m.rendezvous_bridges

module _ {sha : Sha256} {Channel : Type 0} where
  drop_relay-IsSane :
      (m : CircuitManager sha Channel) (key : Leg) → IsSane m → IsSane (drop_relay key m)
  drop_relay-IsSane m key sane = record {
    indexed = drop_relay-Indexed m key sane.indexed;
    bridges = rw (drop_relay-bridges m key) sane.bridges;
  }

  unbridge-IsSane :
      (m : CircuitManager sha Channel) (leg : Leg) → IsSane m → IsSane (unbridge_rendezvous leg m).0
  unbridge-IsSane m leg sane = record {
    indexed = unbridge-Indexed m leg sane.indexed;
    bridges = (unbridge-cases m leg sane.bridges).0;
  }

  destroy-IsSane :
      (m : CircuitManager sha Channel) (from_peer : PeerId) (cid : CircuitId)
      → IsSane m
      → IsSane (destroy from_peer cid m)
  unfolding destroy
  destroy-IsSane m from_peer cid sane =
      let s = unbridge-IsSane _ (from_peer, cid) (drop_relay-IsSane m (from_peer, cid) sane) in
      record { indexed = s.indexed; bridges = s.bridges }

  evict_relays-IsSane :
      (keys : List Leg) (m : CircuitManager sha Channel) → IsSane m → IsSane (evict_relays keys m)
  unfolding evict_relays evict_relay
  evict_relays-IsSane [] m sane = sane
  evict_relays-IsSane (key ∷ keys) m sane =
      let s = drop_relay-IsSane m key sane in
      evict_relays-IsSane keys _
        (unbridge-IsSane _ key (record { indexed = s.indexed; bridges = s.bridges }))

  evict_origins-IsSane :
      (cids : List CircuitId) (m : CircuitManager sha Channel)
      → IsSane m
      → IsSane (evict_origins cids m)
  unfolding evict_origins evict_origin
  evict_origins-IsSane [] m sane = sane
  evict_origins-IsSane (cid ∷ cids) m sane =
      evict_origins-IsSane cids _ (record { indexed = sane.indexed; bridges = sane.bridges })

  evict-IsSane :
      (m : CircuitManager sha Channel) (now : ℕ) → IsSane m → IsSane (evict_idle_circuits now m).0
  unfolding evict_idle_circuits
  evict-IsSane m now sane =
      let dead_origins = idle_keys (λ c. c.last_activity) now m.origins in
      let m' = evict_origins dead_origins m in
      let dead_relays = idle_keys (λ r. r.last_activity) now m'.relays in
      evict_relays-IsSane dead_relays m' (evict_origins-IsSane dead_origins m sane)

module _ (sha : Sha256) (cipher : ChaCha20) (prim : Primitives) (Channel : Type 0) where
  Step-IsSane :
      (m m' : CircuitManager sha Channel) (s : Step sha cipher prim Channel m m')
      → Careful sha cipher prim Channel s
      → IsSane m
      → IsSane m'
  unfolding bridge_rendezvous
  Step-IsSane m m' (create_cell y now p cid i b s msg) free sane = record {
    indexed = handle_create-Indexed sha prim m y now p cid i b s msg sane.indexed free;
    bridges = rw (handle_create-bridges m prim y now p cid i b s msg) sane.bridges;
  }
  Step-IsSane m m' (extend_cell p np pc nc d) careful sane = record {
    indexed = begin_extend-Indexed m p np pc nc d sane.indexed;
    bridges = rw (begin_extend-bridges m p np pc nc d) sane.bridges;
  }
  Step-IsSane m m' (forward_cell now p cid c) careful sane = record {
    indexed = handle_forward_relay-Indexed cipher m now p cid c sane.indexed;
    bridges = rw (handle_forward_relay-bridges m cipher now p cid c) sane.bridges;
  }
  Step-IsSane m m' (created_cell p cid r) careful sane = record {
    indexed = handle_created_from_next-Indexed cipher m p cid r sane.indexed;
    bridges = rw (handle_created_from_next-bridges m cipher p cid r) sane.bridges;
  }
  Step-IsSane m m' (backward_cell p cid c) careful sane = record {
    indexed = handle_backward_relay-Indexed cipher m p cid c sane.indexed;
    bridges = rw (handle_backward_relay-bridges m cipher p cid c) sane.bridges;
  }
  Step-IsSane m m' (destroy_cell p cid) careful sane = destroy-IsSane m p cid sane
  Step-IsSane m m' (bridge c h) free sane = record {
    indexed = sane.indexed;
    bridges = (bridge_rendezvous-Symmetric m c h sane.bridges free.0 free.1).0;
  }
  Step-IsSane m m' (evict now) careful sane = evict-IsSane m now sane

  -- However cells arrive, a relay's circuit that `relay_by_next` names is there and extends to that
  -- leg, and the bridges are symmetric; as long as no peer reuses a circuit id and no leg is
  -- bridged twice.
  pub Reach-IsSane :
      (m : CircuitManager sha Channel) (r : Reach sha cipher prim Channel m)
      → AllCareful sha cipher prim Channel r
      → IsSane m
  unfolding new_manager lookup
  Reach-IsSane m start careful = record {
    indexed = λ far near e. absurd cc;
    bridges = λ a b e. absurd cc;
  }
  Reach-IsSane m (then_step {m = before} r s) careful =
      Step-IsSane before m s careful.1 (Reach-IsSane before r careful.0)
