-- ===== src/CircuitMgr/Forward/Unbridged.antt =====
-- The cells of a relay's circuits leave the rendezvous bridges alone; only DESTROY ends one.
use phinet.Prelude.{ℕ, ◌≡◌, List, arith}
use phinet.Prelude.Eq.{nat_eq, list_eq, pair_eq}
use phinet.Ntor.{Primitives}
use phinet.Circuit.Cell.{Cell, CircuitId}
use phinet.Circuit.Relay.{Sha256}
use phinet.Circuit.Hop.{ChaCha20}
use phinet.CircuitMgr.{PeerId, Leg, CircuitManager}
use phinet.CircuitMgr.Forward.{
  put_relay, begin_extend, handle_create, across_bridge, pass_on, handle_forward_relay,
  handle_created_from_next, handle_backward_relay,
}
use phinet.CircuitMgr.Ending.{forget_next, drop_relay}

module _ {sha : Sha256} {Channel : Type 0} (m : CircuitManager sha Channel) where
  pub drop_relay-bridges :
      (key : Leg) → (drop_relay key m).rendezvous_bridges ≡ m.rendezvous_bridges
  unfolding drop_relay forget_next
  drop_relay-bridges key = unfold drop_relay forget_next in ground arith

  pub begin_extend-bridges :
      (from_peer next_peer : PeerId) (prev_cid next_cid : CircuitId) (extend_data : List ℕ)
      → (begin_extend from_peer prev_cid next_peer next_cid extend_data m).0.rendezvous_bridges
        ≡ m.rendezvous_bridges
  unfolding begin_extend put_relay
  begin_extend-bridges from_peer next_peer prev_cid next_cid extend_data =
      unfold begin_extend put_relay in ground arith

  pub handle_create-bridges :
      (prim : Primitives) (y_priv : List ℕ) (now : ℕ) (from_peer : PeerId) (cid : CircuitId)
      (my_id my_b_pub my_b_sec client_msg : List ℕ)
      → (handle_create sha prim y_priv now from_peer cid my_id my_b_pub my_b_sec client_msg
          m).0.rendezvous_bridges
        ≡ m.rendezvous_bridges
  unfolding handle_create put_relay
  handle_create-bridges prim y_priv now from_peer cid my_id my_b_pub my_b_sec client_msg =
      unfold handle_create put_relay in ground arith

  module _ (cipher : ChaCha20) where
    pub handle_forward_relay-bridges :
        (now : ℕ) (from_peer : PeerId) (cid : CircuitId) (cell : Cell)
        → (handle_forward_relay cipher now from_peer cid cell m).0.rendezvous_bridges
          ≡ m.rendezvous_bridges
    unfolding handle_forward_relay pass_on across_bridge put_relay
    handle_forward_relay-bridges now from_peer cid cell =
        unfold handle_forward_relay pass_on across_bridge put_relay in ground arith

    pub handle_created_from_next-bridges :
        (from_next : PeerId) (next_cid : CircuitId) (reply : List ℕ)
        → (handle_created_from_next cipher from_next next_cid reply m).0.rendezvous_bridges
          ≡ m.rendezvous_bridges
    unfolding handle_created_from_next put_relay
    handle_created_from_next-bridges from_next next_cid reply =
        unfold handle_created_from_next put_relay in ground arith

    pub handle_backward_relay-bridges :
        (from_next : PeerId) (next_cid : CircuitId) (cell : Cell)
        → (handle_backward_relay cipher from_next next_cid cell m).0.rendezvous_bridges
          ≡ m.rendezvous_bridges
    unfolding handle_backward_relay put_relay
    handle_backward_relay-bridges from_next next_cid cell =
        unfold handle_backward_relay put_relay in ground arith
