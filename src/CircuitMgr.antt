-- ===== src/CircuitMgr.antt =====
-- phinet-core/src/circuit_mgr.rs, the types. A peer or an auth key is 32 bytes, a cookie 20. The
-- clock's time is an argument of the methods that read it, and so is a secret that they draw. A
-- method returns its state also where it fails, since some change it before. `Channel` is the
-- sender's half of a stream's queue.
pub mod Origin
pub mod Build
pub mod Ending
pub mod Forward
pub mod Path
pub mod Splice
mod Tests
use phinet.Prelude.{ℕ, ◌*◌, ◌+◌, ◌%◌, Bool, false, List, [], Option, none}
use phinet.Prelude.Map.{Map}
use phinet.Prelude.Word.{u32_mod}
use phinet.Ntor.{ClientHandshake}
use phinet.Rendezvous.{E2eKeys}
use phinet.Padding.{PaddingScheduler, no_padding}
use phinet.Congestion.{Vegas}
use phinet.Congestion
use phinet.Stream.Mux.{StreamMux}
use phinet.Stream.Mux
use phinet.Circuit.Cell.{CircuitId, Cell}
use phinet.Circuit.Relay.{RelayCell, Sha256}
use phinet.Circuit.Hop.{HopState}

abbrev pub PeerId : Type 0
PeerId = List ℕ

-- One leg: a connection and the circuit id on it.
abbrev pub Leg : Type 0
Leg = PeerId × CircuitId

pub record OriginCircuit (sha : Sha256) (Channel : Type 0) : Type 0 where
  pub id : CircuitId
  pub peer : PeerId
  pub hops : List (HopState sha)
  pub pending : Option ClientHandshake
  pub relay_early_used : ℕ  -- u32
  pub streams : StreamMux Channel
  pub cc : Vegas
  pub circ_delivered_since_sendme : ℕ
  pub last_activity : ℕ
  pub padding_scheduler : PaddingScheduler
  pub e2e : Option (HopState sha)

pub record RelayCircuit (sha : Sha256) (Channel : Type 0) : Type 0 where
  pub prev_peer : PeerId
  pub prev_circ_id : CircuitId
  pub next_peer : Option PeerId
  pub next_circ_id : Option CircuitId
  pub hop : HopState sha
  pub awaiting_extended : Bool
  pub exit_streams : StreamMux Channel
  pub cc : Vegas
  pub circ_delivered_since_sendme : ℕ
  pub last_activity : ℕ

pub record PendingRendezvous : Type 0 where
  pub rp_cid : CircuitId
  pub client_sk : List ℕ
  pub client_x_pub : List ℕ
  pub hs_b_pub : List ℕ

pub record CircuitManager (sha : Sha256) (Channel : Type 0) : Type 0 where
  pub origins : Map CircuitId (OriginCircuit sha Channel)
  pub relays : Map Leg (RelayCircuit sha Channel)
  pub relay_by_next : Map Leg Leg
  pub next_origin_id : ℕ  -- u32
  pub intro_circuits : Map (List ℕ) CircuitId
  pub intro_registered : Map Leg (List ℕ)
  pub rendezvous_cookies : Map (List ℕ) Leg
  pub rendezvous_bridges : Map Leg Leg
  pub pending_rendezvous : Map (List ℕ) PendingRendezvous
  pub e2e_keys : Map CircuitId E2eKeys

-- Return value of `handle_forward_relay`.
pub data RelayAction : Type 0 where
  handle : RelayCell → RelayAction
  forward : PeerId → List ℕ → RelayAction
  drop_it : RelayAction

abbrev pub first_origin_id : ℕ
first_origin_id = 2147483648

module _ {sha : Sha256} {Channel : Type 0} where
  unfoldable pub new_circuit : CircuitId → PeerId → ℕ → OriginCircuit sha Channel
  new_circuit id peer now = record {
    id = id;
    peer = peer;
    hops = [];
    pending = none;
    relay_early_used = 0;
    streams = Mux.new;
    cc = Congestion.new;
    circ_delivered_since_sendme = 0;
    last_activity = now;
    padding_scheduler = no_padding;
    e2e = none;
  }

  unfoldable pub new_manager : CircuitManager sha Channel
  new_manager = record {
    origins = [];
    relays = [];
    relay_by_next = [];
    next_origin_id = first_origin_id;
    intro_circuits = [];
    intro_registered = [];
    rendezvous_cookies = [];
    rendezvous_bridges = [];
    pending_rendezvous = [];
    e2e_keys = [];
  }

  -- The id, and the counter after it.
  unfoldable pub fresh_origin_id :
      CircuitManager sha Channel → CircuitManager sha Channel × CircuitId
  fresh_origin_id m =
      (record m { next_origin_id = (m.next_origin_id + 1) % u32_mod }, m.next_origin_id)
