-- ===== src/Lib.antt =====
-- Phi-Net: what a client, a relay and a rendezvous point do with the cells of an onion-routed
-- circuit, and the parts of a node around that: how it chooses relays and keeps its guards, the
-- sessions under a circuit, the DHT, and what it refuses.
--
-- A client builds a circuit hop by hop. `start_circuit` sends a CREATE, whose ntor handshake gives
-- both ends the keys of a hop; `extend_circuit` sends an EXTEND2 to the last hop, which passes the
-- handshake on to the next relay. A relay cell then carries a rolling digest and one ChaCha20 layer
-- per hop: each relay peels one, keeps the cell if it recognizes the digest, and passes it on if
-- not. Streams are multiplexed over a circuit, each with its window, and the circuit itself is held
-- by a Vegas congestion controller. At a rendezvous point two circuits are bridged, and client and
-- hidden service add one end-to-end layer inside all others.
--
-- Around the circuits: a path is drawn from the peers of the consensus by bandwidth, around a guard
-- where there is one; built circuits wait in a pool. Each connection is a session of sealed
-- messages, cut into cells of one size. A relay limits what one address may open, an exit refuses
-- private targets, and a hidden service refuses an INTRODUCE that its replay cache has seen. The
-- authorities derive a shared random value from their commitments, and it places each descriptor on
-- a ring of relays. Peers and values are also found through a Kademlia table.
--
-- Which file models which part of phinet-core/src:
--   Prelude, Prelude/*        error.rs (`Error`, `Result`); bytes, words, hash maps as lists
--   Congestion, Congestion/*  congestion.rs (`Vegas`)
--   Stream, Stream/*          stream.rs (`Stream`, `StreamMux`)
--   Circuit/Cell              circuit.rs (`CellCommand`, `Cell`)
--   Circuit/Relay, Relay/*    circuit.rs (`RelayCommand`, `RelayCell`, the rolling digest)
--   Circuit/Hop, Hop/*        circuit.rs (`HopState`, the onion layers)
--   Circuit/Extend, Extend/*  circuit.rs (EXTEND2 and EXTENDED2); Circuit/Ipv4 is the standard
--                             library's address text
--   Ntor, Ntor/*              ntor.rs
--   Rendezvous                rendezvous.rs, from `E2EKeys` on
--   Rendezvous/Wire           rendezvous.rs, the payloads and their encodings
--   Rendezvous/Intro          rendezvous.rs, the sealed INTRODUCE
--   Padding, Padding/*        padding.rs
--   CircuitMgr                circuit_mgr.rs, the types
--   CircuitMgr/Origin         `OriginCircuit` and `RelayCircuit`
--   CircuitMgr/Build          the client's side of `CircuitManager`
--   CircuitMgr/Forward        the relay's side
--   CircuitMgr/Ending         DESTROY and the end of a bridge
--   CircuitMgr/Splice         hidden services, rendezvous, and eviction
--   CircuitMgr/Path           one circuit seen from all its relays, for the theorems on cells
--   PathSelect, PathSelect/*  path_select.rs over `PeerEntry` of directory.rs
--   Guards, Guards/*          guards.rs
--   GuardSample, GuardSample/*    guard_sample.rs
--   CircuitPool, CircuitPool/*    circuit_pool.rs
--   Session, Session/*        session.rs, with the AEAD and HKDF wrappers of crypto.rs
--   Wire, Wire/*              wire.rs, the framing of messages
--   Dos, Dos/*                dos.rs
--   ExitPolicy, ExitPolicy/*  exit_policy.rs; ExitPolicy/Ipv6 is the standard library's parser of
--                             addresses
--   Replay, Replay/*          replay.rs
--   SharedRandom, SharedRandom/*  shared_random.rs
--   HsdirRing, HsdirRing/*    hsdir_ring.rs
--   Dht, Dht/*                dht.rs
--   Samples, */Tests          concrete primitives, and runs
--
-- How the code becomes a model. A method that changes `self` takes the state and returns it, also
-- where it fails. A `u32`, `u64` or `u16` is a number with its wrap or saturation written out; a
-- counter whose type is wider than it can come to in a run is a plain number. `Instant` and
-- `Duration` are nanoseconds, or seconds where the code reads only those; the clock is an argument,
-- and so is what the code draws at random. The 64-bit floating-point tokens of dos.rs are multiples
-- of 2^-83, and are rounded as there. A call on a file is a Boolean: whether it succeeds. Arrays
-- are lists of bytes. A hash map is an association list, whose order stands for the iteration
-- order. Loops are recursion on a list or on the number of turns, so that nothing needs fuel.
--
-- X25519, HKDF, HMAC, SHA-256, ChaCha20, ChaCha20-Poly1305, hex and serde are crates: they are
-- parameters. What the theorems use of them is that X25519 commutes, that keys, tags and hashes
-- have their sizes and are bytes, that a keystream applied twice gives the data back, that an AEAD
-- opens what it sealed, and that hex tells byte strings apart. No theorem says that a tag or a
-- digest cannot be forged: where a relay could mistake a cell for its own, that it does not is a
-- hypothesis.
--
-- Not modelled: sockets, locks and async tasks (each method is one step); the files that the guards
-- and the replay cache keep, beyond whether a call succeeds and which lines it leaves; directory.rs
-- beyond `PeerEntry`, the fetching of a consensus, the client's side of hidden services, the board,
-- proof of work, vanguards, path bias, scheduling, the kinds of messages of wire.rs, transports,
-- storage, and the programs on top.

pub mod Circuit
pub mod CircuitMgr
pub mod CircuitPool
pub mod Congestion
pub mod Dht
pub mod Dos
pub mod ExitPolicy
pub mod GuardSample
pub mod Guards
pub mod HsdirRing
pub mod Ntor
pub mod Padding
pub mod PathSelect
pub mod Prelude
pub mod Rendezvous
pub mod Replay
pub mod Samples
pub mod Session
pub mod SharedRandom
pub mod Stream
pub mod Wire
