-- ===== src/Circuit.antt =====
-- phinet-core/src/circuit.rs: cells, relay cells, the symmetric state of a hop, and the payloads
-- of EXTEND2 and EXTENDED2, one child for each.
pub mod Cell
pub mod Relay
pub mod Hop
pub mod Ipv4
pub mod Extend
mod Tests
