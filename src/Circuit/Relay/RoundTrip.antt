-- ===== src/Circuit/Relay/RoundTrip.antt =====
-- A relay cell and its 507 bytes.
use phinet.Prelude.{
  ℕ, ◌-◌, ◌%◌, ◌/◌, ◌≡◌, refl, List, ◌∷◌, length, replicate, All, take-append_length, length-take,
  arith,
}
use phinet.Prelude.Result.{ok, >>=-eq-ok}
use phinet.Prelude.Word.{from_be16, u16_mod, IsByte}
use phinet.Circuit.Cell.{cell_payload, length-padded}
use phinet.Circuit.Relay.{
  RelayCell, RelayCommand, relay_command_byte, relay_command_from_byte, hidden_service_from_byte,
  to_payload, from_payload, IsWire, relay_data_max,
}

relay_command-round_trip :
    (c : RelayCommand) → relay_command_from_byte (relay_command_byte c) ≡ ok c
unfolding relay_command_byte relay_command_from_byte hidden_service_from_byte
relay_command-round_trip c = ground arith

-- Every relay cell that fits the wire format is read back from its payload, padding and all.
pub from_payload-to_payload : (r : RelayCell) → IsWire r → from_payload (to_payload r) ≡ ok r
unfolding from_payload to_payload
from_payload-to_payload r w =
    let len = length r.bytes in
    let same : from_be16 (len % u16_mod / 256 % 256) (len % u16_mod % 256) ≡ len =
      omega (arith, w) in
    let kept = take-append_length len r.bytes (replicate (relay_data_max - len) 0) refl in
    rw (relay_command-round_trip r.command, same, kept) (ground (arith, w))

pub length-to_payload : (r : RelayCell) → IsWire r → length (to_payload r) ≡ cell_payload
unfolding to_payload
length-to_payload r w = omega (arith, w, length-padded relay_data_max r.bytes w.data_fits)

-- Whatever parses fits the wire format, so a hostile length field never reads past the cell.
pub from_payload-IsWire :
    (buf : List ℕ) (r : RelayCell) → All IsByte buf → from_payload buf ≡ ok r → IsWire r
unfolding from_payload
from_payload-IsWire (c ∷ r1 ∷ r2 ∷ s1 ∷ s2 ∷ d1 ∷ d2 ∷ d3 ∷ d4 ∷ l1 ∷ l2 ∷ rest) r h e =
    let (k, q, p) = >>=-eq-ok (relay_command_from_byte c) _ e in
    ground (arith, p, length-take (from_be16 l1 l2) rest)
from_payload-IsWire _ r h e = cc
