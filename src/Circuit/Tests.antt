-- ===== src/Circuit/Tests.antt =====
-- Cells and payloads at concrete inputs.
use phinet.Prelude.{◌≡◌, refl, replicate, arith}
use phinet.Prelude.Word.{codes}
use phinet.Prelude.Result.{ok}
use phinet.Circuit.Relay.{RelayCell, data_cmd, to_payload, from_payload, IsWire}
use phinet.Circuit.Relay.RoundTrip.{from_payload-to_payload}
use phinet.Circuit.Extend.{LinkSpec}
use phinet.Circuit.Extend.RoundTrip.{IsLink}

abbrev data_cell : RelayCell
data_cell = record {
  command = data_cmd;
  recognized = 0;
  stream_id = 5;
  digest = 77;
  bytes = codes "GET /";
}

data_cell-IsWire : IsWire data_cell
data_cell-IsWire = record {
  recognized_fits = omega arith;
  stream_fits = omega arith;
  digest_fits = omega arith;
  data_fits = omega arith;
}

from_payload-to_payload_example : from_payload (to_payload data_cell) ≡ ok data_cell
from_payload-to_payload_example = from_payload-to_payload data_cell data_cell-IsWire

-- The next relay, named by an address and by a name that is none.
abbrev next_relay : LinkSpec
next_relay = record {
  host = codes "192.0.2.7";
  port = 9001;
  node_id = replicate 32 3;
  static_pub = replicate 32 4;
}

next_relay-IsLink : IsLink next_relay
next_relay-IsLink = record { port_fits = omega arith; id_length = refl; pub_length = refl }
