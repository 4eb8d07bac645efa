-- ===== src/Circuit/Cell.antt =====
-- phinet-core/src/circuit.rs, `CellCommand` and `Cell`. An array `[u8; n]` is a list of bytes; its
-- length is a hypothesis where it matters. `from_bytes` takes 512 bytes, so its last clause is
-- never met by the code.
use phinet.Prelude.{
  ℕ, ◌-◌, ◌*◌, ◌<◌, ◌≤◌, ◌≡◌, refl, Bool, not, List, [], ◌∷◌, ◌++◌, leb, nat_eqb, length, replicate,
  All, if◌then◌else◌, length-append, length-replicate, arith, take, take-append_length, le→leb,
}
use phinet.Prelude.Result.{Result, ok, err, crypto, ◌>>=◌, >>=-eq-ok}
use phinet.Prelude.Word.{le32, from_le32, u32_mod, IsByte}

abbrev pub cell_size : ℕ
cell_size = 512

abbrev cell_header : ℕ
cell_header = 5

abbrev pub cell_payload : ℕ
cell_payload = cell_size - cell_header

abbrev pub max_hops : ℕ
max_hops = 5

abbrev pub max_relay_early : ℕ
max_relay_early = max_hops

-- One hour, in nanoseconds.
abbrev pub circuit_idle_timeout : ℕ
circuit_idle_timeout = 3600 * 1000000000

pub data CellCommand : Type 0 where
  padding create created relay destroy relay_early versions net_info : CellCommand

-- `command as u8`
unfoldable pub cell_command_byte : CellCommand → ℕ
cell_command_byte padding = 0
cell_command_byte create = 1
cell_command_byte created = 2
cell_command_byte relay = 3
cell_command_byte destroy = 4
cell_command_byte relay_early = 5
cell_command_byte versions = 6
cell_command_byte net_info = 7

unfoldable pub cell_command_from_byte : ℕ → Result CellCommand
cell_command_from_byte b =
    if nat_eqb b 0
    then ok padding
    else if nat_eqb b 1
    then ok create
    else if nat_eqb b 2
    then ok created
    else if nat_eqb b 3
    then ok relay
    else if nat_eqb b 4
    then ok destroy
    else if nat_eqb b 5
    then ok relay_early
    else if nat_eqb b 6
    then ok versions
    else if nat_eqb b 7
    then ok net_info
    else err crypto

abbrev pub CircuitId : Type 0
CircuitId = ℕ

abbrev pub is_valid : CircuitId → Bool
is_valid id = not (nat_eqb id 0)

pub record Cell : Type 0 where
  pub circ_id : CircuitId
  pub command : CellCommand
  pub payload : List ℕ

-- An array of `n` zeros with `bytes` copied over its start.
abbrev pub padded : ℕ → List ℕ → List ℕ
padded n bytes = bytes ++ replicate (n - length bytes) 0

unfoldable pub with_payload : CircuitId → CellCommand → List ℕ → Result Cell
with_payload circ_id command bytes =
    if leb (length bytes) cell_payload
    then ok (record { circ_id = circ_id; command = command; payload = padded cell_payload bytes })
    else err crypto

unfoldable pub to_bytes : Cell → List ℕ
to_bytes c = le32 c.circ_id ++ cell_command_byte c.command ∷ c.payload

unfoldable pub from_bytes : List ℕ → Result Cell
from_bytes (a ∷ b ∷ c ∷ d ∷ e ∷ rest) = do
  command ← cell_command_from_byte e
  ok (record { circ_id = from_le32 a b c d; command = command; payload = rest })
from_bytes _ = err crypto

pub length-padded : (n : ℕ) (bytes : List ℕ) → length bytes ≤ n → length (padded n bytes) ≡ n
length-padded n bytes h = omega (
  arith,
  length-append bytes (replicate (n - length bytes) 0),
  length-replicate {A = ℕ} (n - length bytes) 0,
)

cell_command-round_trip : (c : CellCommand) → cell_command_from_byte (cell_command_byte c) ≡ ok c
unfolding cell_command_byte cell_command_from_byte
cell_command-round_trip c = ground arith

-- A cell with a 32-bit circuit id survives the trip through its bytes.
pub from_bytes-to_bytes : (c : Cell) → c.circ_id < u32_mod → from_bytes (to_bytes c) ≡ ok c
unfolding from_bytes to_bytes
from_bytes-to_bytes c h = ground (arith, cell_command-round_trip c.command)

-- And it takes exactly one cell's worth of them.
pub length-to_bytes : (c : Cell) → length c.payload ≡ cell_payload → length (to_bytes c) ≡ cell_size
unfolding to_bytes
length-to_bytes c h = omega arith

cell_command_byte_of :
    (b : ℕ) (c : CellCommand) → cell_command_from_byte b ≡ ok c → cell_command_byte c ≡ b
unfolding cell_command_byte cell_command_from_byte
cell_command_byte_of b c h = ground arith

-- A buffer of bytes that parses is the encoding of the cell: nothing of it is dropped.
pub to_bytes-from_bytes :
    (buf : List ℕ) (c : Cell) → All IsByte buf → from_bytes buf ≡ ok c → to_bytes c ≡ buf
unfolding from_bytes to_bytes
to_bytes-from_bytes (a ∷ b ∷ d ∷ e ∷ f ∷ rest) c h p =
    let (k, q, r) = >>=-eq-ok (cell_command_from_byte f) _ p in
    ground (arith, q, r, cell_command_byte_of f k q)
to_bytes-from_bytes [] c h p = cc
to_bytes-from_bytes (_ ∷ []) c h p = cc
to_bytes-from_bytes (_ ∷ _ ∷ []) c h p = cc
to_bytes-from_bytes (_ ∷ _ ∷ _ ∷ []) c h p = cc
to_bytes-from_bytes (_ ∷ _ ∷ _ ∷ _ ∷ []) c h p = cc

-- What `with_payload` makes of a message that fits comes back whole from the cell's bytes.
pub with_payload-carries :
    (circ_id : CircuitId) (command : CellCommand) (bytes : List ℕ)
    → circ_id < u32_mod
    → length bytes ≤ cell_payload
    → (cell : Cell) × (with_payload circ_id command bytes ≡ ok cell)
      × (from_bytes (to_bytes cell) ≡ ok cell)
      × (cell.circ_id ≡ circ_id)
      × (cell.command ≡ command)
      × (take (length bytes) cell.payload ≡ bytes)
unfolding with_payload
with_payload-carries circ_id command bytes fits_id fits =
    let cell : Cell = record {
      circ_id = circ_id;
      command = command;
      payload = padded cell_payload bytes;
    } in
    (
      cell,
      rw (le→leb (length bytes) cell_payload fits) refl,
      from_bytes-to_bytes cell fits_id,
      refl,
      refl,
      take-append_length (length bytes) bytes (replicate (cell_payload - length bytes) 0) refl,
    )
