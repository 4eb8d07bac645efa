-- ===== src/Circuit/Relay.antt =====
-- phinet-core/src/circuit.rs, `RelayCommand` and `RelayCell`. SHA-256 is the sha2 crate's, a
-- parameter. `to_payload` panics on more than 496 bytes of data, which `new` and `from_payload`
-- both refuse; `from_payload` takes 507 bytes, so its last clause is never met by the code.
pub mod RoundTrip
pub mod Digest
use phinet.Prelude.{
  ℕ, ◌-◌, ◌%◌, ◌<◌, ◌≤◌, Bool, false, List, [], ◌∷◌, ◌++◌, leb, nat_eqb, length, take, All,
  if◌then◌else◌,
}
use phinet.Prelude.Result.{Result, ok, err, crypto, ◌>>=◌, ◌>>◌, guard}
use phinet.Prelude.Word.{be16, be32, from_be16, from_be32, u16_mod, u32_mod, IsByte}
use phinet.Circuit.Cell.{cell_payload, padded}

abbrev pub relay_header : ℕ
relay_header = 11

abbrev pub relay_data_max : ℕ
relay_data_max = cell_payload - relay_header

pub data RelayCommand : Type 0 where
  begin data_cmd end connected send_me extend2 extended2 truncate truncated : RelayCommand
  drop_cmd com_inject establish_intro establish_rendezvous introduce1 introduce2 : RelayCommand
  rendezvous1 rendezvous2 intro_established rendezvous_established introduce_ack : RelayCommand

-- `command as u8`
unfoldable pub relay_command_byte : RelayCommand → ℕ
relay_command_byte begin = 1
relay_command_byte data_cmd = 2
relay_command_byte end = 3
relay_command_byte connected = 4
relay_command_byte send_me = 5
relay_command_byte extend2 = 6
relay_command_byte extended2 = 7
relay_command_byte truncate = 8
relay_command_byte truncated = 9
relay_command_byte drop_cmd = 10
relay_command_byte com_inject = 11
relay_command_byte establish_intro = 32
relay_command_byte establish_rendezvous = 33
relay_command_byte introduce1 = 34
relay_command_byte introduce2 = 35
relay_command_byte rendezvous1 = 36
relay_command_byte rendezvous2 = 37
relay_command_byte intro_established = 38
relay_command_byte rendezvous_established = 39
relay_command_byte introduce_ack = 40

-- The arms of the `match` from 32 on.
unfoldable pub hidden_service_from_byte : ℕ → Result RelayCommand
hidden_service_from_byte b =
    if nat_eqb b 32
    then ok establish_intro
    else if nat_eqb b 33
    then ok establish_rendezvous
    else if nat_eqb b 34
    then ok introduce1
    else if nat_eqb b 35
    then ok introduce2
    else if nat_eqb b 36
    then ok rendezvous1
    else if nat_eqb b 37
    then ok rendezvous2
    else if nat_eqb b 38
    then ok intro_established
    else if nat_eqb b 39
    then ok rendezvous_established
    else if nat_eqb b 40
    then ok introduce_ack
    else err crypto

unfoldable pub relay_command_from_byte : ℕ → Result RelayCommand
relay_command_from_byte b =
    if nat_eqb b 1
    then ok begin
    else if nat_eqb b 2
    then ok data_cmd
    else if nat_eqb b 3
    then ok end
    else if nat_eqb b 4
    then ok connected
    else if nat_eqb b 5
    then ok send_me
    else if nat_eqb b 6
    then ok extend2
    else if nat_eqb b 7
    then ok extended2
    else if nat_eqb b 8
    then ok truncate
    else if nat_eqb b 9
    then ok truncated
    else if nat_eqb b 10
    then ok drop_cmd
    else if nat_eqb b 11
    then ok com_inject
    else hidden_service_from_byte b

pub record RelayCell : Type 0 where
  pub command : RelayCommand
  pub recognized : ℕ  -- u16
  pub stream_id : ℕ  -- u16
  pub digest : ℕ  -- u32
  pub bytes : List ℕ  -- the field `data`

pub new : RelayCommand → ℕ → List ℕ → Result RelayCell
new cmd stream_id bytes =
    if leb (length bytes) relay_data_max
    then ok
        (record { command = cmd; recognized = 0; stream_id = stream_id; digest = 0; bytes = bytes })
    else err crypto

unfoldable pub to_payload : RelayCell → List ℕ
to_payload r =
    relay_command_byte r.command
    ∷ (be16 r.recognized
        ++ (be16 r.stream_id
            ++ (be32 r.digest
                ++ (be16 (length r.bytes % u16_mod) ++ padded relay_data_max r.bytes))))

unfoldable pub from_payload : List ℕ → Result RelayCell
from_payload (c ∷ r1 ∷ r2 ∷ s1 ∷ s2 ∷ d1 ∷ d2 ∷ d3 ∷ d4 ∷ l1 ∷ l2 ∷ rest) = do
  command ← relay_command_from_byte c
  let len = from_be16 l1 l2
  guard (leb len relay_data_max) crypto
  ok (record {
    command = command;
    recognized = from_be16 r1 r2;
    stream_id = from_be16 s1 s2;
    digest = from_be32 d1 d2 d3 d4;
    bytes = take len rest;
  })
from_payload _ = err crypto

-- `tmp[5] = 0; … tmp[8] = 0`
unfoldable pub zero_digest : List ℕ → List ℕ
zero_digest (a ∷ b ∷ c ∷ d ∷ e ∷ _ ∷ _ ∷ _ ∷ _ ∷ rest) = a ∷ b ∷ c ∷ d ∷ e ∷ 0 ∷ 0 ∷ 0 ∷ 0 ∷ rest
zero_digest buf = buf

-- `u32::from_be_bytes(tag[..4])`
unfoldable pub tag32 : List ℕ → ℕ
tag32 (a ∷ b ∷ c ∷ d ∷ _) = from_be32 a b c d
tag32 _ = 0

-- What the sha2 crate gives: a running hash that can be cloned, and 32 bytes at the end.
pub record Sha256 : Type 1 where
  pub State : Type 0
  pub start : State
  pub absorb : State → List ℕ → State
  pub finalize : State → List ℕ

module _ (sha : Sha256) where
  unfoldable pub is_recognized_at : List ℕ → sha.State → RelayCell → Bool
  is_recognized_at payload running r =
      if nat_eqb r.recognized 0
      then nat_eqb (tag32 (sha.finalize (sha.absorb running (zero_digest payload)))) r.digest
      else false

  -- The cell with its digest, and the hash state after it.
  unfoldable pub stamp_digest : sha.State → RelayCell → RelayCell × sha.State
  stamp_digest running r =
      let next = sha.absorb running (zero_digest (to_payload (record r { digest = 0 }))) in
      (record r { digest = tag32 (sha.finalize next) }, next)

-- What fits the fields of the wire format.
pub record IsWire (r : RelayCell) : Type 0 where
  pub recognized_fits : r.recognized < u16_mod
  pub stream_fits : r.stream_id < u16_mod
  pub digest_fits : r.digest < u32_mod
  pub data_fits : length r.bytes ≤ relay_data_max
