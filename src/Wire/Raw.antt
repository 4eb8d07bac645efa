-- ===== src/Wire/Raw.antt =====
-- Messages before a session: `send_raw` and `recv_raw` of phinet-core/src/wire.rs.
use phinet.Prelude.{
  ℕ, ◌≤◌, ◌≡◌, refl, List, ◌++◌, arith, length, length-append, take-append_length,
  drop-append_length,
}
use phinet.Prelude.Word.{le32}
use phinet.Prelude.Result.{Result, ok}
use phinet.Wire.{max_frame_size, le_length, parse_message, send_raw, recv_raw}

le_length-le32 : (n : ℕ) (later : List ℕ) → n ≤ max_frame_size → le_length (le32 n ++ later) ≡ n
unfolding le_length
le_length-le32 n later small = omega arith

-- A message of at most 16 MiB that is sent without a session is received as it was, if serde reads
-- what it wrote.
pub recv_raw-send_raw :
    {Message : Type 0} (to_vec : Message → Result (List ℕ)) (from_slice : List ℕ → Result Message)
    (msg : Message) (payload rest : List ℕ)
    → to_vec msg ≡ ok payload
    → from_slice payload ≡ ok msg
    → length payload ≤ max_frame_size
    → (bytes : List ℕ) × (send_raw to_vec msg ≡ ok bytes)
      × (recv_raw from_slice (bytes ++ rest) ≡ ok (msg, rest))
unfolding send_raw recv_raw parse_message
recv_raw-send_raw to_vec from_slice msg payload rest written read_back small = (
  le32 (length payload) ++ payload,
  rw written refl,
  rw
      (
        le_length-le32 (length payload) (payload ++ rest) small,
        take-append_length (length payload) payload rest refl,
        drop-append_length (length payload) payload rest refl,
        length-append payload rest,
        read_back,
      )
      (ground arith),
)
