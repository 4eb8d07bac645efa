-- ===== src/Wire.antt =====
-- The framing of messages on a connection: the functions of phinet-core/src/wire.rs. A connection is
-- the bytes that arrive before it closes. Serde's JSON is the two parameters `to_vec` and
-- `from_slice`, over a message type of which nothing is used.

mod Tests
pub mod Chunks
pub mod Cells
pub mod Delivery
pub mod Ends
pub mod Raw
use phinet.Prelude.{
  ℕ, zero, suc, ◌+◌, ◌-◌, ◌*◌, ◌/◌, ◌%◌, List, [], ◌∷◌, ◌++◌, Option, none, some, Bool, true, false,
  not, ◌||◌, length, take, drop, replicate, get_or, ltb, nat_eqb, if◌then◌else◌,
}
use phinet.Prelude.Word.{le32, from_le32}
use phinet.Prelude.Result.{Result, ok, err, closed, io, ◌>>=◌}
use phinet.Session.{Aead, Session, encrypt, decrypt}

abbrev pub max_frame_size : ℕ
max_frame_size = 16 * 1024 * 1024

abbrev pub link_cell : ℕ
link_cell = 2048

abbrev pub cell_hdr : ℕ
cell_hdr = 3

abbrev pub cell_data : ℕ
cell_data = link_cell - cell_hdr

-- `payload.chunks(CELL_DATA)`; a chunk takes at least one byte, so that as many turns as there are
-- bytes are enough.
unfoldable pub chunks : ℕ → List ℕ → List (List ℕ)
chunks zero payload = []
chunks (suc turns) [] = []
chunks (suc turns) (b ∷ payload) =
    take cell_data (b ∷ payload) ∷ chunks turns (drop cell_data (b ∷ payload))

-- The plaintext of a cell: the flag, the size of the chunk, the chunk, and zeros.
unfoldable pub plain_cell : ℕ → List ℕ → List ℕ
plain_cell more chunk =
    more
    ∷ length chunk % 256
    ∷ length chunk / 256 % 256
    ∷ (chunk ++ replicate (cell_data - length chunk) 0)

-- What a cell says, once it is decrypted.
unfoldable pub parse_cell : List ℕ → List ℕ → Result (Bool × List ℕ × List ℕ)
parse_cell rest plain =
    if not (nat_eqb (length plain) link_cell)
    then err io
    else let clen = get_or plain 1 0 + get_or plain 2 0 * 256 in
      if ltb link_cell (cell_hdr + clen)
      then err io
      else ok (not (nat_eqb (get_or plain 0 0) 0), take clen (drop cell_hdr plain), rest)

unfoldable pub le_length : List ℕ → ℕ
le_length stream =
    from_le32 (get_or stream 0 0) (get_or stream 1 0) (get_or stream 2 0) (get_or stream 3 0)

module _ (a : Aead) where
  unfoldable pub encrypt_cell : ℕ → List ℕ → Session → Session × List ℕ
  unfolding plain_cell
  encrypt_cell more chunk s =
      let sealed = encrypt a (plain_cell more chunk) s in
      (sealed.0, le32 (length sealed.1) ++ sealed.1)

  -- A payload without chunks still makes one cell.
  unfoldable pub encode_chunks : List (List ℕ) → Session → Session × List ℕ
  unfolding encrypt_cell
  encode_chunks [] s = encrypt_cell 0 [] s
  encode_chunks (chunk ∷ []) s = encrypt_cell 0 chunk s
  encode_chunks (chunk ∷ next ∷ later) s =
      let cell = encrypt_cell 1 chunk s in
      let others = encode_chunks (next ∷ later) cell.0 in (others.0, cell.1 ++ others.1)

  unfoldable pub encode_cells : List ℕ → Session → Session × List ℕ
  unfolding chunks encode_chunks
  encode_cells payload s = encode_chunks (chunks (length payload) payload) s

  -- One cell off the stream: whether more follow, its chunk, and the rest of the stream. A read
  -- past the end finds the connection closed.
  unfoldable pub read_cell : List ℕ → Session → Session × Result (Bool × List ℕ × List ℕ)
  unfolding parse_cell le_length
  read_cell stream s =
      let len = le_length stream in
      let body = drop 4 stream in
      let opened = decrypt a (take len body) s in
      if ltb (length stream) 4
      then (s, err closed)
      else if ltb len link_cell || ltb (link_cell + 64) len
      then (s, err io)
      else if ltb (length body) len
      then (s, err closed)
      else (opened.0, opened.1 >>= parse_cell (drop len body))

  -- One turn of the loop of `recv_session`, after its cell is read.
  unfoldable pub take_chunk :
      (List ℕ → List ℕ → Session → Option (Session × Result (List ℕ × List ℕ)))
      → List ℕ
      → Session × Result (Bool × List ℕ × List ℕ)
      → Option (Session × Result (List ℕ × List ℕ))
  take_chunk again assembled (s, err e) = some (s, err e)
  take_chunk again assembled (s, ok (more, chunk, rest)) =
      if ltb max_frame_size (length (assembled ++ chunk))
      then some (s, err io)
      else if more
      then again (assembled ++ chunk) rest s
      else some (s, ok (assembled ++ chunk, rest))

  -- The loop: the whole payload and the rest of the stream. Out of turns it is still reading.
  unfoldable pub recv_cells :
      ℕ → List ℕ → List ℕ → Session → Option (Session × Result (List ℕ × List ℕ))
  recv_cells zero assembled stream s = none
  recv_cells (suc turns) assembled stream s =
      take_chunk (recv_cells turns) assembled (read_cell stream s)

  unfoldable pub frame_payload : Result (List ℕ) → Session → Session × Result (List ℕ)
  unfolding encode_cells
  frame_payload (err e) s = (s, err e)
  frame_payload (ok payload) s = let sent = encode_cells payload s in (sent.0, ok sent.1)

  unfoldable pub frame_message :
      {Message : Type 0}
      → (Message → Result (List ℕ))
      → Message
      → Session
      → Session × Result (List ℕ)
  unfolding frame_payload
  frame_message to_vec msg s = frame_payload (to_vec msg) s

module _ {Message : Type 0} (from_slice : List ℕ → Result Message) where
  unfoldable pub parse_message : List ℕ × List ℕ → Result (Message × List ℕ)
  parse_message (payload, rest) = from_slice payload >>= (λ msg. ok (msg, rest))

  unfoldable pub parse_received :
      Option (Session × Result (List ℕ × List ℕ)) → Option (Session × Result (Message × List ℕ))
  unfolding parse_message
  parse_received none = none
  parse_received (some (s, received)) = some (s, received >>= parse_message)

  -- Each turn of the loop takes some of the stream.
  unfoldable pub recv_session :
      Aead → List ℕ → Session → Option (Session × Result (Message × List ℕ))
  unfolding parse_received recv_cells
  recv_session a stream s = parse_received (recv_cells a (suc (length stream)) [] stream s)

  unfoldable pub recv_raw : List ℕ → Result (Message × List ℕ)
  unfolding le_length parse_message
  recv_raw stream =
      let len = le_length stream in
      let body = drop 4 stream in
      if ltb (length stream) 4
      then err closed
      else if ltb max_frame_size len
      then err io
      else if ltb (length body) len
      then err closed
      else parse_message (take len body, drop len body)

unfoldable pub send_raw :
    {Message : Type 0} → (Message → Result (List ℕ)) → Message → Result (List ℕ)
send_raw to_vec msg = to_vec msg >>= (λ payload. ok (le32 (length payload) ++ payload))
