-- ===== src/Wire/Delivery.antt =====
-- A message of phinet-core/src/wire.rs from one end of a session to the other, over as many cells
-- as it takes.
use mathlib.Core.Path.{subst}
use mathlib.Core.List.{append_assoc, append-nil}
use phinet.Prelude.{
  ℕ, zero, suc, ◌+◌, ◌-◌, ◌*◌, ◌/◌, ◌≤◌, ◌≡◌, refl, sym, ap, List, [], ◌∷◌, ◌++◌, some, true, false,
  arith, max, length, length-append, All,
}
use phinet.Prelude.Result.{Result, ok}
use phinet.Session.{Aead, Session}
use phinet.Session.Delivery.{SendsTo, Linked, deliver, forth-after, back-after}
use phinet.Wire.{
  max_frame_size, link_cell, parse_received, parse_message, frame_payload, cell_data, chunks,
  plain_cell, encrypt_cell, encode_chunks, encode_cells, read_cell, take_chunk, recv_cells,
  frame_message, recv_session,
}
use phinet.Wire.Cells.{Keeps, length-encrypt_cell, read_cell-encrypt_cell}
use phinet.Wire.Chunks.{joined, joined-chunks, chunks-Keeps, length-chunks}

module _ (a : Aead) where
  -- The receiver's end after the same cells.
  unfoldable pub follow : List (List ℕ) → Session → Session → Session
  unfolding deliver
  follow [] s r = (deliver a (plain_cell 0 []) s r).1
  follow (chunk ∷ []) s r = (deliver a (plain_cell 0 chunk) s r).1
  follow (chunk ∷ next ∷ later) s r =
      let turn = deliver a (plain_cell 1 chunk) s r in follow (next ∷ later) turn.0 turn.1

  follow-Linked :
      (parts : List (List ℕ)) (s r : Session)
      → Linked s r
      → Linked (encode_chunks a parts s).0 (follow parts s r)
  unfolding follow encode_chunks encrypt_cell deliver
  follow-Linked [] s r linked = record {
    forth = forth-after a (plain_cell 0 []) s r linked.forth;
    back = back-after a (plain_cell 0 []) s r linked.back;
  }
  follow-Linked (chunk ∷ []) s r linked = record {
    forth = forth-after a (plain_cell 0 chunk) s r linked.forth;
    back = back-after a (plain_cell 0 chunk) s r linked.back;
  }
  follow-Linked (chunk ∷ next ∷ later) s r linked = follow-Linked (next ∷ later) _ _ (record {
    forth = forth-after a (plain_cell 1 chunk) s r linked.forth;
    back = back-after a (plain_cell 1 chunk) s r linked.back;
  })

  reads_on :
      (turns : ℕ) (chunk assembled rest stream : List ℕ) (r after : Session)
      → read_cell a stream r ≡ (after, ok (true, chunk, rest))
      → length (assembled ++ chunk) ≤ max_frame_size
      → recv_cells a (suc turns) assembled stream r
        ≡ recv_cells a turns (assembled ++ chunk) rest after
  reads_on turns chunk assembled rest stream r after read small =
      unfold recv_cells in rw read (unfold take_chunk in ground arith)

  reads_last :
      (turns : ℕ) (chunk assembled rest stream : List ℕ) (r after : Session)
      → read_cell a stream r ≡ (after, ok (false, chunk, rest))
      → length (assembled ++ chunk) ≤ max_frame_size
      → recv_cells a (suc turns) assembled stream r ≡ some (after, ok (assembled ++ chunk, rest))
  reads_last turns chunk assembled rest stream r after read small =
      unfold recv_cells in rw read (unfold take_chunk in ground arith)

  recv_cells-encode_chunks :
      (turns : ℕ) (parts : List (List ℕ)) (assembled rest : List ℕ) (s r : Session)
      → SendsTo s r
      → All Keeps parts
      → length (assembled ++ joined parts) ≤ max_frame_size
      → length parts ≤ turns
      → recv_cells a (suc turns) assembled ((encode_chunks a parts s).1 ++ rest) r
        ≡ some (follow parts s r, ok (assembled ++ joined parts, rest))
  recv_cells-encode_chunks turns [] assembled rest s r to keeps small enough =
      let read = read_cell-encrypt_cell a 0 [] rest s r to (omega arith) in
      let last = reads_last turns [] assembled rest _ r _ read in
      unfold encode_chunks follow joined in last small
  recv_cells-encode_chunks turns (chunk ∷ []) assembled rest s r to keeps small enough =
      let read = read_cell-encrypt_cell a 0 chunk rest s r to keeps.0 in
      let last = reads_last turns chunk assembled rest _ r _ read in
      let alone : joined (chunk ∷ []) ≡ chunk = unfold joined in append-nil chunk in
      let fits : length (assembled ++ chunk) ≤ max_frame_size =
        subst (λ part. length (assembled ++ part) ≤ max_frame_size) alone small in
      rw alone (unfold encode_chunks follow in last fits)
  recv_cells-encode_chunks zero (chunk ∷ next ∷ later) assembled rest s r to keeps small enough =
      absurd (omega arith)
  recv_cells-encode_chunks (suc turns) (chunk ∷ next ∷ later) assembled rest s r to keeps small
        enough =
      let cell = encrypt_cell a 1 chunk s in
      let r' = (deliver a (plain_cell 1 chunk) s r).1 in
      let others = (encode_chunks a (next ∷ later) cell.0).1 in
      let split : (encode_chunks a (chunk ∷ next ∷ later) s).1 ++ rest
          ≡ cell.1 ++ (others ++ rest) =
        unfold encode_chunks in append_assoc cell.1 others rest in
      let parts : assembled ++ joined (chunk ∷ next ∷ later)
          ≡ (assembled ++ chunk) ++ joined (next ∷ later) =
        unfold joined in sym (append_assoc assembled chunk (joined (next ∷ later))) in
      let follows : follow (chunk ∷ next ∷ later) s r ≡ follow (next ∷ later) cell.0 r' =
        unfold follow encrypt_cell deliver in refl in
      let fits : length ((assembled ++ chunk) ++ joined (next ∷ later)) ≤ max_frame_size =
        subst (λ whole. length whole ≤ max_frame_size) parts small in
      let size = length-append (assembled ++ chunk) (joined (next ∷ later)) in
      let read = read_cell-encrypt_cell a 1 chunk (others ++ rest) s r to keeps.0 in
      let on =
        reads_on (suc turns) chunk assembled (others ++ rest) _ r r' read
          (omega (arith, fits, size)) in
      let to' : SendsTo cell.0 r' =
        unfold encrypt_cell deliver in forth-after a (plain_cell 1 chunk) s r to in
      let again =
        recv_cells-encode_chunks turns (next ∷ later) (assembled ++ chunk) rest cell.0 r' to'
          keeps.1 fits (omega arith) in
      rw (split, on, again, parts, follows) refl

  length-encode_chunks :
      (parts : List (List ℕ)) (s : Session)
      → All Keeps parts
      → length (encode_chunks a parts s).1 ≡ max 1 (length parts) * (4 + link_cell + 16)
  length-encode_chunks [] s keeps =
      unfold encode_chunks in length-encrypt_cell a 0 [] s (omega arith)
  length-encode_chunks (chunk ∷ []) s keeps =
      unfold encode_chunks in length-encrypt_cell a 0 chunk s keeps.0
  length-encode_chunks (chunk ∷ next ∷ later) s keeps =
      let cell = encrypt_cell a 1 chunk s in
      let others = length-encode_chunks (next ∷ later) cell.0 keeps.1 in
      let one = length-encrypt_cell a 1 chunk s keeps.0 in
      let both : length (encode_chunks a (chunk ∷ next ∷ later) s).1
          ≡ length cell.1 + length (encode_chunks a (next ∷ later) cell.0).1 =
        unfold encode_chunks in length-append cell.1 (encode_chunks a (next ∷ later) cell.0).1 in
      omega (arith, one, others, both)

  -- A payload takes 2068 bytes on the wire for every 2045 bytes begun, and 2068 bytes if it is
  -- empty.
  pub length-encode_cells :
      (payload : List ℕ) (s : Session)
      → length (encode_cells a payload s).1
        ≡ max 1 ((length payload + (cell_data - 1)) / cell_data) * (4 + link_cell + 16)
  unfolding encode_cells
  length-encode_cells payload s =
      let parts = length-chunks (length payload) payload (omega arith) in
      let all =
        length-encode_chunks (chunks (length payload) payload) s
          (chunks-Keeps (length payload) payload) in
      rw (all, parts) refl

  -- Over a link whose ends agree, `recv_session` gives a message of at most 16 MiB back as
  -- `send_session` wrote it, leaves what comes after it on the stream, and the ends still agree,
  -- if serde reads what it wrote.
  pub recv_session-frame_message :
      {Message : Type 0} (to_vec : Message → Result (List ℕ)) (from_slice : List ℕ → Result Message)
      (msg : Message) (payload rest : List ℕ) (s r : Session)
      → Linked s r
      → to_vec msg ≡ ok payload
      → from_slice payload ≡ ok msg
      → length payload ≤ max_frame_size
      → (bytes : List ℕ) × (r' : Session) × ((frame_message a to_vec msg s).1 ≡ ok bytes)
        × (recv_session from_slice a (bytes ++ rest) r ≡ some (r', ok (msg, rest)))
        × Linked (frame_message a to_vec msg s).0 r'
  unfolding frame_message
  recv_session-frame_message to_vec from_slice msg payload rest s r linked written read_back small =
      let parts = chunks (length payload) payload in
      let keeps = chunks-Keeps (length payload) payload in
      let whole = joined-chunks (length payload) payload (omega arith) in
      let fits : length (joined parts) ≤ max_frame_size = omega (arith, ap length whole, small) in
      let size = length-encode_chunks parts s keeps in
      let bytes = (encode_chunks a parts s).1 in
      let turns : length parts ≤ length (bytes ++ rest) =
        omega (arith, size, length-append bytes rest) in
      let received = recv_cells-encode_chunks _ parts [] rest s r linked.forth keeps fits turns in
      let sent : frame_payload a (to_vec msg) s ≡ ((encode_chunks a parts s).0, ok bytes) =
        rw written (unfold frame_payload encode_cells in refl) in
      let linked' : Linked (encode_chunks a parts s).0 (follow parts s r) =
        follow-Linked parts s r linked in
      (
        bytes,
        follow parts s r,
        ap (λ sent. sent.1) sent,
        unfold recv_session in
            rw (received, whole) (unfold parse_received parse_message in rw read_back refl),
        subst (λ sent. Linked sent.0 (follow parts s r)) (sym sent) linked',
      )
