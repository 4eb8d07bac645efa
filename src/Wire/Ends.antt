-- ===== src/Wire/Ends.antt =====
-- The reading loop of phinet-core/src/wire.rs comes to an end on whatever arrives.
use phinet.Prelude.{
  ℕ, zero, suc, ◌+◌, ◌-◌, take, ◌≤◌, ◌≡◌, refl, List, [], ◌++◌, Option, some, Bool, arith, inl, inr,
  length, drop, ltb, length-drop, Bool-cases,
}
use phinet.Prelude.Result.{Result, ok, err, io, ◌>>=◌, >>=-eq-ok}
use phinet.Session.{Aead, Session, decrypt}
use phinet.Wire.{
  max_frame_size, link_cell, parse_cell, le_length, read_cell, take_chunk, recv_cells,
  parse_received, parse_message, recv_session,
}

parse_cell-rest :
    (rest plain : List ℕ) (found : Bool × List ℕ × List ℕ)
    → parse_cell rest plain ≡ ok found
    → found.2 ≡ rest
unfolding parse_cell
parse_cell-rest rest plain found parsed = ground arith

module _ (a : Aead) where
  -- A cell that is read takes its length and its ciphertext off the stream.
  read_cell-shorter :
      (stream : List ℕ) (s : Session) (found : Bool × List ℕ × List ℕ)
      → (read_cell a stream s).1 ≡ ok found
      → length found.2 + (4 + link_cell) ≤ length stream
  unfolding read_cell
  read_cell-shorter stream s found read =
      let len = le_length stream in
      let body = drop 4 stream in
      let opened = (decrypt a (take len body) s).1 in
      let left : opened >>= parse_cell (drop len body) ≡ ok found
          → length found.2 ≡ length stream - 4 - len =
        λ parsed.
          let (plain, _, last) = >>=-eq-ok opened (parse_cell (drop len body)) parsed in
          rw
            (
              parse_cell-rest (drop len body) plain found last,
              length-drop len body,
              length-drop 4 stream,
            )
            refl in
      let size = length-drop 4 stream in ground (arith, left, size)

  take_chunk-returns :
      (again : List ℕ → List ℕ → Session → Option (Session × Result (List ℕ × List ℕ)))
      (assembled : List ℕ) (cell : Session × Result (Bool × List ℕ × List ℕ))
      → ((found : Bool × List ℕ × List ℕ)
          → cell.1 ≡ ok found
          → (asm : List ℕ) (s : Session)
          → (answer : Session × Result (List ℕ × List ℕ)) × (again asm found.2 s ≡ some answer))
      → (answer : Session × Result (List ℕ × List ℕ)) × (take_chunk a again assembled cell
          ≡ some answer)
  unfolding take_chunk
  take_chunk-returns again assembled (s, err e) next = (_, refl)
  take_chunk-returns again assembled (s, ok (more, chunk, rest)) next =
      let (answer, on) = next (more, chunk, rest) refl (assembled ++ chunk) s in
      elim (Bool-cases (ltb max_frame_size (length (assembled ++ chunk)))) [
        | inl big ↦ ((s, err io), rw big refl)
        | inr small ↦ elim (Bool-cases more) [
          | inl further ↦ (answer, rw (small, further) on)
          | inr done ↦ ((s, ok (assembled ++ chunk, rest)), rw (small, done) refl)
        ]
      ]

  recv_cells-returns :
      (turns : ℕ) (assembled stream : List ℕ) (s : Session)
      → length stream ≤ turns
      → (answer : Session × Result (List ℕ × List ℕ)) × (recv_cells a (suc turns) assembled stream s
          ≡ some answer)
  unfolding recv_cells
  recv_cells-returns zero assembled stream s enough =
      take_chunk-returns _ assembled (read_cell a stream s)
        (λ found read asm s'. absurd (omega (arith, read_cell-shorter stream s found read)))
  recv_cells-returns (suc turns) assembled stream s enough =
      take_chunk-returns _ assembled (read_cell a stream s) (λ found read asm s'.
        recv_cells-returns turns asm found.2 s'
          (omega (arith, read_cell-shorter stream s found read)))

  -- `recv_session` returns a message or an error on every stream, whatever it holds and wherever
  -- it ends.
  pub recv_session-returns :
      {Message : Type 0} (from_slice : List ℕ → Result Message) (stream : List ℕ) (s : Session)
      → (answer : Session × Result (Message × List ℕ)) × (recv_session from_slice a stream s
          ≡ some answer)
  unfolding recv_session
  recv_session-returns from_slice stream s =
      let (read, found) = recv_cells-returns (length stream) [] stream s (omega arith) in
      ((read.0, read.1 >>= parse_message from_slice), unfold parse_received in rw found refl)
