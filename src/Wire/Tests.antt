-- ===== src/Wire/Tests.antt =====
-- A message of two cells over a toy link.
use phinet.Prelude.{
  ℕ, ◌+◌, ◌-◌, ◌*◌, ◌/◌, ◌≡◌, refl, List, ◌++◌, some, arith, max, length, true, false,
}
use phinet.Prelude.Word.{codes}
use phinet.Prelude.Result.{Result, ok}
use phinet.Samples.{toy_ntor, toy_aead}
use phinet.Session.{Session, new_session}
use phinet.Session.Delivery.{Linked, new_session-Linked}
use phinet.Wire.{link_cell, cell_data, encode_cells, frame_message, recv_session}
use phinet.Wire.Delivery.{length-encode_cells, recv_session-frame_message}
use phinet.Wire.Ends.{recv_session-returns}

abbrev alice : Session
alice = new_session toy_ntor (codes "secret") true

abbrev bob : Session
bob = new_session toy_ntor (codes "secret") false

abbrev greeting : List ℕ
greeting = codes "hello"

length-encode_cells_example :
    length (encode_cells toy_aead greeting alice).1
    ≡ max 1 ((length greeting + (cell_data - 1)) / cell_data) * (4 + link_cell + 16)
length-encode_cells_example = length-encode_cells toy_aead greeting alice

recv_session-frame_message_example :
    (bytes : List ℕ) × (r : Session) × ((frame_message toy_aead ok greeting alice).1 ≡ ok bytes)
    × (recv_session ok toy_aead (bytes ++ codes "more") bob ≡ some (r, ok (greeting, codes "more")))
    × Linked (frame_message toy_aead ok greeting alice).0 r
recv_session-frame_message_example =
    recv_session-frame_message toy_aead ok ok greeting greeting (codes "more") alice bob
      (new_session-Linked toy_ntor (codes "secret")) refl refl (omega arith)

recv_session-returns_example :
    (answer : Session × Result (List ℕ × List ℕ)) × (recv_session ok toy_aead
        (codes "not a cell")
        bob
      ≡ some answer)
recv_session-returns_example = recv_session-returns toy_aead ok (codes "not a cell") bob
