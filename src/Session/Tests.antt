-- ===== src/Session/Tests.antt =====
-- A session over a toy cipher.
use phinet.Prelude.{ℕ, ◌≡◌, List, [], ◌∷◌, Bool, true, false, map}
use phinet.Prelude.Word.{codes}
use phinet.Prelude.Result.{ok}
use phinet.Samples.{toy_ntor, toy_aead}
use phinet.Session.{Session, new_session}
use phinet.Session.Delivery.{talk, new_session-talk}

abbrev turns : List (Bool × List ℕ)
turns = (true, codes "hello") ∷ (false, codes "hi") ∷ (true, codes "bye") ∷ []

new_session-talk_example :
    talk toy_aead turns
      (new_session toy_ntor (codes "secret") true)
      (new_session toy_ntor (codes "secret") false)
    ≡ map (λ turn. ok turn.1) turns
new_session-talk_example = new_session-talk toy_aead toy_ntor (codes "secret") turns

abbrev responder : Session
responder = new_session toy_ntor (codes "secret") false
