-- ===== src/Ntor/Tests.antt =====
-- The handshake at concrete inputs, over the primitives of Samples.
use phinet.Prelude.{ℕ, ◌≡◌, refl, List, ◌++◌, [], ◌∷◌, replicate, get_or, take, ap, inl, arith}
use phinet.Prelude.Result.{ok, err, handshake, auth_failed}
use phinet.Samples.{toy_ntor, toy_ntor-IsSound}
use phinet.Ntor.{
  NtorKeys, session_keys, client_handshake_start, client_handshake_finish, server_handshake,
  derive_seed_verify, compute_auth,
}
use phinet.Ntor.Agreement.{handshake_agrees, server_misaddressed, finish_forged}

abbrev relay_id : List ℕ
relay_id = replicate 32 7

handshake_agrees_example :
    (keys : NtorKeys) × (reply : List ℕ) × (server_handshake toy_ntor
        (3 ∷ [])
        relay_id
        (toy_ntor.public_key (5 ∷ []))
        (5 ∷ [])
        (client_handshake_start toy_ntor (2 ∷ []) relay_id (toy_ntor.public_key (5 ∷ []))).1
      ≡ ok (keys, reply))
    × (client_handshake_finish toy_ntor
          (client_handshake_start toy_ntor (2 ∷ []) relay_id (toy_ntor.public_key (5 ∷ []))).0
          reply
        ≡ ok keys)
handshake_agrees_example =
    handshake_agrees toy_ntor toy_ntor-IsSound (2 ∷ []) (3 ∷ []) relay_id (5 ∷ []) refl

server_misaddressed_example :
    server_handshake toy_ntor
      (3 ∷ [])
      relay_id
      (replicate 32 5)
      (5 ∷ [])
      (client_handshake_start toy_ntor (2 ∷ []) (replicate 32 8) (replicate 32 5)).1
    ≡ err handshake
server_misaddressed_example =
    server_misaddressed toy_ntor (3 ∷ []) (2 ∷ []) (5 ∷ []) relay_id (replicate 32 5)
      (replicate 32 8) (replicate 32 5) refl refl (inl (λ e. cc))

abbrev honest_keys : NtorKeys
honest_keys = session_keys toy_ntor (replicate 32 5337)

abbrev honest_answer : List ℕ
honest_answer = replicate 32 3 ++ replicate 32 5535573

answers :
    server_handshake toy_ntor
      (3 ∷ [])
      relay_id
      (toy_ntor.public_key (5 ∷ []))
      (5 ∷ [])
      (client_handshake_start toy_ntor (2 ∷ []) relay_id (toy_ntor.public_key (5 ∷ []))).1
    ≡ ok (honest_keys, honest_answer)
unfolding server_handshake client_handshake_start derive_seed_verify compute_auth
answers = refl

finish_forged_example :
    client_handshake_finish toy_ntor
      (client_handshake_start toy_ntor (2 ∷ []) relay_id (toy_ntor.public_key (5 ∷ []))).0
      (take 32 honest_answer ++ replicate 32 9)
    ≡ err auth_failed
finish_forged_example =
    finish_forged toy_ntor toy_ntor-IsSound (2 ∷ []) (3 ∷ []) relay_id (5 ∷ []) honest_keys
      honest_answer refl answers (replicate 32 9) refl
      (λ e. omega (arith, ap (λ (xs : List ℕ). get_or xs 0 0) e))
