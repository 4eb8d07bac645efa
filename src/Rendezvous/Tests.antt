-- ===== src/Rendezvous/Tests.antt =====
-- The end-to-end handshake over the primitives of Samples.
use phinet.Prelude.{List, ℕ, replicate, refl, arith, ap, get_or, ◌≡◌, [], ◌∷◌}
use phinet.Prelude.Result.{ok, err, auth_failed}
use phinet.Prelude.Word.{codes}
use phinet.Samples.{toy_cipher, toy_ntor, toy_ntor-IsSound}
use phinet.Rendezvous.{hs_finalize, client_finalize}
use phinet.Rendezvous.Wire.{Introduce}
use phinet.Rendezvous.Intro.{
  IntroducePlaintext, build_for_hs_with_ephemeral, open_at_hs, derive_intro_keys, hmac_intro,
}
use phinet.Rendezvous.Intro.Sealed.{Fits, open_at_hs-build, open_at_hs-tampered}
use phinet.Rendezvous.Agreement.{client_finalize-hs_finalize}

client_finalize-hs_finalize_example :
    let x_pub = toy_ntor.public_key (2 ∷ []) in
    let b_pub = toy_ntor.public_key (5 ∷ []) in
    let (keys, y_pub, auth) = hs_finalize toy_ntor (3 ∷ []) (5 ∷ []) b_pub x_pub in
    client_finalize toy_ntor (2 ∷ []) x_pub b_pub y_pub auth ≡ ok keys
client_finalize-hs_finalize_example =
    client_finalize-hs_finalize toy_ntor toy_ntor-IsSound (2 ∷ []) (3 ∷ []) (5 ∷ [])

abbrev meeting : IntroducePlaintext
meeting = record {
  rp_node_id = replicate 32 9;
  rp_host = codes "192.0.2.7";
  rp_port = 9001;
  cookie = replicate 20 6;
}

meeting-Fits : Fits meeting
meeting-Fits = record {
  id_length = refl;
  cookie_length = refl;
  host_length = omega arith;
  host_ascii = omega arith;
  port_fits = omega arith;
}

open_at_hs-build_example :
    let b_pub = toy_ntor.public_key (5 ∷ []) in
    open_at_hs toy_ntor toy_cipher
      (λ s. s)
      (5 ∷ [])
      b_pub
      (build_for_hs_with_ephemeral toy_ntor toy_cipher b_pub (replicate 32 4) meeting (2 ∷ []))
    ≡ ok meeting
open_at_hs-build_example =
    open_at_hs-build (λ s. s) (λ s h. refl) toy_ntor toy_ntor-IsSound toy_cipher (5 ∷ []) (2 ∷ [])
      (replicate 32 4) meeting meeting-Fits

abbrev sealed : Introduce
sealed =
    build_for_hs_with_ephemeral toy_ntor toy_cipher (toy_ntor.public_key (5 ∷ [])) (replicate 32 4)
      meeting (2 ∷ [])

open_at_hs-tampered_example :
    open_at_hs toy_ntor toy_cipher
      (λ s. s)
      (5 ∷ [])
      (toy_ntor.public_key (5 ∷ []))
      (record sealed { mac = replicate 32 0 })
    ≡ err auth_failed
unfolding build_for_hs_with_ephemeral derive_intro_keys hmac_intro
open_at_hs-tampered_example =
    open_at_hs-tampered toy_ntor toy_ntor-IsSound toy_cipher (λ s. s) (5 ∷ []) (2 ∷ [])
      (replicate 32 4) (replicate 32 0) meeting
      (λ e. omega (arith, ap (λ (xs : List ℕ). get_or xs 0 0) e))
