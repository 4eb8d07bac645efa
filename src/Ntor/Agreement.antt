-- ===== src/Ntor/Agreement.antt =====
-- Both ends of an honest handshake hold the same keys, and a forged reply is refused.
use mathlib.Core.List.{append_assoc}
use phinet.Prelude.{
  ◌⊎◌, take, drop, sym, ◌∙◌, ℕ, ◌≡◌, ◌≢◌, refl, List, ◌++◌, length, take-length, take-append_length,
  drop-append_length, true, arith, length-append,
}
use phinet.Prelude.Eq.{list_eqb, list_eqb_iff, nat_eq}
use phinet.Prelude.Result.{ok, err, handshake, auth_failed}
use phinet.Ntor.{
  Primitives, NtorKeys, ClientHandshake, client_handshake_start, client_handshake_finish,
  server_handshake, slice, client_handshake_len, server_handshake_len, derive_seed_verify,
  compute_auth, session_keys, protoid, m_server,
}

-- What the crates document: X25519 commutes, a public key and a tag are 32 bytes.
pub record IsSound (prim : Primitives) : Type 0 where
  pub commutes :
      (a b : List ℕ)
      → prim.diffie_hellman a (prim.public_key b) ≡ prim.diffie_hellman b (prim.public_key a)
  pub public_length : (a : List ℕ) → length (prim.public_key a) ≡ 32
  pub tag_length : (key msg : List ℕ) → length (prim.hmac key msg) ≡ 32

list_eqb_self : (xs : List ℕ) → list_eqb xs xs ≡ true
list_eqb_self xs = (list_eqb_iff xs xs).1 refl

-- Consecutive fields of 32 bytes.
module _ (a b : List ℕ) (la : length a ≡ 32) where
  first_field : slice 0 32 (a ++ b) ≡ a
  first_field = take-append_length 32 a b la

  last_field : length b ≡ 32 → slice 32 32 (a ++ b) ≡ b
  last_field lb = rw (drop-append_length 32 a b la) (take-length 32 b lb)

  middle_field : (c : List ℕ) → length b ≡ 32 → slice 32 32 (a ++ (b ++ c)) ≡ b
  middle_field c lb = rw (drop-append_length 32 a (b ++ c) la) (take-append_length 32 b c lb)

  third_field : (c : List ℕ) → length b ≡ 32 → length c ≡ 32 → slice 64 32 (a ++ (b ++ c)) ≡ c
  third_field c lb lc =
      let both : length (a ++ b) ≡ 64 = omega (arith, length-append a b) in
      rw (← append_assoc a b c, drop-append_length 64 (a ++ b) c both) (take-length 32 c lc)

module _ (prim : Primitives) (sound : IsSound prim) where
  open prim use {public_key}

  -- Seed and verification of the server's side of an honest transcript.
  abbrev honest_parts : List ℕ → List ℕ → List ℕ → List ℕ → List ℕ × List ℕ
  honest_parts x_priv y_priv server_id b_priv =
      let x_pub = public_key x_priv in
      derive_seed_verify prim (prim.diffie_hellman y_priv x_pub) (prim.diffie_hellman b_priv x_pub)
        server_id (public_key b_priv) x_pub (public_key y_priv)

  -- What an honest server answers an honest client.
  server_answers :
      (x_priv y_priv server_id b_priv : List ℕ)
      → length server_id ≡ 32
      → server_handshake prim y_priv server_id
          (public_key b_priv)
          b_priv
          (server_id ++ (public_key b_priv ++ public_key x_priv))
        ≡ ok (
          session_keys prim (honest_parts x_priv y_priv server_id b_priv).0,
          public_key y_priv
              ++ compute_auth prim
                  (honest_parts x_priv y_priv server_id b_priv).1
                  server_id
                  (public_key b_priv)
                  (public_key y_priv)
                  (public_key x_priv),
        )
  unfolding server_handshake
  server_answers x_priv y_priv server_id b_priv len =
      let x_pub = public_key x_priv in
      let b_pub = public_key b_priv in
      rw
        (
          first_field server_id (b_pub ++ x_pub) len,
          middle_field server_id b_pub len x_pub (sound.public_length b_priv),
          third_field server_id b_pub len x_pub (sound.public_length b_priv)
              (sound.public_length x_priv),
          list_eqb_self server_id,
          list_eqb_self b_pub,
        )
        refl

  -- The server accepts the client's message, the client accepts the reply, and both hold the
  -- same keys, in the same directions.
  pub handshake_agrees :
      (x_priv y_priv server_id b_priv : List ℕ)
      → length server_id ≡ 32
      → let b_pub = public_key b_priv in
        let (hs, msg) = client_handshake_start prim x_priv server_id b_pub in
        (keys : NtorKeys) × (reply : List ℕ) × (server_handshake prim y_priv server_id b_pub b_priv
            msg
          ≡ ok (keys, reply))
        × (client_handshake_finish prim hs reply ≡ ok keys)
  unfolding client_handshake_start server_handshake client_handshake_finish
  handshake_agrees x_priv y_priv server_id b_priv len =
      (session_keys prim parts.0, public_key y_priv ++ auth, served, finished)
    where
      open sound use {public_length, tag_length, commutes}

      x_pub : List ℕ
      x_pub = public_key x_priv

      y_pub : List ℕ
      y_pub = public_key y_priv

      b_pub : List ℕ
      b_pub = public_key b_priv

      parts : List ℕ × List ℕ
      parts =
          derive_seed_verify prim (prim.diffie_hellman y_priv x_pub)
            (prim.diffie_hellman b_priv x_pub) server_id b_pub x_pub y_pub

      auth : List ℕ
      auth = compute_auth prim parts.1 server_id b_pub y_pub x_pub

      served :
          server_handshake prim y_priv server_id b_pub b_priv (server_id ++ (b_pub ++ x_pub))
          ≡ ok (session_keys prim parts.0, y_pub ++ auth)
      served = server_answers x_priv y_priv server_id b_priv len

      finished :
          client_handshake_finish prim
            (client_handshake_start prim x_priv server_id b_pub).0
            (y_pub ++ auth)
          ≡ ok (session_keys prim parts.0)
      finished =
          rw
            (
              first_field y_pub auth (public_length y_priv),
              last_field y_pub auth (public_length y_priv) (tag_length _ _),
              commutes x_priv y_priv,
              commutes x_priv b_priv,
              list_eqb_self auth,
            )
            refl

module _ (prim : Primitives) where
  open prim use {public_key}

  -- A server answers only messages that name its own identity and key, whoever sent them.
  pub server_misaddressed :
      (y_priv x_priv b_priv server_id b_pub other_id other_b : List ℕ)
      → length other_id ≡ 32
      → length other_b ≡ 32
      → (other_id ≢ server_id) ⊎ (other_b ≢ b_pub)
      → server_handshake prim y_priv server_id b_pub b_priv
          (client_handshake_start prim x_priv other_id other_b).1
        ≡ err handshake
  unfolding client_handshake_start server_handshake
  server_misaddressed y_priv x_priv b_priv server_id b_pub other_id other_b li lb wrong =
      rw
        (
          first_field other_id (other_b ++ public_key x_priv) li,
          middle_field other_id other_b li (public_key x_priv) lb,
        )
        (ground (arith, list_eqb_iff other_id server_id, list_eqb_iff other_b b_pub))

  -- The tag that the client's side of the transcript demands of a reply.
  abbrev pub expected_auth : ClientHandshake → List ℕ → List ℕ
  expected_auth hs y_pub =
      let (_, verify) =
        derive_seed_verify prim (prim.diffie_hellman hs.x_priv y_pub)
          (prim.diffie_hellman hs.x_priv hs.server_b) hs.server_id hs.server_b hs.x_pub y_pub in
      compute_auth prim verify hs.server_id hs.server_b y_pub hs.x_pub

  refuses_tag :
      (hs : ClientHandshake) (y_pub tag : List ℕ)
      → length y_pub ≡ 32
      → length tag ≡ 32
      → tag ≢ expected_auth hs y_pub
      → client_handshake_finish prim hs (y_pub ++ tag) ≡ err auth_failed
  unfolding client_handshake_finish
  refuses_tag hs y_pub tag ly lt wrong =
      rw (first_field y_pub tag ly, last_field y_pub tag ly lt)
        (ground (arith, list_eqb_iff tag (expected_auth hs y_pub)))

module _ (prim : Primitives) (sound : IsSound prim) where
  open prim use {public_key}

  module _ (x_priv y_priv server_id b_priv : List ℕ) (keys : NtorKeys) (reply : List ℕ)
      (len : length server_id ≡ 32)
      (served : server_handshake prim y_priv server_id
          (public_key b_priv)
          b_priv
          (client_handshake_start prim x_priv server_id (public_key b_priv)).1
        ≡ ok (keys, reply)) where
    -- The server's answer is its key and the tag that the client expects.
    honest_reply :
        reply
        ≡ public_key y_priv
          ++ expected_auth prim
              (client_handshake_start prim x_priv server_id (public_key b_priv)).0
              (public_key y_priv)
    unfolding client_handshake_start
    honest_reply =
        let answer = server_answers prim sound x_priv y_priv server_id b_priv len in
        let same : reply
            ≡ public_key y_priv
              ++ compute_auth prim (honest_parts prim sound x_priv y_priv server_id b_priv).1
                  server_id (public_key b_priv) (public_key y_priv) (public_key x_priv) =
          ground (arith, answer, served) in
        rw (sound.commutes x_priv y_priv, sound.commutes x_priv b_priv) same

    -- If a server answers a client that started a handshake with it, its answer with any other tag
    -- of 32 bytes in place of the server's gives the client no keys.
    pub finish_forged :
        (tag : List ℕ)
        → length tag ≡ 32
        → tag ≢ drop 32 reply
        → client_handshake_finish prim
            (client_handshake_start prim x_priv server_id (public_key b_priv)).0
            (take 32 reply ++ tag)
          ≡ err auth_failed
    finish_forged tag lt wrong =
        let hs = (client_handshake_start prim x_priv server_id (public_key b_priv)).0 in
        let y_pub = public_key y_priv in
        let expected = expected_auth prim hs y_pub in
        let size = sound.public_length y_priv in
        let head : take 32 reply ≡ y_pub =
          rw honest_reply (take-append_length 32 y_pub expected size) in
        let tail : drop 32 reply ≡ expected =
          rw honest_reply (drop-append_length 32 y_pub expected size) in
        rw head (refuses_tag prim hs y_pub tag size lt (λ e. wrong (e ∙ sym tail)))

-- The sizes of the two messages.
pub client_handshake_start-length :
    (prim : Primitives) (sound : IsSound prim) (x_priv server_id server_b : List ℕ)
    → length server_id ≡ 32
    → length server_b ≡ 32
    → length (client_handshake_start prim x_priv server_id server_b).1 ≡ client_handshake_len
unfolding client_handshake_start
client_handshake_start-length prim sound x_priv server_id server_b li lb =
    let x_pub = prim.public_key x_priv in
    omega (
      arith,
      length-append server_id (server_b ++ x_pub),
      length-append server_b x_pub,
      sound.public_length x_priv,
    )

pub server_handshake-length :
    (prim : Primitives) (sound : IsSound prim) (y_priv server_id b_pub b_priv msg : List ℕ)
    (keys : NtorKeys) (reply : List ℕ)
    → server_handshake prim y_priv server_id b_pub b_priv msg ≡ ok (keys, reply)
    → length reply ≡ server_handshake_len
unfolding server_handshake compute_auth
server_handshake-length prim sound y_priv server_id b_pub b_priv msg keys reply e =
    let x_pub = slice 64 32 msg in
    let y_pub = prim.public_key y_priv in
    let parts =
      derive_seed_verify prim (prim.diffie_hellman y_priv x_pub) (prim.diffie_hellman b_priv x_pub)
        server_id b_pub x_pub y_pub in
    let auth = compute_auth prim parts.1 server_id b_pub y_pub x_pub in
    ground (
      arith,
      length-append y_pub auth,
      sound.public_length y_priv,
      sound.tag_length parts.1
          (server_id ++ (b_pub ++ (y_pub ++ (x_pub ++ (protoid ++ m_server))))),
    )
