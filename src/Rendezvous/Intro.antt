-- ===== src/Rendezvous/Intro.antt =====
-- phinet-core/src/rendezvous.rs, what a client seals for the hidden service in an INTRODUCE. A host
-- is the list of its bytes; `String::from_utf8_lossy` is the standard library's and a parameter.
pub mod Sealed
use phinet.Prelude.{
  ℕ, ◌+◌, List, [], ◌∷◌, ◌++◌, leb, nat_eqb, length, take, replicate, if◌then◌else◌,
}
use phinet.Prelude.Eq.{list_eqb, nat_eq}
use phinet.Prelude.Word.{be16, codes}
use phinet.Prelude.Result.{Result, ok, err, crypto, auth_failed, guard, ◌>>=◌, ◌>>◌}
use phinet.Ntor.{Primitives, slice}
use phinet.Circuit.Cell.{padded}
use phinet.Circuit.Hop.{ChaCha20}
use phinet.Rendezvous.{hs_protoid}
use phinet.Rendezvous.Wire.{Introduce, be16_of, cookie_len}

abbrev pub intro1_plaintext_len : ℕ
intro1_plaintext_len = 32 + cookie_len + 20 + 2

pub record IntroducePlaintext : Type 0 where
  pub rp_node_id : List ℕ
  pub rp_host : List ℕ
  pub rp_port : ℕ  -- u16
  pub cookie : List ℕ

pub encode_intro_plaintext : IntroducePlaintext → List ℕ
encode_intro_plaintext p =
    p.rp_node_id ++ (p.cookie ++ (padded 20 (take 20 p.rp_host) ++ be16 p.rp_port))

-- Up to the first zero, or all.
pub until_zero : List ℕ → List ℕ
until_zero [] = []
until_zero (b ∷ bytes) = let rest = until_zero bytes in if nat_eqb b 0 then [] else b ∷ rest

module _ (from_utf8_lossy : List ℕ → List ℕ) where
  pub decode_intro_plaintext : List ℕ → Result IntroducePlaintext
  decode_intro_plaintext buf = do
    guard (leb intro1_plaintext_len (length buf)) crypto
    ok (record {
      rp_node_id = slice 0 32 buf;
      rp_host = from_utf8_lossy (until_zero (slice 52 20 buf));
      rp_port = be16_of (slice 72 2 buf);
      cookie = slice 32 20 buf;
    })

module _ (prim : Primitives) where
  open prim use {public_key, diffie_hellman, extract, expand, hmac}

  -- The stream's key and the MAC's.
  unfoldable pub derive_intro_keys : List ℕ → List ℕ → List ℕ → List ℕ × List ℕ
  derive_intro_keys shared client_x hs_b =
      let salt = hs_protoid ++ (codes ":intro:" ++ (client_x ++ hs_b)) in
      let keys = expand (extract salt shared) (codes "intro-keys") 64 in
      (slice 0 32 keys, slice 32 32 keys)

  unfoldable pub hmac_intro : List ℕ → List ℕ → List ℕ → List ℕ → List ℕ
  hmac_intro mac_key auth_pub client_x ct =
      hmac mac_key (hs_protoid ++ (codes ":intro-mac:" ++ (auth_pub ++ (client_x ++ ct))))

  module _ (cipher : ChaCha20) where
    pub apply_chacha20 : List ℕ → List ℕ → List ℕ
    apply_chacha20 key buf = cipher.apply_keystream key (replicate 12 0) buf

    -- The message; the secret is the caller's.
    unfoldable pub build_for_hs_with_ephemeral :
        List ℕ → List ℕ → IntroducePlaintext → List ℕ → Introduce
    build_for_hs_with_ephemeral hs_static_b_pub auth_key_pub plaintext client_sk =
        let client_x = public_key client_sk in
        let shared = diffie_hellman client_sk hs_static_b_pub in
        let (stream_key, mac_key) = derive_intro_keys shared client_x hs_static_b_pub in
        let ct = apply_chacha20 stream_key (encode_intro_plaintext plaintext) in
        record {
          auth_key_pub = auth_key_pub;
          client_ntor_x = client_x;
          enc_payload = ct;
          mac = hmac_intro mac_key auth_key_pub client_x ct;
        }

    pub open_at_hs : (List ℕ → List ℕ) → List ℕ → List ℕ → Introduce → Result IntroducePlaintext
    open_at_hs from_utf8_lossy hs_b_secret hs_static_b_pub i =
        let shared = diffie_hellman hs_b_secret i.client_ntor_x in
        let (stream_key, mac_key) = derive_intro_keys shared i.client_ntor_x hs_static_b_pub in
        let expected = hmac_intro mac_key i.auth_key_pub i.client_ntor_x i.enc_payload in
        if list_eqb expected i.mac
        then decode_intro_plaintext from_utf8_lossy (apply_chacha20 stream_key i.enc_payload)
        else err auth_failed
