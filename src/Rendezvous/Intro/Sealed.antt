-- ===== src/Rendezvous/Intro/Sealed.antt =====
-- The hidden service reads what the client sealed, and refuses a message that was changed.
use mathlib.Core.List.{append_assoc}
use phinet.Prelude.{
  ℕ, zero, suc, ◌-◌, ◌<◌, ◌≤◌, ◌≡◌, ◌≢◌, refl, sym, ◌∙◌, List, [], ◌∷◌, ◌++◌, All, length, take,
  take-ge, replicate, le→leb, arith, length-append, take-append_length, length-take,
}
use phinet.Prelude.Eq.{list_eqb_iff, nat_eq}
use phinet.Prelude.Word.{be16, u16_mod, from_be16-be16}
use phinet.Prelude.Result.{ok, err, auth_failed}
use phinet.Ntor.{Primitives, slice}
use phinet.Ntor.Agreement.{IsSound}
use phinet.Circuit.Cell.{padded, length-padded}
use phinet.Circuit.Hop.{ChaCha20}
use phinet.Rendezvous.Wire.{Introduce}
use phinet.Rendezvous.Wire.RoundTrip.{field_at, last_at}
use phinet.Rendezvous.Intro.{
  IntroducePlaintext, encode_intro_plaintext, decode_intro_plaintext, until_zero, derive_intro_keys,
  hmac_intro, apply_chacha20, build_for_hs_with_ephemeral, open_at_hs,
}

-- A host that the fixed field can hold: at most 20 ASCII bytes, none of them zero.
pub record Fits (p : IntroducePlaintext) : Type 0 where
  pub id_length : length p.rp_node_id ≡ 32
  pub cookie_length : length p.cookie ≡ 20
  pub host_length : length p.rp_host ≤ 20
  pub host_ascii : All (λ b. (0 < b) × (b < 128)) p.rp_host
  pub port_fits : p.rp_port < u16_mod

until_zero-padded :
    (host : List ℕ) (k : ℕ)
    → All (λ b. (0 < b) × (b < 128)) host
    → until_zero (host ++ replicate k 0) ≡ host
unfolding until_zero
until_zero-padded [] zero h = refl
until_zero-padded [] (suc k) h = refl
until_zero-padded (b ∷ host) k h = ground (arith, until_zero-padded host k h.1)

module _ (from_utf8_lossy : List ℕ → List ℕ)
    (keeps_ascii : (s : List ℕ) → All (λ b. (0 < b) × (b < 128)) s → from_utf8_lossy s ≡ s) where
  decode_intro_plaintext-encode :
      (p : IntroducePlaintext)
      → Fits p
      → decode_intro_plaintext from_utf8_lossy (encode_intro_plaintext p) ≡ ok p
  unfolding decode_intro_plaintext encode_intro_plaintext
  decode_intro_plaintext-encode p f =
      rw
        (
          le→leb 74 (length buf) (omega (arith, buf_length)),
          take-append_length 32 id (cookie ++ (host ++ port)) f.id_length,
          host_field,
          until_zero-padded p.rp_host (20 - length p.rp_host) f.host_ascii,
          keeps_ascii p.rp_host f.host_ascii,
          port_field,
          field_at 32 20 id cookie (host ++ port) f.id_length f.cookie_length,
          from_be16-be16 p.rp_port f.port_fits,
        )
        refl
    where
      id : List ℕ
      id = p.rp_node_id

      cookie : List ℕ
      cookie = p.cookie

      host : List ℕ
      host = padded 20 (take 20 p.rp_host)

      port : List ℕ
      port = be16 p.rp_port

      buf : List ℕ
      buf = id ++ (cookie ++ (host ++ port))

      kept : take 20 p.rp_host ≡ p.rp_host
      kept = take-ge 20 p.rp_host f.host_length

      host_length : length host ≡ 20
      host_length = length-padded 20 (take 20 p.rp_host) (omega (arith, length-take 20 p.rp_host))

      ic : length (id ++ cookie) ≡ 52
      ic = omega (arith, length-append id cookie, f)

      ich : length ((id ++ cookie) ++ host) ≡ 72
      ich = omega (arith, length-append (id ++ cookie) host, ic, host_length)

      buf_length : length buf ≡ 74
      buf_length = omega (
        arith,
        f,
        host_length,
        length-append id (cookie ++ (host ++ port)),
        length-append cookie (host ++ port),
        length-append host port,
      )

      host_field : slice 52 20 buf ≡ padded 20 p.rp_host
      host_field =
          rw
            (
              ← append_assoc id cookie (host ++ port),
              field_at 52 20 (id ++ cookie) host port ic host_length,
              kept,
            )
            refl

      port_field : slice 72 2 buf ≡ port
      port_field =
          rw (← append_assoc id cookie (host ++ port), ← append_assoc (id ++ cookie) host port)
            (last_at 72 2 ((id ++ cookie) ++ host) port ich refl)

  -- The hidden service whose key the client sealed for opens the message and reads what the client
  -- wrote, when the host is at most 20 nonzero ASCII bytes.
  pub open_at_hs-build :
      (prim : Primitives) (sound : IsSound prim) (cipher : ChaCha20) (b_sk x_sk auth_key : List ℕ)
      (p : IntroducePlaintext)
      → Fits p
      → let b_pub = prim.public_key b_sk in
        open_at_hs prim cipher from_utf8_lossy b_sk b_pub
          (build_for_hs_with_ephemeral prim cipher b_pub auth_key p x_sk)
        ≡ ok p
  unfolding open_at_hs build_for_hs_with_ephemeral apply_chacha20
  open_at_hs-build prim sound cipher b_sk x_sk auth_key p f =
      rw
        (
          sound.commutes b_sk x_sk,
          (list_eqb_iff _ _).1 refl,
          cipher.twice,
          decode_intro_plaintext-encode p f,
        )
        refl

refuses_tag :
    (prim : Primitives) (cipher : ChaCha20) (from_utf8_lossy : List ℕ → List ℕ)
    (b_sk b_pub : List ℕ) (i : Introduce)
    → let shared = prim.diffie_hellman b_sk i.client_ntor_x in
      let mac_key = (derive_intro_keys prim shared i.client_ntor_x b_pub).1 in
      hmac_intro prim mac_key i.auth_key_pub i.client_ntor_x i.enc_payload ≢ i.mac
      → open_at_hs prim cipher from_utf8_lossy b_sk b_pub i ≡ err auth_failed
unfolding open_at_hs
refuses_tag prim cipher from_utf8_lossy b_sk b_pub i wrong =
    let shared = prim.diffie_hellman b_sk i.client_ntor_x in
    let mac_key = (derive_intro_keys prim shared i.client_ntor_x b_pub).1 in
    ground (
      arith,
      list_eqb_iff (hmac_intro prim mac_key i.auth_key_pub i.client_ntor_x i.enc_payload) i.mac,
    )

-- What a client sealed for a hidden service, whatever it is, is refused there under any other tag
-- than the one it was sealed with.
pub open_at_hs-tampered :
    (prim : Primitives) (sound : IsSound prim) (cipher : ChaCha20)
    (from_utf8_lossy : List ℕ → List ℕ) (b_sk x_sk auth_key tag : List ℕ) (p : IntroducePlaintext)
    → tag ≢ (build_for_hs_with_ephemeral prim cipher (prim.public_key b_sk) auth_key p x_sk).mac
    → open_at_hs prim cipher from_utf8_lossy b_sk
        (prim.public_key b_sk)
        (record (build_for_hs_with_ephemeral prim cipher (prim.public_key b_sk) auth_key p x_sk) {
          mac = tag;
        })
      ≡ err auth_failed
unfolding build_for_hs_with_ephemeral
open_at_hs-tampered prim sound cipher from_utf8_lossy b_sk x_sk auth_key tag p other =
    refuses_tag prim cipher from_utf8_lossy b_sk (prim.public_key b_sk) _
      (λ same. other (sym same ∙ rw (sound.commutes b_sk x_sk) refl))
