-- ===== src/Rendezvous/Wire.antt =====
-- phinet-core/src/rendezvous.rs, the payloads of ESTABLISH_INTRO, ESTABLISH_RENDEZVOUS, INTRODUCE,
-- RENDEZVOUS1 and RENDEZVOUS2. A buffer may be longer than its message: the rest is ignored.
pub mod RoundTrip
use phinet.Prelude.{ℕ, ◌+◌, ◌%◌, ◌&&◌, List, [], ◌∷◌, ◌++◌, leb, nat_eqb, length, take, get_or}
use phinet.Prelude.Word.{be16, be32, from_be16, u16_mod}
use phinet.Prelude.Result.{Result, ok, crypto, guard, ◌>>=◌, ◌>>◌}
use phinet.Ntor.{slice}
use phinet.Rendezvous.{hs_auth_len}

abbrev pub cookie_len : ℕ
cookie_len = 20

-- `u16::from_be_bytes([buf[i], buf[i + 1]])`
abbrev pub be16_of : List ℕ → ℕ
be16_of (a ∷ b ∷ _) = from_be16 a b
be16_of _ = 0

pub record EstablishIntro : Type 0 where
  pub auth_key_pub : List ℕ
  pub sig : List ℕ

pub encode_establish_intro : EstablishIntro → List ℕ
encode_establish_intro e = 2 ∷ (be16 32 ++ (e.auth_key_pub ++ (be32 0 ++ (be16 32 ++ e.sig))))

pub decode_establish_intro : List ℕ → Result EstablishIntro
decode_establish_intro buf = do
  guard (leb (2 + 32 + 4 + 2 + 32) (length buf)) crypto
  guard (nat_eqb (get_or buf 0 0) 2) crypto
  guard (nat_eqb (be16_of (slice 1 2 buf)) 32 && leb (3 + 32 + 4 + 2 + 32) (length buf)) crypto
  guard (nat_eqb (be16_of (slice 39 2 buf)) 32 && leb (41 + 32) (length buf)) crypto
  ok (record { auth_key_pub = slice 3 32 buf; sig = slice 41 32 buf })

-- `EstablishRendezvous` is its cookie; `encode` copies it.
pub decode_establish_rendezvous : List ℕ → Result (List ℕ)
decode_establish_rendezvous buf = do
  guard (leb cookie_len (length buf)) crypto
  ok (take cookie_len buf)

pub record Introduce : Type 0 where
  pub auth_key_pub : List ℕ
  pub client_ntor_x : List ℕ
  pub enc_payload : List ℕ
  pub mac : List ℕ

pub encode_introduce : Introduce → List ℕ
encode_introduce i =
    i.auth_key_pub
    ++ (i.client_ntor_x ++ (be16 (length i.enc_payload % u16_mod) ++ (i.enc_payload ++ i.mac)))

pub decode_introduce : List ℕ → Result Introduce
decode_introduce buf = do
  guard (leb (32 + 32 + 2 + 32) (length buf)) crypto
  let enc_len = be16_of (slice 64 2 buf)
  guard (leb (66 + enc_len + 32) (length buf)) crypto
  ok (record {
    auth_key_pub = slice 0 32 buf;
    client_ntor_x = slice 32 32 buf;
    enc_payload = slice 66 enc_len buf;
    mac = slice (66 + enc_len) 32 buf;
  })

pub record Rendezvous1 : Type 0 where
  pub cookie : List ℕ
  pub server_y : List ℕ
  pub auth : List ℕ

pub encode_rendezvous1 : Rendezvous1 → List ℕ
encode_rendezvous1 r = r.cookie ++ (r.server_y ++ r.auth)

pub decode_rendezvous1 : List ℕ → Result Rendezvous1
decode_rendezvous1 buf = do
  guard (leb (cookie_len + 32 + hs_auth_len) (length buf)) crypto
  ok (record {
    cookie = slice 0 cookie_len buf;
    server_y = slice cookie_len 32 buf;
    auth = slice (cookie_len + 32) hs_auth_len buf;
  })

pub record Rendezvous2 : Type 0 where
  pub server_y : List ℕ
  pub auth : List ℕ

pub encode_rendezvous2 : Rendezvous2 → List ℕ
encode_rendezvous2 r = r.server_y ++ r.auth

pub decode_rendezvous2 : List ℕ → Result Rendezvous2
decode_rendezvous2 buf = do
  guard (leb (32 + hs_auth_len) (length buf)) crypto
  ok (record { server_y = slice 0 32 buf; auth = slice 32 hs_auth_len buf })
