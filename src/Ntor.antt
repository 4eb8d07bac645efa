-- ===== src/Ntor.antt =====
-- phinet-core/src/ntor.rs: the circuit handshake. X25519, HKDF and HMAC are the crates'; their use
-- is a parameter. `expand` fails only beyond 255 blocks or for a short key, which the fixed sizes
-- here exclude, so it is total. A secret drawn from `OsRng` is an argument.
pub mod Agreement
mod Tests
use phinet.Prelude.{ℕ, ◌+◌, Bool, List, [], ◌++◌, ◌∷◌, ◌&&◌, ◌≡◌, take, drop, length, if◌then◌else◌}
use phinet.Prelude.Eq.{list_eqb, nat_eq}
use phinet.Prelude.Word.{codes}
use phinet.Prelude.Result.{Result, ok, err, handshake, auth_failed}

abbrev pub client_handshake_len : ℕ
client_handshake_len = 32 + 32 + 32

abbrev pub server_handshake_len : ℕ
server_handshake_len = 32 + 32

abbrev ntor_keys_bytes : ℕ
ntor_keys_bytes = 104

abbrev protoid : List ℕ
protoid = codes "ntor-x25519-chacha20-phinet-v1"

abbrev t_key : List ℕ
t_key = codes "phinet:ntor:t_key"

abbrev t_verify : List ℕ
t_verify = codes "phinet:ntor:t_verify"

abbrev t_expand : List ℕ
t_expand = codes "phinet:ntor:t_expand"

abbrev m_server : List ℕ
m_server = codes "Server"

-- X25519, HKDF over SHA-256 and HMAC over SHA-256, on byte strings.
pub record Primitives : Type 0 where
  pub public_key : List ℕ → List ℕ
  pub diffie_hellman : List ℕ → List ℕ → List ℕ
  pub extract : List ℕ → List ℕ → List ℕ
  pub expand : List ℕ → List ℕ → ℕ → List ℕ
  pub hmac : List ℕ → List ℕ → List ℕ

pub record NtorKeys : Type 0 where
  pub forward_digest_seed : List ℕ
  pub backward_digest_seed : List ℕ
  pub forward_key : List ℕ
  pub backward_key : List ℕ

-- `km[from..to]`
abbrev pub slice : ℕ → ℕ → List ℕ → List ℕ
slice from len bytes = take len (drop from bytes)

pub from_bytes : List ℕ → NtorKeys
from_bytes km = record {
  forward_digest_seed = slice 0 20 km;
  backward_digest_seed = slice 20 20 km;
  forward_key = slice 40 32 km;
  backward_key = slice 72 32 km;
}

pub record ClientHandshake : Type 0 where
  pub x_priv : List ℕ
  pub x_pub : List ℕ
  pub server_id : List ℕ
  pub server_b : List ℕ

module _ (prim : Primitives) where
  open prim use {public_key, diffie_hellman, extract, expand, hmac}

  -- KEY_SEED and the key of the AUTH tag.
  pub derive_seed_verify : List ℕ → List ℕ → List ℕ → List ℕ → List ℕ → List ℕ → List ℕ × List ℕ
  derive_seed_verify ss_ephem ss_static server_id server_b x_pub y_pub =
      let secret =
        ss_ephem ++ (ss_static ++ (server_id ++ (server_b ++ (x_pub ++ (y_pub ++ protoid))))) in
      let key_seed = extract t_key secret in (key_seed, expand key_seed t_verify 32)

  pub compute_auth : List ℕ → List ℕ → List ℕ → List ℕ → List ℕ → List ℕ
  compute_auth verify server_id server_b y_pub x_pub =
      hmac verify (server_id ++ (server_b ++ (y_pub ++ (x_pub ++ (protoid ++ m_server)))))

  -- The keys from KEY_SEED.
  session_keys : List ℕ → NtorKeys
  session_keys key_seed = from_bytes (expand key_seed t_expand ntor_keys_bytes)

  pub client_handshake_start : List ℕ → List ℕ → List ℕ → ClientHandshake × List ℕ
  client_handshake_start x_priv server_id server_b =
      let x_pub = public_key x_priv in
      (
        record { x_priv = x_priv; x_pub = x_pub; server_id = server_id; server_b = server_b },
        server_id ++ (server_b ++ x_pub),
      )

  pub client_handshake_finish : ClientHandshake → List ℕ → Result NtorKeys
  unfolding derive_seed_verify compute_auth session_keys
  client_handshake_finish hs server_msg =
      let y_pub = slice 0 32 server_msg in
      let auth_recv = slice 32 32 server_msg in
      let ss_yx = diffie_hellman hs.x_priv y_pub in
      let ss_bx = diffie_hellman hs.x_priv hs.server_b in
      let (key_seed, verify) =
        derive_seed_verify ss_yx ss_bx hs.server_id hs.server_b hs.x_pub y_pub in
      let auth_expect = compute_auth verify hs.server_id hs.server_b y_pub hs.x_pub in
      if list_eqb auth_recv auth_expect then ok (session_keys key_seed) else err auth_failed

  pub server_handshake : List ℕ → List ℕ → List ℕ → List ℕ → List ℕ → Result (NtorKeys × List ℕ)
  unfolding derive_seed_verify compute_auth session_keys
  server_handshake y_priv server_id server_b_pub server_b_secret client_msg =
      let x_pub = slice 64 32 client_msg in
      let y_pub = public_key y_priv in
      let ss_xy = diffie_hellman y_priv x_pub in
      let ss_xb = diffie_hellman server_b_secret x_pub in
      let (key_seed, verify) = derive_seed_verify ss_xy ss_xb server_id server_b_pub x_pub y_pub in
      let auth = compute_auth verify server_id server_b_pub y_pub x_pub in
      if list_eqb (slice 0 32 client_msg) server_id
        && list_eqb (slice 32 32 client_msg) server_b_pub
      then ok (session_keys key_seed, y_pub ++ auth)
      else err handshake
