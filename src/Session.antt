-- ===== src/Session.antt =====
-- The per-connection sessions of phinet-core/src/session.rs, with the AEAD and HKDF wrappers of
-- phinet-core/src/crypto.rs. ChaCha20-Poly1305 is the parameter `Aead`; HKDF is that of the circuit
-- handshake. Padding bytes and key pairs come from the system's random source and are left out.

mod Tests
pub mod Delivery
pub mod Nonces
use phinet.Prelude.{
  ℕ, ◌+◌, ◌-◌, ◌*◌, ◌/◌, ◌%◌, ◌^◌, ◌≡◌, List, [], ◌∷◌, ◌++◌, Option, none, some, Bool, true, false,
  ◌&&◌, ◌||◌, ltb, nat_eqb, if◌then◌else◌, take, drop, replicate, length,
}
use phinet.Prelude.Word.{u64_mod, codes, le64}
use phinet.Prelude.Result.{Result, ok, err, auth_failed, or_fail}
use phinet.Ntor.{Primitives}

pub record Aead : Type 0 where
  pub seal : List ℕ → List ℕ → List ℕ → List ℕ → List ℕ
  pub open_sealed : List ℕ → List ℕ → List ℕ → List ℕ → Option (List ℕ)
  pub open_sealed-seal :
      (key nonce aad plain : List ℕ)
      → open_sealed key nonce aad (seal key nonce aad plain) ≡ some plain
  -- A ciphertext ends in a tag of 16 bytes.
  pub length-seal :
      (key nonce aad plain : List ℕ) → length (seal key nonce aad plain) ≡ length plain + 16

pub record Session : Type 0 where
  pub send_key : List ℕ
  pub recv_key : List ℕ
  pub send_nonce : ℕ
  pub recv_nonce : ℕ
  pub session_id : List ℕ
  pub is_initiator : Bool

unfoldable pub nonce96 : ℕ → List ℕ
nonce96 ctr = replicate 4 0 ++ le64 ctr

-- Byte slices compare from the first byte on, a prefix before what it begins.
unfoldable pub bytes_lt : List ℕ → List ℕ → Bool
bytes_lt [] [] = false
bytes_lt [] (y ∷ ys) = true
bytes_lt (x ∷ xs) [] = false
bytes_lt (x ∷ xs) (y ∷ ys) = ltb x y || (nat_eqb x y && bytes_lt xs ys)

module _ (h : Primitives) where
  unfoldable pub hkdf_derive : List ℕ → List ℕ → List ℕ → ℕ → List ℕ
  hkdf_derive ikm salt info len = h.expand (h.extract salt ikm) info len

  unfoldable pub new_session : List ℕ → Bool → Session
  unfolding hkdf_derive
  new_session shared initiator =
      let km = hkdf_derive shared (codes "phinet-session-v2") (codes "keys") 64 in
      record {
        send_key = if initiator then take 32 km else drop 32 km;
        recv_key = if initiator then drop 32 km else take 32 km;
        send_nonce = 0;
        recv_nonce = 0;
        session_id = hkdf_derive shared (codes "phinet-session-v2") (codes "session-id") 16;
        is_initiator = initiator;
      }

  unfoldable pub rotation_link_key : Session → List ℕ
  unfolding hkdf_derive bytes_lt
  rotation_link_key s =
      hkdf_derive
        (if bytes_lt s.send_key s.recv_key
          then s.send_key ++ s.recv_key
          else s.recv_key ++ s.send_key)
        (codes "phinet-cert-rotate-v1") (codes "link") 32

unfoldable pub aad_send : Session → List ℕ
aad_send s = s.session_id ++ (if s.is_initiator then 0 else 1) ∷ []

unfoldable pub aad_recv : Session → List ℕ
aad_recv s = s.session_id ++ (if s.is_initiator then 1 else 0) ∷ []

-- `(ctr & ((1 << 63) - 1)) | role`: the low 63 bits, and the role in bit 63.
abbrev pub with_role : Bool → ℕ → ℕ
with_role responder ctr = ctr % 2 ^ 63 + (if responder then 2 ^ 63 else 0)

unfoldable pub nonce_ctr_send : Session → ℕ → ℕ
nonce_ctr_send s ctr = if s.is_initiator then with_role false ctr else with_role true ctr

unfoldable pub nonce_ctr_recv : Session → ℕ → ℕ
nonce_ctr_recv s ctr = if s.is_initiator then with_role true ctr else with_role false ctr

module _ (a : Aead) where
  unfoldable pub encrypt : List ℕ → Session → Session × List ℕ
  unfolding nonce96 nonce_ctr_send aad_send
  encrypt plaintext s = (
    record s { send_nonce = (s.send_nonce + 1) % u64_mod },
    a.seal s.send_key (nonce96 (nonce_ctr_send s s.send_nonce)) (aad_send s) plaintext,
  )

  -- The receive counter moves on whether or not the ciphertext is authentic.
  unfoldable pub decrypt : List ℕ → Session → Session × Result (List ℕ)
  unfolding nonce96 nonce_ctr_recv aad_recv
  decrypt ciphertext s = (
    record s { recv_nonce = (s.recv_nonce + 1) % u64_mod },
    or_fail
        (a.open_sealed s.recv_key (nonce96 (nonce_ctr_recv s s.recv_nonce)) (aad_recv s) ciphertext)
        auth_failed,
  )

abbrev pub cell_size : ℕ
cell_size = 512

-- `TrafficPadder`: a dummy cell is 0xFF and random bytes.
unfoldable pub dummy_cell : List ℕ → List ℕ
dummy_cell random = 0xFF ∷ take (cell_size - 1) random

unfoldable pub is_dummy : List ℕ → Bool
is_dummy [] = false
is_dummy (b ∷ _) = nat_eqb b 0xFF
