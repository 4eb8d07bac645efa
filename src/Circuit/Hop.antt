-- ===== src/Circuit/Hop.antt =====
-- phinet-core/src/circuit.rs, `HopState` and the onion layers. ChaCha20 is the chacha20 crate's: a
-- parameter, with its documented law that applying the same keystream twice gives the data back.
pub mod Layers
use phinet.Prelude.{
  ℕ, zero, suc, ◌+◌, ◌%◌, ◌*◌, ◌/◌, ◌≡◌, List, [], ◌∷◌, ◌++◌, replicate, length, Bool, true, false,
  if◌then◌else◌,
}
use phinet.Prelude.Word.{u64_mod}
use phinet.Ntor.{NtorKeys}
use phinet.Rendezvous.{E2eKeys}
use phinet.Circuit.Relay.{Sha256}

-- `ChaCha20::new(key, nonce)` and `apply_keystream` on a buffer.
pub record ChaCha20 : Type 0 where
  pub apply_keystream : List ℕ → List ℕ → List ℕ → List ℕ
  pub twice :
      (key nonce buf : List ℕ) → apply_keystream key nonce (apply_keystream key nonce buf) ≡ buf
  pub keeps_length : (key nonce buf : List ℕ) → length (apply_keystream key nonce buf) ≡ length buf

-- The low `n` bytes, least significant first.
unfoldable pub le_bytes : ℕ → ℕ → List ℕ
le_bytes zero x = []
le_bytes (suc n) x = x % 256 ∷ le_bytes n (x / 256)

unfoldable pub nonce96 : ℕ → List ℕ
unfolding le_bytes
nonce96 ctr = replicate 4 0 ++ le_bytes 8 ctr

pub record HopState (sha : Sha256) : Type 0 where
  pub forward_key : List ℕ
  pub backward_key : List ℕ
  pub forward_nonce : ℕ  -- u64
  pub backward_nonce : ℕ  -- u64
  pub forward_digest : sha.State
  pub backward_digest : sha.State

module _ (sha : Sha256) where
  pub from_ntor : NtorKeys → HopState sha
  from_ntor keys = record {
    forward_key = keys.forward_key;
    backward_key = keys.backward_key;
    forward_nonce = 0;
    backward_nonce = 0;
    forward_digest = sha.absorb sha.start keys.forward_digest_seed;
    backward_digest = sha.absorb sha.start keys.backward_digest_seed;
  }

  pub from_e2e_keys : E2eKeys → Bool → HopState sha
  from_e2e_keys keys is_client = record {
    forward_key = if is_client then keys.client_to_hs_key else keys.hs_to_client_key;
    backward_key = if is_client then keys.hs_to_client_key else keys.client_to_hs_key;
    forward_nonce = 0;
    backward_nonce = 0;
    forward_digest =
        sha.absorb sha.start (if is_client then keys.c2h_digest_seed else keys.h2c_digest_seed);
    backward_digest =
        sha.absorb sha.start (if is_client then keys.h2c_digest_seed else keys.c2h_digest_seed);
  }

module _ (cipher : ChaCha20) where
  unfoldable pub crypt_in_place : List ℕ → ℕ → List ℕ → List ℕ
  crypt_in_place key nonce_ctr buf = cipher.apply_keystream key (nonce96 nonce_ctr) buf

  module _ {sha : Sha256} where
    -- The hop after the call, and the payload.
    unfoldable pub onion_encrypt_forward : HopState sha → List ℕ → HopState sha × List ℕ
    onion_encrypt_forward hop payload = (
      record hop { forward_nonce = (hop.forward_nonce + 1) % u64_mod },
      crypt_in_place hop.forward_key hop.forward_nonce payload,
    )

    unfoldable pub onion_decrypt_forward : HopState sha → List ℕ → HopState sha × List ℕ
    onion_decrypt_forward hop payload = (
      record hop { forward_nonce = (hop.forward_nonce + 1) % u64_mod },
      crypt_in_place hop.forward_key hop.forward_nonce payload,
    )

    unfoldable pub onion_encrypt_backward : HopState sha → List ℕ → HopState sha × List ℕ
    onion_encrypt_backward hop payload = (
      record hop { backward_nonce = (hop.backward_nonce + 1) % u64_mod },
      crypt_in_place hop.backward_key hop.backward_nonce payload,
    )

    unfoldable pub onion_decrypt_backward : HopState sha → List ℕ → HopState sha × List ℕ
    onion_decrypt_backward hop payload = (
      record hop { backward_nonce = (hop.backward_nonce + 1) % u64_mod },
      crypt_in_place hop.backward_key hop.backward_nonce payload,
    )
