-- ===== src/Circuit/Hop/Layers.antt =====
-- One onion layer: both ends hold equal hop states, and stay equal cell after cell.
use phinet.Prelude.{ℕ, ◌≡◌, refl, List, length, true, false}
use phinet.Circuit.Relay.{Sha256}
use phinet.Rendezvous.{E2eKeys}
use phinet.Circuit.Hop.{
  ChaCha20, HopState, crypt_in_place, onion_encrypt_forward, onion_decrypt_forward,
  onion_encrypt_backward, onion_decrypt_backward, from_e2e_keys,
}

module _ (cipher : ChaCha20) {sha : Sha256} where
  -- A forward layer is taken off by the other end's equal state, and the states agree again.
  pub decrypt_forward-encrypt_forward :
      (hop : HopState sha) (payload : List ℕ)
      → onion_decrypt_forward cipher hop (onion_encrypt_forward cipher hop payload).1
        ≡ ((onion_encrypt_forward cipher hop payload).0, payload)
  unfolding onion_decrypt_forward onion_encrypt_forward crypt_in_place
  decrypt_forward-encrypt_forward hop payload = rw cipher.twice

  pub decrypt_backward-encrypt_backward :
      (hop : HopState sha) (payload : List ℕ)
      → onion_decrypt_backward cipher hop (onion_encrypt_backward cipher hop payload).1
        ≡ ((onion_encrypt_backward cipher hop payload).0, payload)
  unfolding onion_decrypt_backward onion_encrypt_backward crypt_in_place
  decrypt_backward-encrypt_backward hop payload = rw cipher.twice

  pub length-encrypt_forward :
      (hop : HopState sha) (payload : List ℕ)
      → length (onion_encrypt_forward cipher hop payload).1 ≡ length payload
  unfolding onion_encrypt_forward crypt_in_place
  length-encrypt_forward hop payload = cipher.keeps_length _ _ payload

  -- A layer put on after the digest moved comes off at a state whose digest did not move yet.
  pub decrypt_forward-stamped :
      (hop : HopState sha) (digest : sha.State) (payload : List ℕ)
      → let sent = onion_encrypt_forward cipher (record hop { forward_digest = digest }) payload in
        (onion_decrypt_forward cipher hop sent.1
          ≡ (record (sent.0) { forward_digest = hop.forward_digest }, payload))
        × (sent.0 ≡ record (sent.0) { forward_digest = digest })
  unfolding onion_decrypt_forward onion_encrypt_forward crypt_in_place
  decrypt_forward-stamped hop digest payload = (rw cipher.twice, refl)

  -- A layer put on after the digest moved comes off at a state whose digest did not move yet.
  pub decrypt_backward-stamped :
      (hop : HopState sha) (digest : sha.State) (payload : List ℕ)
      → let sent =
          onion_encrypt_backward cipher (record hop { backward_digest = digest }) payload in
        (onion_decrypt_backward cipher hop sent.1
          ≡ (record (sent.0) { backward_digest = hop.backward_digest }, payload))
        × (sent.0 ≡ record (sent.0) { backward_digest = digest })
  unfolding onion_decrypt_backward onion_encrypt_backward crypt_in_place
  decrypt_backward-stamped hop digest payload = (rw cipher.twice, refl)

-- The two orientations of an end-to-end layer: what the client encrypts forward the service
-- decrypts backward, and the other way round.
pub e2e_orientations :
    (cipher : ChaCha20) (sha : Sha256) (keys : E2eKeys) (payload : List ℕ)
    → let client = from_e2e_keys sha keys true in
      let service = from_e2e_keys sha keys false in
      ((onion_decrypt_backward cipher service (onion_encrypt_forward cipher client payload).1).1
        ≡ payload)
      × ((onion_decrypt_backward cipher client (onion_encrypt_forward cipher service payload).1).1
          ≡ payload)
      × (client.forward_digest ≡ service.backward_digest)
      × (client.backward_digest ≡ service.forward_digest)
unfolding onion_decrypt_backward onion_encrypt_forward crypt_in_place from_e2e_keys
e2e_orientations cipher sha keys payload = (rw cipher.twice, rw cipher.twice, refl, refl)
