-- ===== src/CircuitMgr/Path.antt =====
-- Cells along a whole circuit. The relays of the path are hop states in path order, each running
-- what `handle_forward_relay` and `handle_backward_relay` do to a cell.
pub mod Outbound
pub mod Inbound
use phinet.Prelude.{ℕ, zero, suc, ◌<◌, ◌≡◌, refl, List, [], ◌∷◌, none, some, Option, All, arith}
use phinet.Prelude.Word.{IsByte, u32_mod}
use phinet.Circuit.Relay.{RelayCell, Sha256, to_payload, from_payload, stamp_digest, tag32, IsWire}
use phinet.Circuit.Relay.RoundTrip.{from_payload-to_payload}
use phinet.Circuit.Relay.Digest.{HashIsBytes, stamp_digest-IsWire, stamp_digest-recognized}
use phinet.Circuit.Hop.{
  ChaCha20, HopState, onion_encrypt_backward, onion_decrypt_backward, onion_decrypt_forward,
}
use phinet.CircuitMgr.Origin.{recognize_backward}
use phinet.CircuitMgr.Forward.{recognize_forward}

-- A cell that can be sent: it fits the wire format, and is not marked.
pub record IsFresh (cell : RelayCell) : Type 0 where
  pub wire : IsWire cell
  pub unmarked : cell.recognized ≡ 0

module _ {sha : Sha256} (bytes : HashIsBytes sha) where
  -- A relay with the sender's forward hash recognizes the stamped cell, and moves to the
  -- sender's next hash.
  pub recognize_forward-stamped :
      (h : HopState sha) (cell : RelayCell)
      → IsFresh cell
      → let (stamped, next) = stamp_digest sha h.forward_digest cell in
        recognize_forward h (to_payload stamped)
        ≡ some (record h { forward_digest = next }, stamped)
  unfolding recognize_forward
  recognize_forward-stamped h cell f =
      let parsed =
        from_payload-to_payload _ (stamp_digest-IsWire sha bytes h.forward_digest cell f.wire) in
      let (seen, moved) = stamp_digest-recognized sha h.forward_digest cell f.unmarked in
      rw (parsed, recognize_forward, seen, moved) refl

  -- And a client with a relay's backward hash.
  pub recognize_backward-stamped :
      (h : HopState sha) (cell : RelayCell)
      → IsFresh cell
      → let (stamped, next) = stamp_digest sha h.backward_digest cell in
        recognize_backward h (to_payload stamped)
        ≡ some (record h { backward_digest = next }, stamped)
  unfolding recognize_backward
  recognize_backward-stamped h cell f =
      let parsed =
        from_payload-to_payload _ (stamp_digest-IsWire sha bytes h.backward_digest cell f.wire) in
      let (seen, moved) = stamp_digest-recognized sha h.backward_digest cell f.unmarked in
      rw (parsed, recognize_backward, seen, moved) refl

module _ (cipher : ChaCha20) {sha : Sha256} where
  -- A forward cell from the guard on: each relay peels, keeps what it recognizes, and passes the
  -- rest on; hop `n` is the last that it can reach.
  unfoldable pub deliver : ℕ → List (HopState sha) → List ℕ → List (HopState sha) × Option RelayCell
  deliver n [] payload = ([], none)
  deliver zero (h ∷ hs) payload =
      let (h', inner) = onion_decrypt_forward cipher h payload in
      elim (recognize_forward h' inner) [
        | some (h'', rc) ↦ (h'' ∷ hs, some rc)
        | none ↦ (h' ∷ hs, none)
      ]
  deliver (suc n) (h ∷ hs) payload =
      let (h', inner) = onion_decrypt_forward cipher h payload in
      elim (recognize_forward h' inner) [
        | some (h'', rc) ↦ (h'' ∷ hs, some rc)
        | none ↦ let (hs', found) = deliver n hs inner in (h' ∷ hs', found)
      ]

  -- No relay before hop `n` takes the cell for its own, as a 32-bit tag promises all but surely.
  abbrev pub PassesForward : ℕ → List (HopState sha) → List ℕ → Type 0
  PassesForward n [] payload = Unit
  PassesForward zero (h ∷ hs) payload = Unit
  PassesForward (suc n) (h ∷ hs) payload =
      let (h', inner) = onion_decrypt_forward cipher h payload in
      (recognize_forward h' inner ≡ none) × PassesForward n hs inner

  -- A cell that hop `n` makes and the relays before it send back: the states, the stamped cell
  -- and what the guard's connection carries.
  unfoldable pub reply :
      ℕ → RelayCell → List (HopState sha) → List (HopState sha) × RelayCell × List ℕ
  reply n cell [] = ([], cell, [])
  reply zero cell (h ∷ hs) =
      let (stamped, digest) = stamp_digest sha h.backward_digest cell in
      let (h', payload) =
        onion_encrypt_backward cipher (record h { backward_digest = digest })
          (to_payload stamped) in
      (h' ∷ hs, stamped, payload)
  reply (suc n) cell (h ∷ hs) =
      let (hs', stamped, inner) = reply n cell hs in
      let (h', outer) = onion_encrypt_backward cipher h inner in (h' ∷ hs', stamped, outer)

  -- The client does not take a cell of hop `n` for one of a hop before it.
  abbrev pub PassesBackward : ℕ → List (HopState sha) → List ℕ → Type 0
  PassesBackward n [] payload = Unit
  PassesBackward zero (h ∷ hs) payload = Unit
  PassesBackward (suc n) (h ∷ hs) payload =
      let (h', inner) = onion_decrypt_backward cipher h payload in
      (recognize_backward h' inner ≡ none) × PassesBackward n hs inner
