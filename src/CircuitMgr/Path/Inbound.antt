-- ===== src/CircuitMgr/Path/Inbound.antt =====
-- What a relay of the path sends back, the client reads, and knows the hop that sent it.
use phinet.Prelude.{ℕ, zero, suc, ◌+◌, ◌<◌, ◌≡◌, refl, List, [], ◌∷◌, ap, none, some, length, arith}
use phinet.Circuit.Relay.Digest.{HashIsBytes}
use phinet.Circuit.Relay.{RelayCell, Sha256, to_payload, stamp_digest}
use phinet.Circuit.Hop.{ChaCha20, HopState, onion_decrypt_backward, onion_encrypt_backward}
use phinet.Circuit.Hop.Layers.{decrypt_backward-encrypt_backward, decrypt_backward-stamped}
use phinet.CircuitMgr.{OriginCircuit}
use phinet.CircuitMgr.Origin.{peel, decrypt_inbound, recognize_backward}
use phinet.CircuitMgr.Path.{IsFresh, reply, PassesBackward, recognize_backward-stamped}

module _ (cipher : ChaCha20) {sha : Sha256} where
  -- One layer off a cell of a later hop, and off a cell of this one.
  peel_past :
      (i : ℕ) (h : HopState sha) (hs : List (HopState sha)) (payload : List ℕ)
      → let (h', inner) = onion_decrypt_backward cipher h payload in
        let (hs', left, found) = peel cipher (suc i) hs inner in
        recognize_backward h' inner ≡ none
        → peel cipher i (h ∷ hs) payload ≡ (h' ∷ hs', left, found)
  unfolding peel
  peel_past i h hs payload e = rw (e, peel) refl

  peel_here :
      (i : ℕ) (h h'' : HopState sha) (hs : List (HopState sha)) (payload : List ℕ) (rc : RelayCell)
      → let (h', inner) = onion_decrypt_backward cipher h payload in
        recognize_backward h' inner ≡ some (h'', rc)
        → peel cipher i (h ∷ hs) payload ≡ (h'' ∷ hs, inner, some (i, rc))
  unfolding peel
  peel_here i h h'' hs payload rc e = rw (e, peel) refl

module _ (cipher : ChaCha20) {sha : Sha256} (bytes : HashIsBytes sha) where
  peel-reply :
      (i n k : ℕ) (cell : RelayCell) (hs : List (HopState sha))
      → i + n ≡ k
      → IsFresh cell
      → n < length hs
      → let (hs', stamped, payload) = reply cipher n cell hs in
        PassesBackward cipher n hs payload
        → (left : List ℕ) × (peel cipher i hs payload ≡ (hs', left, some (k, stamped)))
  unfolding reply
  peel-reply i n k cell [] at_k f lt p = absurd (omega arith)
  peel-reply i zero k cell (h ∷ hs) at_k f lt p =
      let (stamped, next) = stamp_digest sha h.backward_digest cell in
      let sent =
        onion_encrypt_backward cipher (record h { backward_digest = next }) (to_payload stamped) in
      let (off, same) = decrypt_backward-stamped cipher h next (to_payload stamped) in
      let seen =
        recognize_backward-stamped bytes (record (sent.0) { backward_digest = h.backward_digest })
          cell f in
      let here : i ≡ k = omega arith in
      (
        (onion_decrypt_backward cipher h sent.1).1,
        rw (← here) (peel_here cipher i h sent.0 hs sent.1 stamped (rw (off, same) seen)),
      )
  peel-reply i (suc n) k cell (h ∷ hs) at_k f lt p =
      let (hs', stamped, inner) = reply cipher n cell hs in
      let off = decrypt_backward-encrypt_backward cipher h inner in
      let (left, rest) =
        peel-reply (suc i) n k cell hs (omega arith) f (omega arith)
          (rw (← ap (λ q. q.1) off) (p.1)) in
      (left, rw (peel_past cipher i h hs _ p.0, off, rest) refl)

-- A cell that hop `n` of a circuit stamps and sends back through the relays before it is read by
-- the client as that hop's, unless it is mistaken for an earlier hop's, and every relay's state is
-- the client's again.
pub decrypt_inbound-reply :
    (cipher : ChaCha20) (sha : Sha256) (bytes : HashIsBytes sha) (Channel : Type 0) (now n : ℕ)
    (cell : RelayCell) (c : OriginCircuit sha Channel)
    → IsFresh cell
    → n < length c.hops
    → let (hops, stamped, payload) = reply cipher n cell c.hops in
      PassesBackward cipher n c.hops payload
      → decrypt_inbound cipher now payload c
        ≡ (record c { hops = hops; last_activity = now }, some (n, stamped))
unfolding decrypt_inbound
decrypt_inbound-reply cipher sha bytes Channel now n cell c f inside passes =
    let (left, e) = peel-reply cipher bytes 0 n n cell c.hops (omega arith) f inside passes in
    rw (e, decrypt_inbound, e) refl
