-- ===== src/CircuitMgr/Path/Outbound.antt =====
-- The client's cell reaches the hop that it is for.
use phinet.Prelude.{
  ℕ, zero, suc, ◌<◌, ◌≡◌, refl, List, [], ◌∷◌, ap, none, some, length, lt→ltb, arith,
}
use mathlib.Core.Path.{subst}
use phinet.Prelude.Result.{Result, ok, err}
use phinet.Circuit.Relay.Digest.{HashIsBytes, stamp_digest-fields}
use phinet.Circuit.Relay.{RelayCell, Sha256, to_payload, stamp_digest}
use phinet.Circuit.Hop.{ChaCha20, HopState, onion_decrypt_forward, onion_encrypt_forward}
use phinet.Circuit.Hop.Layers.{decrypt_forward-encrypt_forward, decrypt_forward-stamped}
use phinet.CircuitMgr.{OriginCircuit}
use phinet.CircuitMgr.Origin.{stamp_at, wrap, seal, encrypt_outbound}
use phinet.CircuitMgr.Forward.{recognize_forward}
use phinet.CircuitMgr.Path.{IsFresh, deliver, PassesForward, recognize_forward-stamped}

module _ (cipher : ChaCha20) {sha : Sha256} where
  -- One relay that passes the cell on, and one that takes it.
  deliver_past :
      (n : ℕ) (h : HopState sha) (hs : List (HopState sha)) (payload : List ℕ)
      → let (h', inner) = onion_decrypt_forward cipher h payload in
        recognize_forward h' inner ≡ none
        → deliver cipher (suc n) (h ∷ hs) payload
          ≡ (h' ∷ (deliver cipher n hs inner).0, (deliver cipher n hs inner).1)
  unfolding deliver
  deliver_past n h hs payload e = rw (e, deliver) refl

  deliver_here :
      (h h'' : HopState sha) (hs : List (HopState sha)) (payload : List ℕ) (rc : RelayCell)
      → let (h', inner) = onion_decrypt_forward cipher h payload in
        recognize_forward h' inner ≡ some (h'', rc)
        → deliver cipher 0 (h ∷ hs) payload ≡ (h'' ∷ hs, some rc)
  unfolding deliver
  deliver_here h h'' hs payload rc e = rw (e, deliver) refl

module _ (cipher : ChaCha20) {sha : Sha256} (bytes : HashIsBytes sha) where
  deliver-wrap :
      (n : ℕ) (cell : RelayCell) (hs : List (HopState sha))
      → IsFresh cell
      → n < length hs
      → let (hs', stamped) = stamp_at n cell hs in
        let (hs'', payload) = wrap cipher (suc n) hs' (to_payload stamped) in
        PassesForward cipher n hs payload → deliver cipher n hs payload ≡ (hs'', some stamped)
  unfolding wrap stamp_at
  deliver-wrap n cell [] f lt p = absurd (omega arith)
  deliver-wrap zero cell (h ∷ hs) f lt p =
      let (stamped, next) = stamp_digest sha h.forward_digest cell in
      let sent =
        onion_encrypt_forward cipher (record h { forward_digest = next }) (to_payload stamped) in
      let (off, same) = decrypt_forward-stamped cipher h next (to_payload stamped) in
      let seen =
        recognize_forward-stamped bytes (record (sent.0) { forward_digest = h.forward_digest }) cell
          f in
      deliver_here cipher h sent.0 hs sent.1 stamped (rw (off, same) seen)
  deliver-wrap (suc n) cell (h ∷ hs) f lt p =
      let inner = wrap cipher (suc n) (stamp_at n cell hs).0 (to_payload (stamp_at n cell hs).1) in
      let off = decrypt_forward-encrypt_forward cipher h inner.1 in
      let next = deliver-wrap n cell hs f (omega arith) (rw (← ap (λ q. q.1) off) (p.1)) in
      rw (deliver_past cipher n h hs _ p.0, off, next) refl

stamp_at_fields :
    {sha : Sha256} (n : ℕ) (cell : RelayCell) (hs : List (HopState sha))
    → record ((stamp_at n cell hs).1) { digest = cell.digest } ≡ cell
unfolding stamp_at
stamp_at_fields n cell [] = refl
stamp_at_fields {sha = sha} zero cell (h ∷ hs) = stamp_digest-fields sha h.forward_digest cell
stamp_at_fields (suc n) cell (h ∷ hs) = stamp_at_fields n cell hs

-- The sealed payload, where there is one, gets past the relays before its hop.
abbrev pub SealedPasses :
    (cipher : ChaCha20) {sha : Sha256} → ℕ → List (HopState sha) → Result (List ℕ) → Type 0
SealedPasses cipher target hs (ok payload) = PassesForward cipher target hs payload
SealedPasses cipher target hs (err e) = Unit {0}

encrypt_outbound_plain :
    (cipher : ChaCha20) {sha : Sha256} {Channel : Type 0} (now target : ℕ) (cell : RelayCell)
    (c : OriginCircuit sha Channel)
    → c.e2e ≡ none
    → target < length c.hops
    → let (hs, stamped) = stamp_at target cell c.hops in
      let (hops, payload) = wrap cipher (suc target) hs (to_payload stamped) in
      encrypt_outbound cipher now target cell c
      ≡ (record c { hops = hops; last_activity = now }, ok payload)
unfolding encrypt_outbound seal
encrypt_outbound_plain cipher now target cell c plain inside =
    rw (lt→ltb target (length c.hops) inside, plain) refl

-- On a circuit without an end-to-end layer whose relays hold the client's states, a cell for a hop
-- that exists is sent; unless an earlier relay takes it for its own, that hop gets the cell, all but
-- its digest as the client made it, and every relay's state is again the client's.
pub encrypt_outbound-deliver :
    (cipher : ChaCha20) (sha : Sha256) (bytes : HashIsBytes sha) (Channel : Type 0) (now target : ℕ)
    (cell : RelayCell) (c : OriginCircuit sha Channel)
    → c.e2e ≡ none
    → target < length c.hops
    → IsFresh cell
    → let (c', sealed) = encrypt_outbound cipher now target cell c in
      SealedPasses cipher target c.hops sealed
      → (payload : List ℕ) × (stamped : RelayCell) × (sealed ≡ ok payload)
        × (deliver cipher target c.hops payload ≡ (c'.hops, some stamped))
        × (record stamped { digest = cell.digest } ≡ cell)
encrypt_outbound-deliver cipher sha bytes Channel now target cell c plain inside f passes =
    let (hs, stamped) = stamp_at target cell c.hops in
    let payload = (wrap cipher (suc target) hs (to_payload stamped)).1 in
    let sends = encrypt_outbound_plain cipher now target cell c plain inside in
    let passes' : PassesForward cipher target c.hops payload =
      subst (SealedPasses cipher target c.hops) (ap (λ q. q.1) sends) passes in
    rw sends (
      payload,
      stamped,
      refl,
      deliver-wrap cipher bytes target cell c.hops f inside passes',
      stamp_at_fields target cell c.hops,
    )
