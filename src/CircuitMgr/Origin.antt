-- ===== src/CircuitMgr/Origin.antt =====
-- phinet-core/src/circuit_mgr.rs, the methods of `OriginCircuit` and `RelayCircuit`: the
-- circuit's flow control, and the onion of one cell.
use phinet.Prelude.{
  ℕ, zero, suc, ◌+◌, ◌-◌, Bool, List, [], ◌∷◌, Option, none, some, ltb, leb, length, if◌then◌else◌,
}
use phinet.Prelude.Word.{u64_mod}
use phinet.Prelude.Result.{Result, ok, err, crypto, handshake}
use phinet.Congestion.{can_send, on_send, on_sendme, cc_sendme_inc}
use phinet.Circuit.Relay.{
  RelayCell, Sha256, to_payload, from_payload, zero_digest, is_recognized_at, stamp_digest,
}
use phinet.Circuit.Hop.{ChaCha20, HopState, onion_encrypt_forward, onion_decrypt_backward}
use phinet.CircuitMgr.{OriginCircuit, RelayCircuit}

-- `usize::MAX`: recognized at the end-to-end layer.
abbrev pub e2e_hop : ℕ
e2e_hop = u64_mod - 1

module _ {sha : Sha256} {Channel : Type 0} where
  pub touch : ℕ → OriginCircuit sha Channel → OriginCircuit sha Channel
  touch now c = record c { last_activity = now }

  pub try_consume_circ_window :
      ℕ → OriginCircuit sha Channel → OriginCircuit sha Channel × Result (Unit {0})
  try_consume_circ_window now c =
      if can_send c.cc then (record c { cc = on_send now c.cc }, ok tt) else (c, err handshake)

  pub on_circ_sendme : ℕ → OriginCircuit sha Channel → OriginCircuit sha Channel
  on_circ_sendme now c = record c { cc = (on_sendme now c.cc).0 }

  -- `circ_delivered_since_sendme += 1`, and whether a SENDME is due.
  pub note_circ_delivered : OriginCircuit sha Channel → OriginCircuit sha Channel × Bool
  note_circ_delivered c =
      let n = c.circ_delivered_since_sendme + 1 in
      (record c { circ_delivered_since_sendme = n }, leb cc_sendme_inc n)

  pub reset_circ_delivered : OriginCircuit sha Channel → OriginCircuit sha Channel
  reset_circ_delivered c = record c { circ_delivered_since_sendme = 0 }

  -- The same four on the exit's side.
  pub exit_try_consume : ℕ → RelayCircuit sha Channel → RelayCircuit sha Channel × Result (Unit {0})
  exit_try_consume now r =
      if can_send r.cc then (record r { cc = on_send now r.cc }, ok tt) else (r, err handshake)

  pub exit_on_sendme : ℕ → RelayCircuit sha Channel → RelayCircuit sha Channel
  exit_on_sendme now r = record r { cc = (on_sendme now r.cc).0 }

  pub exit_note_delivered : RelayCircuit sha Channel → RelayCircuit sha Channel × Bool
  exit_note_delivered r =
      let n = r.circ_delivered_since_sendme + 1 in
      (record r { circ_delivered_since_sendme = n }, leb cc_sendme_inc n)

  pub exit_reset_delivered : RelayCircuit sha Channel → RelayCircuit sha Channel
  exit_reset_delivered r = record r { circ_delivered_since_sendme = 0 }

module _ {sha : Sha256} where
  -- The digest stamped with the forward hash of one hop of the list.
  unfoldable pub stamp_at : ℕ → RelayCell → List (HopState sha) → List (HopState sha) × RelayCell
  stamp_at i cell [] = ([], cell)
  stamp_at zero cell (h ∷ hs) =
      let (stamped, digest) = stamp_digest sha h.forward_digest cell in
      (record h { forward_digest = digest } ∷ hs, stamped)
  stamp_at (suc i) cell (h ∷ hs) = let (hs', stamped) = stamp_at i cell hs in (h ∷ hs', stamped)

  -- The cell that a payload is, where it is one recognized at the hop's backward hash, and the
  -- hop with that hash moved on.
  unfoldable pub recognize_backward : HopState sha → List ℕ → Option (HopState sha × RelayCell)
  recognize_backward h payload = elim (from_payload payload) [
    | err _ ↦ none
    | ok rc ↦
        if is_recognized_at sha payload h.backward_digest rc
        then some
            (record h { backward_digest = sha.absorb h.backward_digest (zero_digest payload) }, rc)
        else none
  ]

module _ (cipher : ChaCha20) {sha : Sha256} where
  -- `for i in (0..n).rev()`: the layer of hop `n - 1` first, the guard's last.
  unfoldable pub wrap : ℕ → List (HopState sha) → List ℕ → List (HopState sha) × List ℕ
  wrap zero hs payload = (hs, payload)
  wrap (suc n) [] payload = ([], payload)
  wrap (suc n) (h ∷ hs) payload =
      let (hs', inner) = wrap n hs payload in
      let (h', outer) = onion_encrypt_forward cipher h inner in (h' ∷ hs', outer)

  -- The loop over the hops: the payload with every layer off, unless a hop recognized its cell.
  unfoldable pub peel :
      ℕ → List (HopState sha) → List ℕ → List (HopState sha) × List ℕ × Option (ℕ × RelayCell)
  peel i [] payload = ([], payload, none)
  peel i (h ∷ hs) payload =
      let (h', inner) = onion_decrypt_backward cipher h payload in
      elim (recognize_backward h' inner) [
        | some (h'', rc) ↦ (h'' ∷ hs, inner, some (i, rc))
        | none ↦ let (hs', left, found) = peel (suc i) hs inner in (h' ∷ hs', left, found)
      ]

  module _ {Channel : Type 0} where
    -- The stamped cell, with the end-to-end layer where there is one.
    unfoldable pub seal :
        ℕ → RelayCell → OriginCircuit sha Channel → OriginCircuit sha Channel × List ℕ
    seal target cell c = elim c.e2e [
      | some e ↦
          let (stamped, digest) = stamp_digest sha e.forward_digest cell in
          let (e', payload) =
            onion_encrypt_forward cipher (record e { forward_digest = digest })
              (to_payload stamped) in
          (record c { e2e = some e' }, payload)
      | none ↦
          let (hops, stamped) = stamp_at target cell c.hops in
          (record c { hops = hops }, to_payload stamped)
    ]

    unfoldable pub encrypt_outbound :
        ℕ → ℕ → RelayCell → OriginCircuit sha Channel → OriginCircuit sha Channel × Result (List ℕ)
    encrypt_outbound now target cell c =
        if ltb target (length c.hops)
        then (let (c', sealed) = seal target cell c in
            let (hops, payload) = wrap (suc target) c'.hops sealed in
            (record c' { hops = hops; last_activity = now }, ok payload))
        else (c, err crypto)

    -- The last layer of a rendezvous circuit, for a payload that no hop recognized.
    unfoldable pub peel_e2e :
        ℕ → List ℕ → OriginCircuit sha Channel → OriginCircuit sha Channel × Option (ℕ × RelayCell)
    peel_e2e now payload c = elim c.e2e [
      | none ↦ (c, none)
      | some e ↦
          let (e', inner) = onion_decrypt_backward cipher e payload in
          elim (recognize_backward e' inner) [
            | some (e'', rc) ↦
                (record c { e2e = some e''; last_activity = now }, some (e2e_hop, rc))
            | none ↦ (record c { e2e = some e' }, none)
          ]
    ]

    unfoldable pub decrypt_inbound :
        ℕ → List ℕ → OriginCircuit sha Channel → OriginCircuit sha Channel × Option (ℕ × RelayCell)
    decrypt_inbound now payload c =
        let (hops, inner, found) = peel 0 c.hops payload in
        let peeled = record c { hops = hops } in
        elim found [
          | some hit ↦ (record peeled { last_activity = now }, some hit)
          | none ↦ peel_e2e now inner peeled
        ]
