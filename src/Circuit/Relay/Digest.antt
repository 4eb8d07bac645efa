-- ===== src/Circuit/Relay/Digest.antt =====
-- The rolling digest: what the sender stamps the receiver recognizes, and both hashes move alike.
use phinet.Prelude.{ℕ, ◌<◌, ◌≡◌, ◌≢◌, refl, List, [], ◌∷◌, true, false, All, arith}
use phinet.Prelude.Word.{u32_mod, IsByte}
use phinet.Circuit.Relay.{
  RelayCell, Sha256, stamp_digest, is_recognized_at, to_payload, zero_digest, tag32, IsWire,
}

module _ (sha : Sha256) where
  zero_digest-to_payload :
      (r : RelayCell) (d : ℕ)
      → zero_digest (to_payload (record r { digest = d }))
        ≡ zero_digest (to_payload (record r { digest = 0 }))
  unfolding to_payload zero_digest
  zero_digest-to_payload r d = refl

  -- A stamped cell is recognized at the hash it was stamped with, and the receiver's update with
  -- the digest field cleared gives the sender's new hash.
  pub stamp_digest-recognized :
      (running : sha.State) (r : RelayCell)
      → r.recognized ≡ 0
      → let (stamped, next) = stamp_digest sha running r in
        (is_recognized_at sha (to_payload stamped) running stamped ≡ true)
        × (sha.absorb running (zero_digest (to_payload stamped)) ≡ next)
  unfolding stamp_digest is_recognized_at
  stamp_digest-recognized running r h =
      let next = sha.absorb running (zero_digest (to_payload (record r { digest = 0 }))) in
      let same = zero_digest-to_payload r (tag32 (sha.finalize next)) in
      rw (same, h) (ground arith, refl)

  -- A cell with the recognized field set, or with any other digest, is passed on.
  pub not_recognized :
      (payload : List ℕ) (running : sha.State) (r : RelayCell)
      → tag32 (sha.finalize (sha.absorb running (zero_digest payload))) ≢ r.digest
      → is_recognized_at sha payload running r ≡ false
  unfolding is_recognized_at
  not_recognized payload running r h = ground arith

-- What SHA-256 gives are bytes.
abbrev pub HashIsBytes : Sha256 → Type 0
HashIsBytes sha = (s : sha.State) → All IsByte (sha.finalize s)

tag32-fits : (tag : List ℕ) → All IsByte tag → tag32 tag < u32_mod
unfolding tag32
tag32-fits (a ∷ b ∷ c ∷ d ∷ rest) h = omega (arith, h)
tag32-fits [] h = omega arith
tag32-fits (a ∷ []) h = omega arith
tag32-fits (a ∷ b ∷ []) h = omega arith
tag32-fits (a ∷ b ∷ c ∷ []) h = omega arith

module _ (sha : Sha256) (bytes : HashIsBytes sha) where
  -- Stamping leaves a cell that fits the wire format, in all but the digest what it was.
  pub stamp_digest-IsWire :
      (running : sha.State) (cell : RelayCell)
      → IsWire cell
      → IsWire (stamp_digest sha running cell).0
  unfolding stamp_digest
  stamp_digest-IsWire running cell w = record {
    recognized_fits = w.recognized_fits;
    stream_fits = w.stream_fits;
    digest_fits = tag32-fits _ (bytes _);
    data_fits = w.data_fits;
  }

-- Stamping changes the digest and nothing else.
pub stamp_digest-fields :
    (sha : Sha256) (running : sha.State) (cell : RelayCell)
    → record ((stamp_digest sha running cell).0) { digest = cell.digest } ≡ cell
unfolding stamp_digest
stamp_digest-fields sha running cell = refl
