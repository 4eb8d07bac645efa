-- ===== src/Wire/Chunks.antt =====
-- How phinet-core/src/wire.rs cuts a payload into chunks.
use phinet.Prelude.{
  ℕ, zero, suc, ◌+◌, ◌-◌, ◌/◌, ◌≤◌, ◌≡◌, refl, List, [], ◌∷◌, ◌++◌, arith, length, drop,
  length-take, length-drop, take-append-drop, All,
}
use phinet.Wire.{cell_data, chunks}
use phinet.Wire.Cells.{Keeps}

unfoldable pub joined : List (List ℕ) → List ℕ
joined [] = []
joined (chunk ∷ later) = chunk ++ joined later

-- The chunks of a payload are the payload, and each fits a cell.
pub joined-chunks :
    (turns : ℕ) (payload : List ℕ)
    → length payload ≤ turns
    → joined (chunks turns payload) ≡ payload
unfolding joined chunks
joined-chunks zero [] fits = refl
joined-chunks zero (b ∷ payload) fits = absurd (omega arith)
joined-chunks (suc turns) [] fits = refl
joined-chunks (suc turns) (b ∷ payload) fits =
    let cut = length-drop cell_data (b ∷ payload) in
    let rest = joined-chunks turns (drop cell_data (b ∷ payload)) (omega (arith, cut)) in
    rw rest (take-append-drop cell_data (b ∷ payload))

pub chunks-Keeps : (turns : ℕ) (payload : List ℕ) → All Keeps (chunks turns payload)
unfolding chunks
chunks-Keeps zero payload = tt
chunks-Keeps (suc turns) [] = tt
chunks-Keeps (suc turns) (b ∷ payload) = (
  omega (arith, length-take cell_data (b ∷ payload)),
  chunks-Keeps turns (drop cell_data (b ∷ payload)),
)

pub length-chunks :
    (turns : ℕ) (payload : List ℕ)
    → length payload ≤ turns
    → length (chunks turns payload) ≡ (length payload + (cell_data - 1)) / cell_data
unfolding chunks
length-chunks zero [] fits = refl
length-chunks zero (b ∷ payload) fits = absurd (omega arith)
length-chunks (suc turns) [] fits = refl
length-chunks (suc turns) (b ∷ payload) fits =
    let cut = length-drop cell_data (b ∷ payload) in
    let rest = length-chunks turns (drop cell_data (b ∷ payload)) (omega (arith, cut)) in
    omega (arith, rest, cut)
