-- ===== src/Wire/Cells.antt =====
-- One link cell of phinet-core/src/wire.rs, from one end of a session to the other.
use phinet.Prelude.{
  ℕ, ◌+◌, ◌-◌, ◌*◌, ◌/◌, ◌%◌, ◌≤◌, ◌≡◌, refl, ap, ◌∙◌, List, ◌++◌, not, arith, length, replicate,
  nat_eqb, length-append, length-replicate, take-append_length, drop-append_length,
}
use phinet.Prelude.Word.{le32}
use phinet.Prelude.Result.{ok}
use phinet.Session.{Aead, Session, encrypt}
use phinet.Session.Delivery.{SendsTo, deliver, opened}
use phinet.Wire.{link_cell, cell_data, plain_cell, parse_cell, le_length, encrypt_cell, read_cell}

abbrev pub Keeps : List ℕ → Type 0
Keeps chunk = length chunk ≤ cell_data

abbrev pad : List ℕ → List ℕ
pad chunk = replicate (cell_data - length chunk) 0

length-padded : (chunk : List ℕ) → Keeps chunk → length (chunk ++ pad chunk) ≡ cell_data
length-padded chunk small =
    let zeros = length-replicate {A = ℕ} (cell_data - length chunk) 0 in
    rw (length-append chunk (pad chunk), zeros) (omega arith)

pub length-plain_cell :
    (more : ℕ) (chunk : List ℕ) → Keeps chunk → length (plain_cell more chunk) ≡ link_cell
unfolding plain_cell
length-plain_cell more chunk small = omega (arith, length-padded chunk small)

parse_cell-plain_cell :
    (more : ℕ) (chunk rest : List ℕ)
    → Keeps chunk
    → parse_cell rest (plain_cell more chunk) ≡ ok (not (nat_eqb more 0), chunk, rest)
unfolding parse_cell plain_cell
parse_cell-plain_cell more chunk rest small =
    let size : length chunk % 256 + length chunk / 256 % 256 * 256 ≡ length chunk = omega arith in
    let first = take-append_length (length chunk) chunk (pad chunk) refl in
    rw (length-padded chunk small, size, first) (ground arith)

le_length-le32 :
    (n : ℕ) (later : List ℕ) → n ≡ link_cell + 16 → le_length (le32 n ++ later) ≡ link_cell + 16
unfolding le_length
le_length-le32 n later size = rw size refl

module _ (a : Aead) where
  pub length-encrypt :
      (more : ℕ) (chunk : List ℕ) (s : Session)
      → Keeps chunk
      → length (encrypt a (plain_cell more chunk) s).1 ≡ link_cell + 16
  unfolding encrypt
  length-encrypt more chunk s small =
      a.length-seal _ _ _ (plain_cell more chunk)
      ∙ ap (λ n. n + 16) (length-plain_cell more chunk small)

  pub length-encrypt_cell :
      (more : ℕ) (chunk : List ℕ) (s : Session)
      → Keeps chunk
      → length (encrypt_cell a more chunk s).1 ≡ 4 + link_cell + 16
  unfolding encrypt_cell
  length-encrypt_cell more chunk s small = omega (arith, length-encrypt more chunk s small)

  pub read_cell-encrypt_cell :
      (more : ℕ) (chunk later : List ℕ) (s r : Session)
      → SendsTo s r
      → Keeps chunk
      → read_cell a ((encrypt_cell a more chunk s).1 ++ later) r
        ≡ ((deliver a (plain_cell more chunk) s r).1, ok (not (nat_eqb more 0), chunk, later))
  unfolding encrypt_cell read_cell deliver
  read_cell-encrypt_cell more chunk later s r to small =
      let sealed = (encrypt a (plain_cell more chunk) s).1 in
      let size : length sealed ≡ link_cell + 16 = length-encrypt more chunk s small in
      let whole = opened a (plain_cell more chunk) s r to in
      rw
        (
          le_length-le32 (length sealed) (sealed ++ later) size,
          take-append_length (link_cell + 16) sealed later size,
          drop-append_length (link_cell + 16) sealed later size,
          length-append sealed later,
          size,
          whole,
          parse_cell-plain_cell more chunk later small,
        )
        (ground arith)
