-- ===== src/Samples.antt =====
-- Concrete primitives for runs of the model: a key agreement by products, a hash that counts, and
-- a cipher that complements bytes. They meet the laws that the crates document.
use native.Mathlib.Nat.{mul_comm}
use phinet.Prelude.{
  ℕ, ◌+◌, ◌-◌, ◌*◌, ◌≡◌, refl, ap, List, [], ◌∷◌, ◌++◌, some, take, length-append,
  take-append_length, ltb, length, replicate, map, if◌then◌else◌, arith,
}
use phinet.Prelude.Word.{be32}
use phinet.Ntor.{Primitives}
use phinet.Ntor.Agreement.{IsSound}
use phinet.Circuit.Relay.{Sha256}
use phinet.Circuit.Hop.{ChaCha20}
use phinet.Session.{Aead}

abbrev sum : List ℕ → ℕ
sum [] = 0
sum (x ∷ xs) = x + sum xs

abbrev first : List ℕ → ℕ
first [] = 0
first (x ∷ xs) = x

abbrev pub toy_ntor : Primitives
toy_ntor = record {
  public_key = λ a. replicate 32 (sum a);
  diffie_hellman = λ a p. replicate 32 (sum a * first p);
  extract = λ salt ikm. replicate 32 (sum salt + sum ikm);
  expand = λ prk info n. replicate n (sum prk + sum info);
  hmac = λ key msg. replicate 32 (sum key + sum msg);
}

pub toy_ntor-IsSound : IsSound toy_ntor
toy_ntor-IsSound = record {
  commutes = λ a b. ap (replicate 32) (mul_comm (sum a) (sum b));
  public_length = λ a. refl;
  tag_length = λ key msg. refl;
}

abbrev pub toy_sha : Sha256
toy_sha = record {
  State = ℕ;
  start = 1;
  absorb = λ h bytes. h + sum bytes;
  finalize = λ h. be32 h ++ replicate 28 0;
}

-- 255 - b on bytes.
abbrev complement : ℕ → ℕ
complement b = if ltb b 256 then 255 - b else b

complement_twice : (buf : List ℕ) → map complement (map complement buf) ≡ buf
complement_twice [] = refl
complement_twice (b ∷ buf) = ground (arith, complement_twice buf)

length-complement : (buf : List ℕ) → length (map complement buf) ≡ length buf
length-complement [] = refl
length-complement (b ∷ buf) = ground (arith, length-complement buf)

pub toy_cipher-twice : (key nonce buf : List ℕ) → map complement (map complement buf) ≡ buf
toy_cipher-twice key nonce buf = complement_twice buf

pub toy_cipher-length : (key nonce buf : List ℕ) → length (map complement buf) ≡ length buf
toy_cipher-length key nonce buf = length-complement buf

abbrev pub toy_cipher : ChaCha20
toy_cipher = record {
  apply_keystream = λ key nonce buf. map complement buf;
  twice = toy_cipher-twice;
  keeps_length = toy_cipher-length;
}

pub untag :
    (plain : List ℕ)
    → take (length (plain ++ replicate 16 0) - 16) (plain ++ replicate 16 0) ≡ plain
untag plain =
    take-append_length _ plain (replicate 16 0)
      (omega (arith, length-append plain (replicate 16 0)))

-- The plaintext with sixteen zeros for its tag.
abbrev pub toy_aead : Aead
toy_aead = record {
  seal = λ key nonce aad plain. plain ++ replicate 16 0;
  open_sealed = λ key nonce aad sealed. some (take (length sealed - 16) sealed);
  open_sealed-seal = λ key nonce aad plain. ap some (untag plain);
  length-seal = λ key nonce aad plain. length-append plain (replicate 16 0);
}
