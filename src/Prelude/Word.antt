-- ===== src/Prelude/Word.antt =====
-- Machine words: moduli, saturating arithmetic, and byte encodings.
use Prim.Native.Nat.{ℕ, zero, suc, ◌+◌, ◌*◌, ◌/◌, ◌%◌, ◌<◌, min}
use Prim.Native.Char.{code}
use Prim.Native.String.{String}
use mathlib.Core.Path.{◌≡◌}
use mathlib.Core.Bool.{Bool, true, ◌&&◌}
use mathlib.Core.List.{List, [], ◌∷◌, ◌++◌}
use native.Mathlib.Omega.{arith}

abbrev pub u8_mod : ℕ
u8_mod = 256

abbrev pub u16_mod : ℕ
u16_mod = 65536

abbrev pub u32_max : ℕ
u32_max = 4294967295

abbrev pub u32_mod : ℕ
u32_mod = 4294967296

abbrev pub u64_mod : ℕ
u64_mod = 18446744073709551616

abbrev pub IsByte : ℕ → Type 0
IsByte b = b < 256

-- `saturating_add` on `u32`; `saturating_sub` is `-` on ℕ.
abbrev pub sat_add32 : ℕ → ℕ → ℕ
sat_add32 a b = min (a + b) u32_max

-- `to_be_bytes` and `to_le_bytes`.
abbrev pub be16 : ℕ → List ℕ
be16 n = n / 256 % 256 ∷ n % 256 ∷ []

abbrev pub be32 : ℕ → List ℕ
be32 n = n / 16777216 % 256 ∷ n / 65536 % 256 ∷ n / 256 % 256 ∷ n % 256 ∷ []

abbrev pub le32 : ℕ → List ℕ
le32 n = n % 256 ∷ n / 256 % 256 ∷ n / 65536 % 256 ∷ n / 16777216 % 256 ∷ []

abbrev pub from_be16 : ℕ → ℕ → ℕ
from_be16 a b = a * 256 + b

abbrev pub from_be32 : ℕ → ℕ → ℕ → ℕ → ℕ
from_be32 a b c d = a * 16777216 + b * 65536 + c * 256 + d

abbrev pub from_le32 : ℕ → ℕ → ℕ → ℕ → ℕ
from_le32 a b c d = from_be32 d c b a

pub from_be16-be16 : (n : ℕ) → n < u16_mod → from_be16 (n / 256 % 256) (n % 256) ≡ n
from_be16-be16 n h = omega arith

pub from_be32-be32 :
    (n : ℕ)
    → n < u32_mod
    → from_be32 (n / 16777216 % 256) (n / 65536 % 256) (n / 256 % 256) (n % 256) ≡ n
from_be32-be32 n h = omega arith

-- The bytes of an ASCII literal.
abbrev pub codes : String → List ℕ
codes String.[] = []
codes (String.◌∷◌ c s) = code c ∷ codes s

-- A fact about every byte, by evaluation.
unfoldable pub every_below : ℕ → (ℕ → Bool) → Bool
every_below zero holds = true
every_below (suc n) holds = holds n && every_below n holds

pub every_below_lem :
    (n x : ℕ) (holds : ℕ → Bool) → every_below n holds ≡ true → x < n → holds x ≡ true
unfolding every_below
every_below_lem zero x holds all below = absurd (omega arith)
every_below_lem (suc n) x holds all below = ground (arith, every_below_lem n x holds)

-- `u64::to_le_bytes`, and back.
abbrev pub le64 : ℕ → List ℕ
le64 n = le32 (n % u32_mod) ++ le32 (n / u32_mod)

pub le64_injective : (n m : ℕ) → n < u64_mod → m < u64_mod → le64 n ≡ le64 m → n ≡ m
le64_injective n m below_n below_m same = ground arith

-- `u64::to_be_bytes`
abbrev pub be64 : ℕ → List ℕ
be64 n = be32 (n / u32_mod) ++ be32 (n % u32_mod)
