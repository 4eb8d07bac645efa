-- ===== src/Circuit/Ipv4.antt =====
-- The standard library's `Ipv4Addr` as text: four decimal octets of at most three digits, with no
-- leading zero. A text is its list of bytes.
use phinet.Prelude.{
  ℕ, ◌+◌, ◌-◌, ◌*◌, ◌/◌, ◌%◌, ◌<◌, ◌≤◌, ◌≡◌, refl, get_or, Bool, ◌&&◌, Option, none, some, List, [],
  ◌∷◌, ◌++◌, ltb, leb, nat_eqb, if◌then◌else◌, arith,
}

infixl 5 ◌>>=◌
abbrev ◌>>=◌ : {A B : Type 0} → Option A → (A → Option B) → Option B
none >>= f = none
some a >>= f = f a

pub record Ipv4Addr : Type 0 where
  pub a : ℕ
  pub b : ℕ
  pub c : ℕ
  pub d : ℕ

pub record IsAddr (ip : Ipv4Addr) : Type 0 where
  pub a_fits : ip.a < 256
  pub b_fits : ip.b < 256
  pub c_fits : ip.c < 256
  pub d_fits : ip.d < 256

is_digit : ℕ → Bool
is_digit x = leb b'0' x && leb x b'9'

-- `{}` on a `u8`.
unfoldable pub decimal : ℕ → List ℕ
decimal n =
    if ltb n 10
    then (b'0' + n) ∷ []
    else if ltb n 100
    then (b'0' + n / 10) ∷ (b'0' + n % 10) ∷ []
    else (b'0' + n / 100) ∷ (b'0' + n / 10 % 10) ∷ (b'0' + n % 10) ∷ []

-- Two or three digits, the first not 0, the value at most 255.
checked : ℕ → List ℕ → Option (ℕ × List ℕ)
checked value rest = if ltb value 256 then some (value, rest) else none

third_digit : ℕ → List ℕ → Option (ℕ × List ℕ)
unfolding checked
third_digit tens [] = checked tens []
third_digit tens (z ∷ rest) =
    if is_digit z then checked (tens * 10 + (z - b'0')) rest else checked tens (z ∷ rest)

second_digit : ℕ → List ℕ → Option (ℕ × List ℕ)
unfolding third_digit
second_digit units [] = some (units, [])
second_digit units (y ∷ rest) =
    if is_digit y
    then (if nat_eqb units 0 then none else third_digit (units * 10 + (y - b'0')) rest)
    else some (units, y ∷ rest)

-- One octet at the front of a text. A fourth digit is left over, and refused by what follows.
read_octet : List ℕ → Option (ℕ × List ℕ)
unfolding second_digit
read_octet [] = none
read_octet (x ∷ rest) = if is_digit x then second_digit (x - b'0') rest else none

read_dot : List ℕ → Option (List ℕ)
read_dot [] = none
read_dot (x ∷ rest) = if nat_eqb x b'.' then some rest else none

at_end : Ipv4Addr → List ℕ → Option Ipv4Addr
at_end ip [] = some ip
at_end ip (_ ∷ _) = none

-- An address at the front of a text.
unfoldable pub read_addr : List ℕ → Option (Ipv4Addr × List ℕ)
unfolding read_octet read_dot is_digit
read_addr text = do
  (a, text1) ← read_octet text
  text2 ← read_dot text1
  (b, text3) ← read_octet text2
  text4 ← read_dot text3
  (c, text5) ← read_octet text4
  text6 ← read_dot text5
  (d, text7) ← read_octet text6
  some (record { a = a; b = b; c = c; d = d }, text7)

-- `host.parse::<Ipv4Addr>()`
unfoldable pub parse : List ℕ → Option Ipv4Addr
unfolding read_addr at_end
parse text = do (ip, rest) ← read_addr text; at_end ip rest

-- `format!("{}.{}.{}.{}", …)`
pub format : Ipv4Addr → List ℕ
format ip =
    decimal ip.a ++ b'.' ∷ (decimal ip.b ++ b'.' ∷ (decimal ip.c ++ b'.' ∷ (decimal ip.d ++ [])))

-- An octet is read up to the next byte that is not a digit.
read_octet-decimal_dot :
    (n : ℕ) (rest : List ℕ)
    → n < 256
    → read_octet (decimal n ++ b'.' ∷ rest) ≡ some (n, b'.' ∷ rest)
unfolding read_octet decimal is_digit
read_octet-decimal_dot n rest h = ground arith

read_octet-decimal_end : (n : ℕ) → n < 256 → read_octet (decimal n ++ []) ≡ some (n, [])
unfolding read_octet decimal is_digit
read_octet-decimal_end n h = ground arith

-- The text of an address is read back, up to what follows, if that is no digit.
pub read_addr-format : (ip : Ipv4Addr) → IsAddr ip → read_addr (format ip) ≡ some (ip, [])
unfolding read_addr format read_dot
read_addr-format ip h =
    rw
      (
        read_octet-decimal_dot _ _ h.a_fits,
        read_octet-decimal_dot _ _ h.b_fits,
        read_octet-decimal_dot _ _ h.c_fits,
        read_octet-decimal_end _ h.d_fits,
      )
      refl

-- The text of an address parses to that address.
pub parse-format : (ip : Ipv4Addr) → IsAddr ip → parse (format ip) ≡ some ip
unfolding parse at_end
parse-format ip h = rw (read_addr-format ip h) refl

-- The text of an address begins with a digit.
pub format-first :
    (ip : Ipv4Addr) → IsAddr ip → (b'0' ≤ get_or (format ip) 0 0) × (get_or (format ip) 0 0 ≤ b'9')
unfolding format decimal
format-first ip h = ground (arith, h.a_fits)
