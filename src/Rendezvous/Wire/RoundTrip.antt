-- ===== src/Rendezvous/Wire/RoundTrip.antt =====
-- The payloads are read back as they were written.
use mathlib.Core.List.{append_assoc}
use phinet.Prelude.{
  ℕ, ◌+◌, ◌%◌, ◌<◌, ◌≡◌, refl, List, ◌++◌, length, le→leb, arith, take-append_length, take-length,
  drop-append_length, length-append,
}
use phinet.Prelude.Word.{be16, from_be16-be16, u16_mod}
use phinet.Prelude.Result.{ok}
use phinet.Ntor.{slice}
use phinet.Rendezvous.Wire.{
  Introduce, encode_introduce, decode_introduce, Rendezvous1, encode_rendezvous1,
  decode_rendezvous1, Rendezvous2, encode_rendezvous2, decode_rendezvous2, be16_of,
}

-- A field between what stands before it and what follows.
pub field_at :
    (from len : ℕ) (pre mid post : List ℕ)
    → length pre ≡ from
    → length mid ≡ len
    → slice from len (pre ++ (mid ++ post)) ≡ mid
field_at from len pre mid post lp lm =
    rw (drop-append_length from pre (mid ++ post) lp) (take-append_length len mid post lm)

pub last_at :
    (from len : ℕ) (pre mid : List ℕ)
    → length pre ≡ from
    → length mid ≡ len
    → slice from len (pre ++ mid) ≡ mid
last_at from len pre mid lp lm = rw (drop-append_length from pre mid lp) (take-length len mid lm)

-- A RENDEZVOUS1 is read back, and what follows its cookie reads as the RENDEZVOUS2 that the
-- rendezvous point sends on.
pub decode_rendezvous-encode :
    (r : Rendezvous1)
    → length r.cookie ≡ 20
    → length r.server_y ≡ 32
    → length r.auth ≡ 32
    → let r2 : Rendezvous2 = record { server_y = r.server_y; auth = r.auth } in
      (decode_rendezvous1 (encode_rendezvous1 r) ≡ ok r)
      × (decode_rendezvous2 (encode_rendezvous2 r2) ≡ ok r2)
unfolding decode_rendezvous1 encode_rendezvous1 decode_rendezvous2 encode_rendezvous2
decode_rendezvous-encode r lc ly la = (first, second)
  where
    c : List ℕ
    c = r.cookie

    y : List ℕ
    y = r.server_y

    a : List ℕ
    a = r.auth

    third : slice 52 32 (c ++ (y ++ a)) ≡ a
    third =
        rw (← append_assoc c y a) (last_at 52 32 (c ++ y) a (omega (arith, length-append c y)) la)

    first : decode_rendezvous1 (c ++ (y ++ a)) ≡ ok r
    first =
        rw
          (
            le→leb 84 (length (c ++ (y ++ a)))
                (omega (arith, length-append c (y ++ a), length-append y a)),
            take-append_length 20 c (y ++ a) lc,
            field_at 20 32 c y a lc ly,
            third,
          )
          refl

    second : decode_rendezvous2 (y ++ a) ≡ ok (record { server_y = y; auth = a })
    second =
        rw
          (
            le→leb 64 (length (y ++ a)) (omega (arith, length-append y a)),
            take-append_length 32 y a ly,
            last_at 32 32 y a ly la,
          )
          refl

-- An INTRODUCE whose payload's length fits 16 bits is read back whole.
pub decode_introduce-encode :
    (i : Introduce)
    → length i.auth_key_pub ≡ 32
    → length i.client_ntor_x ≡ 32
    → length i.mac ≡ 32
    → length i.enc_payload < u16_mod
    → decode_introduce (encode_introduce i) ≡ ok i
unfolding decode_introduce encode_introduce
decode_introduce-encode i lk lx lm le =
    rw
      (
        le→leb 98 (length buf) (omega (arith, buf_length)),
        enc_len,
        le→leb (66 + n + 32) (length buf) (omega (arith, buf_length)),
        take-append_length 32 k (x ++ (l ++ (e ++ m))) lk,
        field_at 32 32 k x (l ++ (e ++ m)) lk lx,
        payload,
        tag,
      )
      refl
  where
    k : List ℕ
    k = i.auth_key_pub

    x : List ℕ
    x = i.client_ntor_x

    e : List ℕ
    e = i.enc_payload

    m : List ℕ
    m = i.mac

    n : ℕ
    n = length e

    l : List ℕ
    l = be16 (n % u16_mod)

    buf : List ℕ
    buf = k ++ (x ++ (l ++ (e ++ m)))

    buf_length : length buf ≡ 98 + n
    buf_length = omega (
      arith,
      length-append k (x ++ (l ++ (e ++ m))),
      length-append x (l ++ (e ++ m)),
      length-append e m,
    )

    kx : length (k ++ x) ≡ 64
    kx = omega (arith, length-append k x)

    kxl : length ((k ++ x) ++ l) ≡ 66
    kxl = omega (arith, length-append (k ++ x) l, kx)

    enc_len : be16_of (slice 64 2 buf) ≡ n
    enc_len =
        rw (← append_assoc k x (l ++ (e ++ m)), field_at 64 2 (k ++ x) l (e ++ m) kx refl)
          (omega (arith, from_be16-be16 (n % u16_mod)))

    payload : slice 66 n buf ≡ e
    payload =
        rw (← append_assoc k x (l ++ (e ++ m)), ← append_assoc (k ++ x) l (e ++ m))
          (field_at 66 n ((k ++ x) ++ l) e m kxl refl)

    tag : slice (66 + n) 32 buf ≡ m
    tag =
        rw
          (
            ← append_assoc k x (l ++ (e ++ m)),
            ← append_assoc (k ++ x) l (e ++ m),
            ← append_assoc ((k ++ x) ++ l) e m,
          )
          (last_at (66 + n) 32 (((k ++ x) ++ l) ++ e) m
            (omega (arith, kxl, length-append ((k ++ x) ++ l) e)) lm)
