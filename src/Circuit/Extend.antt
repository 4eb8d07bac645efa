-- ===== src/Circuit/Extend.antt =====
-- phinet-core/src/circuit.rs, the EXTEND2 and EXTENDED2 payloads. The reader's index `i` is the
-- rest of the buffer from `i` on. A host is the list of its bytes.
pub mod RoundTrip
use phinet.Prelude.{
  ℕ, zero, suc, ◌%◌, Bool, true, false, not, ◌&&◌, ◌||◌, Option, none, some, List, [], ◌∷◌, ◌++◌,
  ltb, leb, nat_eqb, length, take, drop, replicate, if◌then◌else◌,
}
use phinet.Prelude.Result.{Result, ok, err, crypto, ◌>>=◌, ◌>>◌, guard}
use phinet.Prelude.Word.{be16, from_be16, u16_mod}
use phinet.Circuit.Ipv4.{Ipv4Addr, format}
use phinet.Circuit.Ipv4

abbrev lspec_ipv4 : ℕ
lspec_ipv4 = 0

abbrev lspec_node_id : ℕ
lspec_node_id = 2

abbrev lspec_static_pub : ℕ
lspec_static_pub = 3

abbrev htype_ntor : ℕ
htype_ntor = 2

pub record LinkSpec : Type 0 where
  pub host : List ℕ
  pub port : ℕ  -- u16
  pub node_id : List ℕ
  pub static_pub : List ℕ

abbrev pub localhost : Ipv4Addr
localhost = record { a = 127; b = 0; c = 0; d = 1 }

-- `next.host.parse().unwrap_or(127.0.0.1)`
pub resolved : List ℕ → Ipv4Addr
resolved host = elim (Ipv4.parse host) [ none ↦ localhost | some ip ↦ ip ]

pub build_extend2 : LinkSpec → List ℕ → List ℕ
build_extend2 next ntor_client_msg =
    let addr = resolved next.host in
    3
    ∷ lspec_ipv4
    ∷ 6
    ∷ addr.a
    ∷ addr.b
    ∷ addr.c
    ∷ addr.d
    ∷ (be16 next.port
        ++ lspec_node_id
          ∷ 32
          ∷ (next.node_id
              ++ lspec_static_pub
                ∷ 32
                ∷ (next.static_pub
                    ++ (be16 htype_ntor
                        ++ (be16 (length ntor_client_msg % u16_mod) ++ ntor_client_msg)))))

-- The variables that the loop over the specifiers fills in.
record Specs : Type 0 where
  link : LinkSpec
  have_addr : Bool
  have_id : Bool

no_specs : Specs
no_specs = record {
  link = record { host = []; port = 0; node_id = replicate 32 0; static_pub = replicate 32 0 };
  have_addr = false;
  have_id = false;
}

note_addr : List ℕ → Specs → Specs
note_addr (a ∷ b ∷ c ∷ d ∷ e ∷ f ∷ _) s = record s {
  link = record (s.link) {
    host = format (record { a = a; b = b; c = c; d = d });
    port = from_be16 e f;
  };
  have_addr = true;
}
note_addr _ s = s

-- One turn of the `match ty`.
note_spec : ℕ → ℕ → List ℕ → Specs → Specs
unfolding note_addr
note_spec ty ln body s =
    if nat_eqb ty lspec_ipv4 && nat_eqb ln 6
    then note_addr body s
    else if nat_eqb ty lspec_node_id && nat_eqb ln 32
    then record s { link = record (s.link) { node_id = body }; have_id = true }
    else if nat_eqb ty lspec_static_pub && nat_eqb ln 32
    then record s { link = record (s.link) { static_pub = body } }
    else s

-- `for _ in 0..nspec`
parse_specs : ℕ → List ℕ → Specs → Result (Specs × List ℕ)
parse_specs zero buf s = ok (s, buf)
parse_specs (suc n) (ty ∷ ln ∷ buf) s = do
  guard (leb ln (length buf)) crypto
  parse_specs n (drop ln buf) (note_spec ty ln (take ln buf) s)
parse_specs (suc n) _ s = err crypto

parse_hdata : List ℕ → Result (List ℕ)
parse_hdata (h1 ∷ h2 ∷ l1 ∷ l2 ∷ buf) = do
  guard (nat_eqb (from_be16 h1 h2) htype_ntor) crypto
  guard (leb (from_be16 l1 l2) (length buf)) crypto
  ok (take (from_be16 l1 l2) buf)
parse_hdata _ = err crypto

pub parse_extend2 : List ℕ → Result (LinkSpec × List ℕ)
parse_extend2 [] = err crypto
parse_extend2 (nspec ∷ buf) = do
  guard (not (nat_eqb nspec 0 || ltb 8 nspec)) crypto
  (s, rest) ← parse_specs nspec buf no_specs
  guard (s.have_addr && s.have_id) crypto
  hdata ← parse_hdata rest
  ok (s.link, hdata)

pub build_extended2 : List ℕ → List ℕ
build_extended2 ntor_server_reply = be16 (length ntor_server_reply % u16_mod) ++ ntor_server_reply

pub parse_extended2 : List ℕ → Result (List ℕ)
parse_extended2 (a ∷ b ∷ buf) =
    if leb (from_be16 a b) (length buf) then ok (take (from_be16 a b) buf) else err crypto
parse_extended2 _ = err crypto
