-- ===== src/Circuit/Extend/RoundTrip.antt =====
-- EXTEND2 and EXTENDED2 payloads are read back as they were built.
use phinet.Prelude.{
  ℕ, suc, ◌∙◌, ap, ◌+◌, ◌%◌, ◌/◌, ◌<◌, ◌≡◌, refl, List, ◌∷◌, ◌++◌, length, take-append_length,
  drop-append_length, take-length, length-append, arith, leb, true, le→leb,
}
use phinet.Prelude.Result.{ok}
use phinet.Prelude.Word.{u16_mod, be16, from_be16}
use phinet.Circuit.Ipv4.{format}
use phinet.Circuit.Extend.{
  LinkSpec, Specs, build_extend2, parse_extend2, build_extended2, parse_extended2, resolved,
  parse_specs, parse_hdata, note_spec, no_specs,
}

-- A reply whose length fits 16 bits is read back from its EXTENDED2 payload.
pub parse_extended2-build_extended2 :
    (reply : List ℕ) → length reply < u16_mod → parse_extended2 (build_extended2 reply) ≡ ok reply
unfolding parse_extended2 build_extended2
parse_extended2-build_extended2 reply h =
    let len = length reply in
    let same : from_be16 (len % u16_mod / 256 % 256) (len % u16_mod % 256) ≡ len = omega arith in
    rw (same, take-length len reply refl) (ground arith)

parse_hdata_built :
    (msg : List ℕ)
    → length msg < u16_mod
    → parse_hdata (be16 2 ++ (be16 (length msg % u16_mod) ++ msg)) ≡ ok msg
unfolding parse_hdata
parse_hdata_built msg h =
    let len = length msg in
    let same : from_be16 (len % u16_mod / 256 % 256) (len % u16_mod % 256) ≡ len = omega arith in
    rw (same, take-length len msg refl) (ground arith)

-- What the wire can carry of a link specifier.
pub record IsLink (l : LinkSpec) : Type 0 where
  pub port_fits : l.port < u16_mod
  pub id_length : length l.node_id ≡ 32
  pub pub_length : length l.static_pub ≡ 32

-- One specifier whose length field is right is consumed whole.
parse_specs-step :
    (n ty ln : ℕ) (body rest : List ℕ) (s : Specs)
    → length body ≡ ln
    → parse_specs (suc n) (ty ∷ ln ∷ (body ++ rest)) s ≡ parse_specs n rest (note_spec ty ln body s)
unfolding parse_specs
parse_specs-step n ty ln body rest s h =
    let enough : leb ln (length (body ++ rest)) ≡ true =
      le→leb _ _ (omega (arith, length-append body rest)) in
    rw (enough, take-append_length ln body rest h, drop-append_length ln body rest h)

module _ (l : LinkSpec) (msg : List ℕ) where
  addr_body : List ℕ
  addr_body = let ip = resolved l.host in ip.a ∷ ip.b ∷ ip.c ∷ ip.d ∷ be16 l.port

  tail : List ℕ
  tail = be16 2 ++ (be16 (length msg % u16_mod) ++ msg)

  all_specs : Specs
  all_specs = record {
    link = record l { host = format (resolved l.host) };
    have_addr = true;
    have_id = true;
  }

  noted : Specs
  noted = note_spec 3 32 l.static_pub (note_spec 2 32 l.node_id (note_spec 0 6 addr_body no_specs))

  noted-all_specs : IsLink l → noted ≡ all_specs
  unfolding noted all_specs note_spec no_specs addr_body
  noted-all_specs w =
      let port : from_be16 (l.port / 256 % 256) (l.port % 256) ≡ l.port = omega (arith, w) in
      rw port

  parse_specs_built :
      IsLink l
      → parse_specs 3
          (0 ∷ 6 ∷ (addr_body ++ 2 ∷ 32 ∷ (l.node_id ++ 3 ∷ 32 ∷ (l.static_pub ++ tail))))
          no_specs
        ≡ ok (all_specs, tail)
  unfolding noted
  parse_specs_built w =
      parse_specs-step 2 0 6 addr_body _ no_specs (unfold addr_body in refl)
      ∙ parse_specs-step 1 2 32 l.node_id _ _ w.id_length
      ∙ parse_specs-step 0 3 32 l.static_pub tail _ w.pub_length
      ∙ (unfold parse_specs in ap (λ s. ok (s, tail)) (noted-all_specs w))

-- With a 16-bit port, 32-byte keys and a message whose length fits 16 bits, a payload is read back
-- as it was built. The host comes back as the text of the IPv4 address
-- that it parses to; any other host comes back as 127.0.0.1.
pub parse_extend2-build_extend2 :
    (l : LinkSpec) (msg : List ℕ)
    → IsLink l
    → length msg < u16_mod
    → parse_extend2 (build_extend2 l msg) ≡ ok (record l { host = format (resolved l.host) }, msg)
unfolding parse_extend2 build_extend2 addr_body tail all_specs
parse_extend2-build_extend2 l msg w h = rw (parse_specs_built l msg w, parse_hdata_built msg h)

-- With a handshake of 96 bytes the payload fits a relay cell with room to spare.
pub length-build_extend2 :
    (l : LinkSpec) (msg : List ℕ) → IsLink l → length (build_extend2 l msg) ≡ 81 + length msg
unfolding build_extend2
length-build_extend2 l msg w = omega (
  arith,
  w,
  length-append l.node_id
      (3 ∷ 32 ∷ (l.static_pub ++ (be16 2 ++ (be16 (length msg % u16_mod) ++ msg)))),
  length-append l.static_pub (be16 2 ++ (be16 (length msg % u16_mod) ++ msg)),
)
