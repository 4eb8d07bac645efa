-- ===== src/Rendezvous.antt =====
-- phinet-core/src/rendezvous.rs, the end-to-end handshake between a client and a hidden service.
-- The crates' primitives are those of the circuit handshake.
pub mod Agreement
pub mod Wire
pub mod Intro
mod Tests
use phinet.Prelude.{ℕ, List, ◌++◌, if◌then◌else◌, take}
use phinet.Prelude.Eq.{list_eqb, nat_eq}
use phinet.Prelude.Word.{codes}
use phinet.Prelude.Result.{Result, ok, err, auth_failed}
use phinet.Ntor.{Primitives, slice}

abbrev pub hs_auth_len : ℕ
hs_auth_len = 32

abbrev hs_protoid : List ℕ
hs_protoid = codes "phinet-hs-rendezvous-v1"

abbrev e2e_salt : List ℕ
e2e_salt = codes "phinet-hs-e2e-salt"

abbrev e2e_expand_info : List ℕ
e2e_expand_info = codes "e2e-expand"

abbrev e2e_auth_label : List ℕ
e2e_auth_label = codes ":e2e-auth:"

pub record E2eKeys : Type 0 where
  pub client_to_hs_key : List ℕ
  pub hs_to_client_key : List ℕ
  pub c2h_digest_seed : List ℕ
  pub h2c_digest_seed : List ℕ

module _ (prim : Primitives) where
  open prim use {public_key, diffie_hellman, extract, expand, hmac}

  pub expand_e2e : List ℕ → List ℕ → List ℕ → List ℕ → List ℕ → E2eKeys
  expand_e2e ss_xy ss_xb x_pub y_pub b_pub =
      let ikm = ss_xy ++ (ss_xb ++ (x_pub ++ (y_pub ++ (b_pub ++ hs_protoid)))) in
      let km = expand (extract e2e_salt ikm) e2e_expand_info 104 in
      record {
        client_to_hs_key = slice 0 32 km;
        hs_to_client_key = slice 32 32 km;
        c2h_digest_seed = slice 64 20 km;
        h2c_digest_seed = slice 84 20 km;
      }

  pub compute_e2e_auth : E2eKeys → List ℕ → List ℕ → List ℕ → List ℕ
  compute_e2e_auth keys x_pub y_pub b_pub =
      take hs_auth_len
        (hmac keys.client_to_hs_key (hs_protoid ++ (e2e_auth_label ++ (x_pub ++ (y_pub ++ b_pub)))))

  -- The keys, the service's ephemeral public key and the AUTH tag.
  pub hs_finalize : List ℕ → List ℕ → List ℕ → List ℕ → E2eKeys × List ℕ × List ℕ
  hs_finalize y_sk hs_b_secret hs_b_pub client_x_pub =
      let y_pub = public_key y_sk in
      let ss_xy = diffie_hellman y_sk client_x_pub in
      let ss_xb = diffie_hellman hs_b_secret client_x_pub in
      let keys = expand_e2e ss_xy ss_xb client_x_pub y_pub hs_b_pub in
      (keys, y_pub, compute_e2e_auth keys client_x_pub y_pub hs_b_pub)

  pub client_finalize : List ℕ → List ℕ → List ℕ → List ℕ → List ℕ → Result E2eKeys
  client_finalize client_x_sk client_x_pub hs_b_pub server_y_pub received_auth =
      let ss_xy = diffie_hellman client_x_sk server_y_pub in
      let ss_xb = diffie_hellman client_x_sk hs_b_pub in
      let keys = expand_e2e ss_xy ss_xb client_x_pub server_y_pub hs_b_pub in
      let expected = compute_e2e_auth keys client_x_pub server_y_pub hs_b_pub in
      if list_eqb expected received_auth then ok keys else err auth_failed
