-- ===== src/Rendezvous/Agreement.antt =====
-- Client and hidden service derive the same end-to-end keys.
use phinet.Prelude.{ℕ, ◌≡◌, refl, List}
use phinet.Prelude.Eq.{list_eqb_iff, nat_eq}
use phinet.Prelude.Result.{ok}
use phinet.Ntor.{Primitives}
use phinet.Ntor.Agreement.{IsSound}
use phinet.Rendezvous.{hs_finalize, client_finalize}

-- What the service finalizes for the client's ephemeral key, the client accepts, and gets the
-- keys that the service has.
pub client_finalize-hs_finalize :
    (prim : Primitives) (sound : IsSound prim) (x_sk y_sk b_sk : List ℕ)
    → let x_pub = prim.public_key x_sk in
      let b_pub = prim.public_key b_sk in
      let (keys, y_pub, auth) = hs_finalize prim y_sk b_sk b_pub x_pub in
      client_finalize prim x_sk x_pub b_pub y_pub auth ≡ ok keys
unfolding hs_finalize client_finalize
client_finalize-hs_finalize prim sound x_sk y_sk b_sk =
    rw (sound.commutes x_sk y_sk, sound.commutes x_sk b_sk, (list_eqb_iff _ _).1 refl)
