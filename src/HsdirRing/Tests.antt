-- ===== src/HsdirRing/Tests.antt =====
-- Two relays listed in two orders.
use phinet.Prelude.{ℕ, ◌≡◌, ◌≢◌, List, [], ◌∷◌, arith}
use phinet.Prelude.Word.{codes}
use phinet.Prelude.Order.{swap}
use phinet.HsdirRing.{responsible_hsdirs, hsdir_index}
use phinet.HsdirRing.Order.{position, responsible_hsdirs-Exchanged}

abbrev same_bytes : List ℕ → List ℕ
same_bytes bytes = bytes

apart :
    position same_bytes 7 (codes "salt") (codes "aa")
    ≢ position same_bytes 7 (codes "salt") (codes "bb")
unfolding hsdir_index
apart e = ground (arith, e)

responsible_hsdirs-Exchanged_example :
    responsible_hsdirs same_bytes (codes "service") (codes "aa" ∷ codes "bb" ∷ []) 7 (codes "salt")
    ≡ responsible_hsdirs same_bytes
        (codes "service")
        (codes "bb" ∷ codes "aa" ∷ [])
        7
        (codes "salt")
responsible_hsdirs-Exchanged_example =
    responsible_hsdirs-Exchanged same_bytes 7 (codes "salt") (codes "service")
      (codes "aa" ∷ codes "bb" ∷ []) (codes "bb" ∷ codes "aa" ∷ [])
      (swap (codes "aa") (codes "bb") [] apart)
