-- ===== src/Guards/Tests.antt =====
-- A guard over a few minutes.
use phinet.Prelude.{refl, List, [], ◌∷◌, Option, none, String, arith}
use phinet.Dht.{NodeId}
use phinet.Guards.{GuardEntry, candidate}
use phinet.Guards.Members.{GuardEvent, added, connected, failure, pruned, run}
use phinet.Guards.Kept.{find_guard, IsUp, run-IsUp}

-- An encoder that tells two nodes apart.
abbrev encode_short : NodeId → String
encode_short [] = "00"
encode_short (b ∷ bs) = "01"

abbrev decode_short : String → Option NodeId
decode_short text = none

abbrev guards : List GuardEntry
guards = candidate 100 "01" "10.0.0.1" 7700 ∷ []

guards-IsUp : IsUp "01" 100 guards
unfolding find_guard
guards-IsUp = record {
  entry = candidate 100 "01" "10.0.0.1" 7700;
  found = refl;
  reachable = refl;
  since = refl;
}

abbrev day : List GuardEvent
day = added 200 [] "10.0.0.2" 7700 ∷ connected 300 (1 ∷ []) ∷ failure 400 [] ∷ pruned 5000 ∷ []

run-IsUp_example : IsUp "01" 100 (run encode_short decode_short day guards)
run-IsUp_example =
    run-IsUp encode_short decode_short "01" 100 day guards guards-IsUp
      (omega arith, (tt, (refl, (omega arith, tt))))
