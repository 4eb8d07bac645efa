-- ===== src/SharedRandom/Tests.antt =====
-- Two authorities.
use phinet.Prelude.{ℕ, ◌≡◌, refl, List, [], ◌∷◌, true, arith}
use phinet.Prelude.Word.{codes}
use phinet.Prelude.Order.{swap}
use phinet.SharedRandom.{Reveal, compute_srv, commit, check_reveal}
use phinet.SharedRandom.Agreement.{compute_srv-Exchanged}

abbrev same_bytes : List ℕ → List ℕ
same_bytes bytes = bytes

abbrev of_a : Reveal
of_a = record { authority_id = codes "a"; contribution = codes "x" }

abbrev of_b : Reveal
of_b = record { authority_id = codes "b"; contribution = codes "y" }

compute_srv-Exchanged_example :
    compute_srv same_bytes same_bytes (of_a ∷ of_b ∷ []) 3 2
    ≡ compute_srv same_bytes same_bytes (of_b ∷ of_a ∷ []) 3 2
compute_srv-Exchanged_example =
    compute_srv-Exchanged same_bytes same_bytes 3 2 (of_a ∷ of_b ∷ []) (of_b ∷ of_a ∷ [])
      (swap of_a of_b [] (λ e. ground (arith, e)))

passes :
    check_reveal same_bytes same_bytes
      (codes "a")
      (codes "x")
      3
      (commit same_bytes same_bytes (codes "a") (codes "x") 3)
    ≡ true
unfolding check_reveal commit
passes = refl
