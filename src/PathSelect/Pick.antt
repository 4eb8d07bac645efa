-- ===== src/PathSelect/Pick.antt =====
-- The weighted draw of phinet-core/src/path_select.rs.
use phinet.Prelude.{
  ℕ, zero, suc, ◌+◌, ◌-◌, ◌≤◌, ◌<◌, ◌≡◌, refl, ap, List, [], ◌∷◌, ◌++◌, Option, none, some, false,
  arith, length, All, ltb, Bool-cases, inl, inr,
}
use phinet.Prelude.Eq.{◌==◌, nat_eq}
use mathlib.Core.Path.{subst}
use phinet.PathSelect.{PeerEntry, total_bandwidth, nth_peer, scan, weighted_random_pick}

-- Where a target falls: behind the bandwidth of the peers before the one that is picked.
pub record Falls (target : ℕ) (candidates : List PeerEntry) (picked : Option PeerEntry)
    : Type 0 where
  pub before : List PeerEntry
  pub peer : PeerEntry
  pub after : List PeerEntry
  pub parts : candidates ≡ before ++ peer ∷ after
  pub result : picked ≡ some peer
  pub from : total_bandwidth before ≤ target
  pub to : target < total_bandwidth before + peer.bandwidth_kbs

scan-Falls :
    (target : ℕ) (last : Option PeerEntry) (ps : List PeerEntry)
    → target < total_bandwidth ps
    → Falls target ps (scan target last ps)
unfolding scan total_bandwidth
scan-Falls target last [] inside = absurd (omega arith)
scan-Falls target last (p ∷ ps) inside = elim (Bool-cases (ltb target p.bandwidth_kbs)) [
  | inl here ↦ rw here (record {
    before = [];
    peer = p;
    after = ps;
    parts = refl;
    result = refl;
    from = omega arith;
    to = ground arith;
  })
  | inr later ↦
      let rest = scan-Falls (target - p.bandwidth_kbs) (some p) ps (ground arith) in
      rw later (record {
        before = p ∷ rest.before;
        peer = rest.peer;
        after = rest.after;
        parts = ap (◌∷◌ p) rest.parts;
        result = rest.result;
        from = ground (arith, rest.from);
        to = ground (arith, rest.to);
      })
]

-- With measured bandwidth among the candidates, and a draw below its sum, the pick is the
-- candidate whose own share of the sum the draw falls into: each has as many draws as bandwidth.
pub weighted_random_pick-Falls :
    (gen : ℕ → ℕ) (candidates : List PeerEntry)
    → 0 < total_bandwidth candidates
    → gen (total_bandwidth candidates) < total_bandwidth candidates
    → Falls (gen (total_bandwidth candidates)) candidates (weighted_random_pick gen candidates)
unfolding weighted_random_pick
weighted_random_pick-Falls gen candidates measured inside =
    let nonzero : (total_bandwidth candidates == 0) ≡ false = ground arith in
    rw nonzero (scan-Falls (gen (total_bandwidth candidates)) none candidates inside)

module _ {κ} (P : PeerEntry → Type κ) where
  abbrev AllOf : Option PeerEntry → Type κ
  AllOf none = Unit
  AllOf (some p) = P p

  nth_peer-All : (i : ℕ) (ps : List PeerEntry) → All P ps → AllOf (nth_peer i ps)
  nth_peer-All i [] all = tt
  nth_peer-All zero (p ∷ ps) all = all.0
  nth_peer-All (suc i) (p ∷ ps) all = nth_peer-All i ps all.1

  scan-All :
      (target : ℕ) (last : Option PeerEntry) (ps : List PeerEntry)
      → AllOf last
      → All P ps
      → AllOf (scan target last ps)
  unfolding scan
  scan-All target last [] of_last all = of_last
  scan-All target last (p ∷ ps) of_last all = elim (Bool-cases (ltb target p.bandwidth_kbs)) [
    | inl here ↦ rw here all.0
    | inr later ↦ rw later (scan-All (target - p.bandwidth_kbs) (some p) ps all.0 all.1)
  ]

  pick-AllOf : (gen : ℕ → ℕ) (ps : List PeerEntry) → All P ps → AllOf (weighted_random_pick gen ps)
  unfolding weighted_random_pick
  pick-AllOf gen ps all = elim (Bool-cases (total_bandwidth ps == 0)) [
    | inl unmeasured ↦ rw unmeasured (nth_peer-All (gen (length ps)) ps all)
    | inr measured ↦ rw measured (scan-All (gen (total_bandwidth ps)) none ps tt all)
  ]

  -- Whatever holds of every candidate holds of the one that is picked.
  pub pick-All :
      (gen : ℕ → ℕ) (ps : List PeerEntry) {p : PeerEntry}
      → All P ps
      → weighted_random_pick gen ps ≡ some p
      → P p
  pick-All gen ps {p} all picked = subst AllOf picked (pick-AllOf gen ps all)
