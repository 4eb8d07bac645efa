-- ===== src/CircuitMgr/Splice/Bridges.antt =====
-- The bridges of a rendezvous point: each leg names its partner and is named by it.
use phinet.Prelude.{
  false, ◌≡◌, ◌≢◌, refl, none, some, List, Bool-cases, Option-cases, inl, inr, if◌then◌else◌, arith,
}
use phinet.Prelude.Eq.{◌==◌, nat_eq, list_eq, pair_eq, pair_eqb_iff}
use phinet.Prelude.Map.{
  lookup, insert, remove, lookup-insert, lookup-remove, lookup-insert_same, lookup-insert_other,
  lookup-insert-some, lookup-remove-some, lookup-remove_other, lookup-remove_same,
}
use phinet.Circuit.Relay.{Sha256}
use phinet.CircuitMgr.{Leg, CircuitManager}
use phinet.CircuitMgr.Ending.{unbridge_rendezvous}
use phinet.CircuitMgr.Splice.{bridge_rendezvous, bridge_partner}

abbrev pub Symmetric : List (Leg × Leg) → Type 0
Symmetric bridges = (a b : Leg) → lookup a bridges ≡ some b → lookup b bridges ≡ some a

module _ {sha : Sha256} {Channel : Type 0} (m : CircuitManager sha Channel) where
  -- Two legs without a bridge get one, in both directions, and no other leg's changes.
  pub bridge_rendezvous-Symmetric :
      (client_leg hs_leg : Leg)
      → Symmetric m.rendezvous_bridges
      → lookup client_leg m.rendezvous_bridges ≡ none
      → lookup hs_leg m.rendezvous_bridges ≡ none
      → let m' = bridge_rendezvous client_leg hs_leg m in
        Symmetric m'.rendezvous_bridges
        × (bridge_partner client_leg m' ≡ some hs_leg)
        × (bridge_partner hs_leg m' ≡ some client_leg)
  unfolding bridge_rendezvous bridge_partner
  bridge_rendezvous-Symmetric c h inv free_c free_h = (both, to_hs, to_client)
    where
      bridged : List (Leg × Leg)
      bridged = insert h c (insert c h m.rendezvous_bridges)

      to_client : lookup h bridged ≡ some c
      to_client = lookup-insert_same h c (insert c h m.rendezvous_bridges)

      to_hs : lookup c bridged ≡ some h
      to_hs = elim (Bool-cases (h == c)) [
        | inl same ↦
            let h_c : h ≡ c = (pair_eqb_iff h c).0 same in
            rw h_c (lookup-insert_same c c (insert c c m.rendezvous_bridges))
        | inr apart ↦
            rw (lookup-insert_other h c c (insert c h m.rendezvous_bridges) apart)
              (lookup-insert_same c h m.rendezvous_bridges)
      ]

      both : Symmetric bridged
      both a b e = elim (lookup-insert-some h a c b (insert c h m.rendezvous_bridges) e) [
        | inl (h_a, c_b) ↦ rw (← h_a, ← c_b) to_hs
        | inr (h_not_a, e') ↦ elim (lookup-insert-some c a h b m.rendezvous_bridges e') [
          | inl (c_a, h_b) ↦ rw (← c_a, ← h_b) to_client
          | inr (c_not_a, before) ↦
              let back = inv a b before in
              let h_not_b : h == b ≡ false = ground (arith, pair_eqb_iff h b) in
              let c_not_b : c == b ≡ false = ground (arith, pair_eqb_iff c b) in
              rw
                (
                  lookup-insert_other h b c (insert c h m.rendezvous_bridges) h_not_b,
                  lookup-insert_other c b h m.rendezvous_bridges c_not_b,
                )
                back
        ]
      ]

  pub unbridge-cases :
      (leg : Leg)
      → Symmetric m.rendezvous_bridges
      → let (m', partner) = unbridge_rendezvous leg m in
        Symmetric m'.rendezvous_bridges
        × (partner ≡ bridge_partner leg m)
        × (bridge_partner leg m' ≡ none)
        × ((p : Leg) → partner ≡ some p → bridge_partner p m' ≡ none)
  unfolding unbridge_rendezvous bridge_partner
  unbridge-cases leg inv = elim (Option-cases (lookup leg m.rendezvous_bridges)) [
    | inl e ↦ rw (e, unbridge_rendezvous) (inv, refl, e, λ p q. cc)
    | inr (partner, e) ↦
        rw (e, unbridge_rendezvous)
          (unbridged partner e, refl, freed_leg partner, λ p q. freed partner p q)
  ]
    where
      rest : Leg → List (Leg × Leg)
      rest partner = remove partner (remove leg m.rendezvous_bridges)

      freed_leg : (partner : Leg) → lookup leg (rest partner) ≡ none
      freed_leg partner = ground (
        arith,
        lookup-remove partner leg (remove leg m.rendezvous_bridges),
        lookup-remove_same leg m.rendezvous_bridges,
      )

      freed : (partner p : Leg) → some partner ≡ some p → lookup p (rest partner) ≡ none
      freed partner p q =
          let same : partner ≡ p = ground arith in
          rw (← same) (lookup-remove_same partner (remove leg m.rendezvous_bridges))

      unbridged :
          (partner : Leg)
          → lookup leg m.rendezvous_bridges ≡ some partner
          → Symmetric (rest partner)
      unbridged partner bridged a b e =
          let (partner_a, e') =
            lookup-remove-some partner a b (remove leg m.rendezvous_bridges) e in
          let (leg_a, before) = lookup-remove-some leg a b m.rendezvous_bridges e' in
          let back = inv a b before in
          let home = inv leg partner bridged in
          let leg_b : leg == b ≡ false =
            ground (arith, pair_eqb_iff leg b, pair_eqb_iff partner a) in
          let partner_b : partner == b ≡ false =
            ground (arith, pair_eqb_iff partner b, pair_eqb_iff leg a) in
          rw
            (
              lookup-remove_other partner b (remove leg m.rendezvous_bridges) partner_b,
              lookup-remove_other leg b m.rendezvous_bridges leg_b,
            )
            back

-- The end of a bridge, from either leg, returns the partner, frees the two legs and no other, and
-- keeps the bridges symmetric.
pub unbridge_rendezvous-exact :
    {sha : Sha256} {Channel : Type 0} (m : CircuitManager sha Channel) (leg partner j : Leg)
    → Symmetric m.rendezvous_bridges
    → bridge_partner leg m ≡ some partner
    → let (m', freed) = unbridge_rendezvous leg m in
      (freed ≡ some partner)
      × Symmetric m'.rendezvous_bridges
      × (bridge_partner j m'
          ≡ (if partner == j then none else if leg == j then none else bridge_partner j m))
unfolding unbridge_rendezvous bridge_partner
unbridge_rendezvous-exact m leg partner j inv e =
    let kept = (unbridge-cases m leg inv).0 in
    (
      rw (e, unbridge_rendezvous) refl,
      kept,
      rw (e, unbridge_rendezvous)
          (ground (
            arith,
            lookup-remove partner j (remove leg m.rendezvous_bridges),
            lookup-remove leg j m.rendezvous_bridges,
          )),
    )

-- A leg that was bridged already leaves its old partner behind, pointing at it.
pub bridge_rendezvous-stale :
    {sha : Sha256} {Channel : Type 0} (m : CircuitManager sha Channel) (client_leg hs_leg old : Leg)
    → Symmetric m.rendezvous_bridges
    → bridge_partner client_leg m ≡ some old
    → old ≢ client_leg
    → old ≢ hs_leg
    → let m' = bridge_rendezvous client_leg hs_leg m in
      (bridge_partner old m' ≡ some client_leg) × (bridge_partner client_leg m' ≢ some old)
unfolding bridge_rendezvous bridge_partner
bridge_rendezvous-stale m c h old inv bridged not_c not_h =
    let inner = insert c h m.rendezvous_bridges in
    let back = inv c old bridged in
    let c_old : c == old ≡ false = ground (arith, pair_eqb_iff c old) in
    let h_old : h == old ≡ false = ground (arith, pair_eqb_iff h old) in
    let kept : lookup old (insert h c inner) ≡ some c =
      rw
        (
          lookup-insert_other h old c inner h_old,
          lookup-insert_other c old h m.rendezvous_bridges c_old,
        )
        back in
    (
      kept,
      λ e. ground (
        arith,
        lookup-insert h c c inner,
        lookup-insert c c h m.rendezvous_bridges,
        pair_eqb_iff h c,
        pair_eqb_iff c c,
      ),
    )
