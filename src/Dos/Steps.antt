-- ===== src/Dos/Steps.antt =====
-- One call of phinet-core/src/dos.rs, as one address sees it.
use phinet.Prelude.{
  ℕ, ◌+◌, ◌*◌, ◌≤◌, ◌≡◌, refl, Bool, true, false, not, ◌||◌, arith, if◌then◌else◌, Bool-cases, inl,
  inr,
}
use phinet.Prelude.Eq.{Eq, beq_refl}
use phinet.Prelude.Map.{
  lookup, insert, lookup-insert, lookup-update, lookup-retain, Keyed-insert, Keyed-update,
  Keyed-retain,
}
use phinet.Dos.{
  ClientStats, DosGuard, token, is_current, released, is_exempt, release_connection, cleanup,
  allow_circuit, allow_connection,
}
use phinet.Dos.Refill.{
  exactly, slack, effective, StatsAreSane, IsSane, after_circuit, after_connection, cost,
  circuit-sane, connection-sane, circuit-effective, connection-effective, released-effective,
  released-IsSane, cleaned-effective, cleaned-IsSane, IsSane-later,
}
use phinet.Dos.Events.{circuit, counts, asks, Limits}

module _ {Ip : Type 0} ⦃e : Eq Ip⦄ (is_loopback : Ip → Bool) where
  module _ (ip : Ip) (now t : ℕ) (g : DosGuard Ip) (l : Limits is_loopback ip now g)
      (later : now ≤ t) where
    IsSane-at : IsSane t (lookup ip g.clients)
    IsSane-at = IsSane-later now t (lookup ip g.clients) later l.sane

    skips : Ip → Bool
    skips other = not g.enabled || is_exempt is_loopback other g

    never_skips : (other : Ip) → e.beq other ip ≡ true → skips other ≡ false
    unfolding skips is_exempt
    never_skips other same =
        let key : other ≡ ip = (e.beq_iff other ip).0 same in rw (key, l.on, l.not_exempt) refl

    circuit-result :
        (other : Ip)
        → allow_circuit is_loopback t other g ≡ (
            if skips other then (g, true) else (
              record g {
                clients = insert other (after_circuit t (lookup other g.clients)).0 g.clients;
              },
              (after_circuit t (lookup other g.clients)).1,
            ))
    unfolding allow_circuit skips
    circuit-result other = refl

    connection-result :
        (other : Ip)
        → allow_connection is_loopback t other g ≡ (
            if skips other then (g, true) else (
              record g {
                clients = insert other (after_connection t (lookup other g.clients)).0 g.clients;
              },
              (after_connection t (lookup other g.clients)).1,
            ))
    unfolding allow_connection skips
    connection-result other = refl

    -- An entry written for some address, as `ip` sees it.
    insert-Limits :
        (other : Ip) (st : ClientStats)
        → ((e.beq other ip ≡ true) → StatsAreSane t st)
        → Limits is_loopback ip t (record g { clients = insert other st g.clients })
    insert-Limits other st of_st = record {
      on = l.on;
      not_exempt = unfold is_exempt in l.not_exempt;
      sane = rw (lookup-insert other ip st g.clients) (elim (Bool-cases (e.beq other ip)) [
        | inl same ↦ rw same (of_st same)
        | inr apart ↦ rw apart IsSane-at
      ]);
      keyed = Keyed-insert other st g.clients l.keyed;
    }

    same-Limits : Limits is_loopback ip t g
    same-Limits = record { on = l.on; not_exempt = l.not_exempt; sane = IsSane-at; keyed = l.keyed }

    own-IsSane : (other : Ip) → e.beq other ip ≡ true → IsSane t (lookup other g.clients)
    own-IsSane other same = let key : other ≡ ip = (e.beq_iff other ip).0 same in rw key IsSane-at

    pub circuit-Limits :
        (other : Ip) → Limits is_loopback ip t (allow_circuit is_loopback t other g).0
    circuit-Limits other = elim (Bool-cases (skips other)) [
      | inl free ↦ rw (circuit-result other, free) same-Limits
      | inr limited ↦
          rw (circuit-result other, limited)
            (insert-Limits other _ (λ same. circuit-sane t _ (own-IsSane other same)))
    ]

    pub connection-Limits :
        (other : Ip) → Limits is_loopback ip t (allow_connection is_loopback t other g).0
    connection-Limits other = elim (Bool-cases (skips other)) [
      | inl free ↦ rw (connection-result other, free) same-Limits
      | inr limited ↦
          rw (connection-result other, limited)
            (insert-Limits other _ (λ same. connection-sane t _ (own-IsSane other same)))
    ]

    pub closed-Limits : (other : Ip) → Limits is_loopback ip t (release_connection t other g)
    unfolding release_connection is_exempt
    closed-Limits other = record {
      on = l.on;
      not_exempt = l.not_exempt;
      sane =
          rw (lookup-update other ip (released t) g.clients) (elim (Bool-cases (e.beq other ip)) [
            | inl same ↦ rw same (released-IsSane t (lookup ip g.clients) IsSane-at)
            | inr apart ↦ rw apart IsSane-at
          ]);
      keyed = Keyed-update other (released t) g.clients l.keyed;
    }

    pub swept-Limits : Limits is_loopback ip t (cleanup t g)
    unfolding cleanup is_exempt
    swept-Limits = record {
      on = l.on;
      not_exempt = l.not_exempt;
      sane =
          rw (lookup-retain (λ other st. is_current t st) ip g.clients l.keyed)
            (cleaned-IsSane t (lookup ip g.clients) IsSane-at);
      keyed = Keyed-retain _ g.clients l.keyed;
    }

    own_budget :
        counts is_loopback ip (circuit t ip) g * exactly token
          + effective t (lookup ip (allow_circuit is_loopback t ip g).0.clients)
        ≤ effective t (lookup ip g.clients) + asks is_loopback ip (circuit t ip) * slack
    own_budget =
        let after = after_circuit t (lookup ip g.clients) in
        rw
          (
            beq_refl ip,
            circuit-result ip,
            never_skips ip (beq_refl ip),
            lookup-insert ip ip after.0 g.clients,
            beq_refl ip,
          )
          (priced after.1 _ _ (circuit-effective t (lookup ip g.clients) IsSane-at))
      where
        priced :
            (b : Bool) (left all : ℕ)
            → cost b + left ≤ all + slack
            → (if b then 1 else 0) * exactly token + left ≤ all + 1 * slack
        priced true left all h = omega (arith, h)
        priced false left all h = omega (arith, h)

    -- No step gives `ip` tokens but what one rounding adds, and an allowed circuit of its own costs
    -- one.
    pub circuit-budget :
        (other : Ip)
        → counts is_loopback ip (circuit t other) g * exactly token
            + effective t (lookup ip (allow_circuit is_loopback t other g).0.clients)
          ≤ effective t (lookup ip g.clients) + asks is_loopback ip (circuit t other) * slack
    circuit-budget other = elim (Bool-cases (e.beq other ip)) [
      | inl same ↦ let key : other ≡ ip = (e.beq_iff other ip).0 same in rw key own_budget
      | inr apart ↦ elim (Bool-cases (skips other)) [
        | inl free ↦ rw (apart, circuit-result other, free) (omega arith)
        | inr limited ↦
            rw
              (
                apart,
                circuit-result other,
                limited,
                lookup-insert other ip (after_circuit t (lookup other g.clients)).0 g.clients,
                apart,
              )
              (omega arith)
      ]
    ]

    pub connection-budget :
        (other : Ip)
        → effective t (lookup ip (allow_connection is_loopback t other g).0.clients)
          ≡ effective t (lookup ip g.clients)
    connection-budget other = elim (Bool-cases (skips other)) [
      | inl free ↦ rw (connection-result other, free) refl
      | inr limited ↦
          rw
            (
              connection-result other,
              limited,
              lookup-insert other ip (after_connection t (lookup other g.clients)).0 g.clients,
            )
            (elim (Bool-cases (e.beq other ip)) [
              | inr apart ↦ rw apart refl
              | inl same ↦
                  let key : other ≡ ip = (e.beq_iff other ip).0 same in
                  rw same (rw key (connection-effective t (lookup ip g.clients)))
            ])
    ]

    pub closed-budget :
        (other : Ip)
        → effective t (lookup ip (release_connection t other g).clients)
          ≡ effective t (lookup ip g.clients)
    unfolding release_connection
    closed-budget other =
        rw (lookup-update other ip (released t) g.clients) (elim (Bool-cases (e.beq other ip)) [
          | inl same ↦ rw same (released-effective t (lookup ip g.clients))
          | inr apart ↦ rw apart refl
        ])

    pub swept-budget :
        effective t (lookup ip (cleanup t g).clients) ≡ effective t (lookup ip g.clients)
    unfolding cleanup
    swept-budget =
        rw (lookup-retain (λ other st. is_current t st) ip g.clients l.keyed)
          (cleaned-effective t (lookup ip g.clients) IsSane-at)
