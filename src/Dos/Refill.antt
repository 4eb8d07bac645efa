-- ===== src/Dos/Refill.antt =====
-- One client's tokens in phinet-core/src/dos.rs.
use phinet.Prelude.{
  ◌*◌, ◌^◌, leb, ℕ, ◌+◌, ◌-◌, ◌≤◌, ◌≡◌, refl, min, Option, none, some, Bool, arith, if◌then◌else◌,
  Bool-cases, inl, inr,
}
use phinet.Dos.Float.{one, rounded, rounded-le, as_secs_f64, as_secs_f64-le}
use phinet.Prelude.Map.{keep_if, map_option}
use phinet.Dos.{
  second, ClientStats, token, ceiling, max_conns_per_ip, refill, or_new, spend, connect, is_current,
  released,
}

-- Tokens in billionths of the unit, in which a nanosecond's worth is exact.
abbrev pub exactly : ℕ → ℕ
exactly tokens = tokens * second

-- What rounding can add to a client's tokens at one call: 2^-43 of a token.
abbrev pub slack : ℕ
slack = exactly (2 ^ 40)

-- What a client would have at a time without rounding: all of it, for one not in the table.
pub effective : ℕ → Option ClientStats → ℕ
effective now none = exactly ceiling
effective now (some st) = min (exactly st.tokens + (now - st.last_refill) * one) (exactly ceiling)

refill-le :
    (t nanos : ℕ)
    → t ≤ ceiling
    → exactly (min (rounded (t + as_secs_f64 nanos)) ceiling)
      ≤ min (exactly t + nanos * one) (exactly ceiling) + exactly (2 ^ 39 + 2 ^ 38)
refill-le t nanos capped = elim (Bool-cases (leb nanos (81 * second))) [
  | inl short ↦
      let brief : nanos ≤ 81 * second = ground (arith, short) in
      let secs = as_secs_f64-le nanos brief in
      let sum =
        rounded-le (t + as_secs_f64 nanos) (2 ^ 39) (omega arith)
          (omega (arith, secs, brief, capped)) in
      omega (arith, secs, sum)
  | inr long ↦ ground (arith, long)
]

spend-le : (t : ℕ) → t ≤ ceiling → token ≤ t → rounded (t - token) + token ≤ t + 2 ^ 37
spend-le t capped enough =
    let taken = rounded-le (t - token) (2 ^ 38) (omega arith) (omega (arith, capped)) in
    omega (arith, taken, enough)

-- Times do not run ahead, the tokens do not pass the ceiling, nor the connections their limit.
pub record StatsAreSane (now : ℕ) (st : ClientStats) : Type 0 where
  pub seen : st.last_seen ≤ now
  pub filled : st.last_refill ≤ st.last_seen
  pub capped : st.tokens ≤ ceiling
  pub connected : st.conns ≤ max_conns_per_ip

abbrev pub IsSane : ℕ → Option ClientStats → Type 0
IsSane now none = Unit
IsSane now (some st) = StatsAreSane now st

abbrev pub after_circuit : ℕ → Option ClientStats → ClientStats × Bool
after_circuit now o = spend (refill now (record (or_new now o) { last_seen = now }))

abbrev pub after_connection : ℕ → Option ClientStats → ClientStats × Bool
after_connection now o = connect (record (or_new now o) { last_seen = now })

abbrev pub cost : Bool → ℕ
cost allowed = if allowed then exactly token else 0

pub effective-le : (now : ℕ) (o : Option ClientStats) → effective now o ≤ exactly ceiling
unfolding effective
effective-le now none = omega arith
effective-le now (some st) = omega arith

module _ (now : ℕ) where
  pub or_new-sane :
      (o : Option ClientStats)
      → IsSane now o
      → StatsAreSane now (record (or_new now o) { last_seen = now })
  or_new-sane none sane = record {
    seen = omega arith;
    filled = omega arith;
    capped = omega arith;
    connected = omega arith;
  }
  or_new-sane (some st) sane = record {
    seen = omega arith;
    filled = omega (arith, sane.seen, sane.filled);
    capped = sane.capped;
    connected = sane.connected;
  }

  pub circuit-sane :
      (o : Option ClientStats) → IsSane now o → StatsAreSane now (after_circuit now o).0
  unfolding spend refill
  circuit-sane none sane = record {
    seen = ground arith;
    filled = ground arith;
    capped =
        ground (
          arith,
          spend-le (min (rounded (ceiling + as_secs_f64 (now - now))) ceiling) (omega arith),
        );
    connected = ground arith;
  }
  circuit-sane (some st) sane = record {
    seen = ground arith;
    filled = ground arith;
    capped = ground (
      arith,
      spend-le (min (rounded (st.tokens + as_secs_f64 (now - st.last_refill))) ceiling)
          (omega arith),
    );
    connected = ground (arith, sane.connected);
  }

  pub connection-sane :
      (o : Option ClientStats) → IsSane now o → StatsAreSane now (after_connection now o).0
  unfolding connect
  connection-sane none sane = record {
    seen = ground arith;
    filled = ground arith;
    capped = ground arith;
    connected = ground arith;
  }
  connection-sane (some st) sane = record {
    seen = ground arith;
    filled = ground (arith, sane.seen, sane.filled);
    capped = ground (arith, sane.capped);
    connected = ground (arith, sane.connected);
  }

  pub circuit-effective :
      (o : Option ClientStats)
      → IsSane now o
      → cost (after_circuit now o).1 + effective now (some (after_circuit now o).0)
        ≤ effective now o + slack
  unfolding spend refill effective
  circuit-effective none sane =
      let all = refill-le ceiling (now - now) (omega arith) in
      let left =
        spend-le (min (rounded (ceiling + as_secs_f64 (now - now))) ceiling) (omega arith) in
      ground (arith, all, left)
  circuit-effective (some st) sane =
      let elapsed = now - st.last_refill in
      let all = refill-le st.tokens elapsed sane.capped in
      let left = spend-le (min (rounded (st.tokens + as_secs_f64 elapsed)) ceiling) (omega arith) in
      ground (arith, all, left)

  pub connection-effective :
      (o : Option ClientStats) → effective now (some (after_connection now o).0) ≡ effective now o
  unfolding connect effective
  connection-effective none = ground arith
  connection-effective (some st) = ground arith

  pub released-effective :
      (o : Option ClientStats) → effective now (map_option (released now) o) ≡ effective now o
  unfolding effective
  released-effective none = refl
  released-effective (some st) = refl

  pub released-IsSane :
      (o : Option ClientStats) → IsSane now o → IsSane now (map_option (released now) o)
  released-IsSane none sane = tt
  released-IsSane (some st) sane = record {
    seen = omega arith;
    filled = omega (arith, sane.seen, sane.filled);
    capped = sane.capped;
    connected = omega (arith, sane.connected);
  }

  -- A client that `cleanup` forgets had all its tokens back.
  pub cleaned-effective :
      (o : Option ClientStats)
      → IsSane now o
      → effective now (keep_if (is_current now) o) ≡ effective now o
  unfolding effective is_current
  cleaned-effective none sane = refl
  cleaned-effective (some st) sane = ground (arith, sane.seen, sane.filled)

  pub cleaned-IsSane :
      (o : Option ClientStats) → IsSane now o → IsSane now (keep_if (is_current now) o)
  cleaned-IsSane none sane = tt
  cleaned-IsSane (some st) sane = elim (Bool-cases (is_current now st)) [
    | inl kept ↦ rw kept sane
    | inr dropped ↦ rw dropped tt
  ]

  pub effective-later :
      (later : ℕ) (o : Option ClientStats)
      → now ≤ later
      → effective later o ≤ effective now o + (later - now) * one
  unfolding effective
  effective-later later none h = omega arith
  effective-later later (some st) h = omega arith

  pub IsSane-later :
      (later : ℕ) (o : Option ClientStats) → now ≤ later → IsSane now o → IsSane later o
  IsSane-later later none h sane = tt
  IsSane-later later (some st) h sane = record {
    seen = omega (arith, sane.seen, h);
    filled = sane.filled;
    capped = sane.capped;
    connected = sane.connected;
  }
