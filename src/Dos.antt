-- ===== src/Dos.antt =====
-- The limits of phinet-core/src/dos.rs on circuits and connections from one address. Times are
-- nanoseconds. Tokens are floating-point numbers, rounded as in Dos/Float.antt and counted in its
-- unit. Addresses are a type with equality, and the loopback test a parameter.

mod Tests
pub mod Refill
pub mod Float
pub mod Events
pub mod Steps
pub mod Rate
use phinet.Prelude.{
  ℕ, ◌+◌, ◌-◌, ◌*◌, min, List, [], ◌∷◌, Option, none, some, Bool, true, false, not, ◌&&◌, ◌||◌,
  length, ltb, leb, if◌then◌else◌,
}
use phinet.Prelude.Eq.{Eq}
use phinet.Prelude.Map.{Map, lookup, insert, update, retain}
use phinet.Prelude.Order.{sort_by_key, descending}
use phinet.Dos.Float.{one, rounded, as_secs_f64}

abbrev pub second : ℕ
second = 1000000000

abbrev pub max_circuits_per_min : ℕ
max_circuits_per_min = 60

abbrev pub circuit_burst : ℕ
circuit_burst = 20

abbrev pub max_conns_per_ip : ℕ
max_conns_per_ip = 12

abbrev pub stale_after : ℕ
stale_after = 10 * 60 * second

-- A token, and the most that a client can save up.
abbrev pub token : ℕ
token = one

abbrev pub ceiling : ℕ
ceiling = (max_circuits_per_min + circuit_burst) * token

pub record ClientStats : Type 0 where
  pub tokens : ℕ
  pub last_refill : ℕ
  pub conns : ℕ
  pub last_seen : ℕ
  pub refused : ℕ

abbrev pub new_client : ℕ → ClientStats
new_client now = record {
  tokens = ceiling;
  last_refill = now;
  conns = 0;
  last_seen = now;
  refused = 0;
}

-- 60 circuits in a window of 60 seconds refill one token a second, and a product with 1.0 is exact.
unfoldable pub refill : ℕ → ClientStats → ClientStats
refill now st = record st {
  tokens = min (rounded (st.tokens + as_secs_f64 (now - st.last_refill))) ceiling;
  last_refill = now;
}

-- `entry(ip).or_insert_with(…)`
abbrev pub or_new : ℕ → Option ClientStats → ClientStats
or_new now none = new_client now
or_new now (some st) = st

-- The limiter's decision for a client whose tokens are up to date.
unfoldable pub spend : ClientStats → ClientStats × Bool
spend st =
    if leb token st.tokens
    then (record st { tokens = rounded (st.tokens - token) }, true)
    else (record st { refused = st.refused + 1 }, false)

unfoldable pub connect : ClientStats → ClientStats × Bool
connect st =
    if leb max_conns_per_ip st.conns
    then (record st { refused = st.refused + 1 }, false)
    else (record st { conns = st.conns + 1 }, true)

abbrev pub released : ℕ → ClientStats → ClientStats
released now st = record st { conns = st.conns - 1; last_seen = now }

-- What `cleanup` keeps.
unfoldable pub is_current : ℕ → ClientStats → Bool
is_current now st = ltb 0 st.conns || ltb (now - st.last_seen) stale_after

pub record DosGuard (Ip : Type 0) : Type 0 where
  pub clients : List (Ip × ClientStats)
  pub exempt : List Ip
  pub enabled : Bool

module _ {Ip : Type 0} where
  unfoldable pub new_guard : DosGuard Ip
  new_guard = record { clients = []; exempt = []; enabled = false }

  unfoldable pub set_enabled : Bool → DosGuard Ip → DosGuard Ip
  set_enabled on g = record g { enabled = on }

  unfoldable pub set_exempt : List Ip → DosGuard Ip → DosGuard Ip
  set_exempt addrs g = record g { exempt = addrs }

  -- `offenders`, those refused most first.
  unfoldable pub refused_of : List (Ip × ClientStats) → List (Ip × ℕ)
  refused_of [] = []
  refused_of ((ip, st) ∷ clients) =
      let rest = refused_of clients in if ltb 0 st.refused then (ip, st.refused) ∷ rest else rest

  unfoldable pub offenders : DosGuard Ip → List (Ip × ℕ)
  unfolding refused_of
  offenders g = sort_by_key descending (λ p. p.1) (refused_of g.clients)

abbrev pub refused_or_zero : Option ClientStats → ℕ
refused_or_zero none = 0
refused_or_zero (some st) = st.refused

module _ {Ip : Type 0} ⦃e : Eq Ip⦄ where
  unfoldable pub is_listed : Ip → List Ip → Bool
  is_listed ip [] = false
  is_listed ip (x ∷ xs) = e.beq x ip || is_listed ip xs

  unfoldable pub refused_count : Ip → DosGuard Ip → ℕ
  refused_count ip g = refused_or_zero (lookup ip g.clients)

  unfoldable pub release_connection : ℕ → Ip → DosGuard Ip → DosGuard Ip
  release_connection now ip g = record g { clients = update ip (released now) g.clients }

  unfoldable pub cleanup : ℕ → DosGuard Ip → DosGuard Ip
  unfolding is_current
  cleanup now g = record g { clients = retain (λ ip st. is_current now st) g.clients }

  module _ (is_loopback : Ip → Bool) where
    unfoldable pub is_exempt : Ip → DosGuard Ip → Bool
    unfolding is_listed
    is_exempt ip g = is_loopback ip || is_listed ip g.exempt

    -- `allow_circuit` and `allow_connection` once they have the client's entry.
    unfoldable pub allow_circuit : ℕ → Ip → DosGuard Ip → DosGuard Ip × Bool
    unfolding is_exempt refill spend
    allow_circuit now ip g =
        let st = or_new now (lookup ip g.clients) in
        let (spent, allowed) = spend (refill now (record st { last_seen = now })) in
        if not g.enabled || is_exempt ip g
        then (g, true)
        else (record g { clients = insert ip spent g.clients }, allowed)

    unfoldable pub allow_connection : ℕ → Ip → DosGuard Ip → DosGuard Ip × Bool
    unfolding is_exempt connect
    allow_connection now ip g =
        let st = or_new now (lookup ip g.clients) in
        let (connected, allowed) = connect (record st { last_seen = now }) in
        if not g.enabled || is_exempt ip g
        then (g, true)
        else (record g { clients = insert ip connected g.clients }, allowed)
