-- ===== src/Dos/Events.antt =====
-- Histories of calls of phinet-core/src/dos.rs.
use phinet.Prelude.{ℕ, ◌+◌, ◌≤◌, ◌≡◌, List, [], ◌∷◌, Bool, true, false, if◌then◌else◌}
use phinet.Prelude.Eq.{Eq}
use phinet.Prelude.Map.{lookup, Keyed}
use phinet.Dos.{DosGuard, is_exempt, release_connection, cleanup, allow_circuit, allow_connection}
use phinet.Dos.Refill.{IsSane}

pub data DosEvent (Ip : Type 0) : Type 0 where
  circuit : ℕ → Ip → DosEvent Ip
  connection : ℕ → Ip → DosEvent Ip
  closed : ℕ → Ip → DosEvent Ip
  swept : ℕ → DosEvent Ip

abbrev pub time_of : {Ip : Type 0} → DosEvent Ip → ℕ
time_of (circuit t ip) = t
time_of (connection t ip) = t
time_of (closed t ip) = t
time_of (swept t) = t

-- The clock does not run backwards.
abbrev pub InOrder : {Ip : Type 0} → ℕ → List (DosEvent Ip) → Type 0
InOrder now [] = Unit
InOrder now (e ∷ events) = (now ≤ time_of e) × InOrder (time_of e) events

abbrev pub end_time : {Ip : Type 0} → ℕ → List (DosEvent Ip) → ℕ
end_time now [] = now
end_time now (e ∷ events) = end_time (time_of e) events

module _ {Ip : Type 0} ⦃e : Eq Ip⦄ (is_loopback : Ip → Bool) where
  unfoldable pub dos_step : DosEvent Ip → DosGuard Ip → DosGuard Ip
  dos_step (circuit t ip) g = (allow_circuit is_loopback t ip g).0
  dos_step (connection t ip) g = (allow_connection is_loopback t ip g).0
  dos_step (closed t ip) g = release_connection t ip g
  dos_step (swept t) g = cleanup t g

  -- The circuits that `ip` was allowed.
  abbrev pub counts : Ip → DosEvent Ip → DosGuard Ip → ℕ
  counts ip (circuit t other) g =
      if e.beq other ip then (if (allow_circuit is_loopback t other g).1 then 1 else 0) else 0
  counts ip (connection t other) g = 0
  counts ip (closed t other) g = 0
  counts ip (swept t) g = 0

  -- The circuits that `ip` asked for.
  abbrev pub asks : Ip → DosEvent Ip → ℕ
  asks ip (circuit t other) = if e.beq other ip then 1 else 0
  asks ip (connection t other) = 0
  asks ip (closed t other) = 0
  asks ip (swept t) = 0

  unfoldable pub asked : Ip → List (DosEvent Ip) → ℕ
  asked ip [] = 0
  asked ip (ev ∷ events) = asks ip ev + asked ip events

  unfoldable pub allowed : Ip → List (DosEvent Ip) → DosGuard Ip → ℕ
  unfolding dos_step
  allowed ip [] g = 0
  allowed ip (ev ∷ events) g = counts ip ev g + allowed ip events (dos_step ev g)

  -- The limiter is on for an address that is not exempt; its entry is sane and the only one.
  pub record Limits (ip : Ip) (now : ℕ) (g : DosGuard Ip) : Type 0 where
    pub on : g.enabled ≡ true
    pub not_exempt : is_exempt is_loopback ip g ≡ false
    pub sane : IsSane now (lookup ip g.clients)
    pub keyed : Keyed g.clients
