-- ===== src/Dos/Rate.antt =====
-- What one address can get out of a relay with the limits of phinet-core/src/dos.rs, over any
-- history of calls by it and by others, clean-ups included.
use phinet.Prelude.{ℕ, ◌+◌, ◌-◌, ◌*◌, ◌≤◌, List, [], ◌∷◌, Bool, arith}
use phinet.Prelude.Eq.{Eq}
use phinet.Prelude.Map.{lookup}
use phinet.Dos.{DosGuard, token, ceiling}
use phinet.Dos.Float.{one}
use phinet.Dos.Refill.{exactly, slack, effective, effective-le, effective-later}
use phinet.Dos.Events.{
  DosEvent, circuit, connection, closed, swept, time_of, InOrder, end_time, dos_step, counts, asks,
  asked, allowed, Limits,
}
use phinet.Dos.Steps.{
  circuit-Limits, connection-Limits, closed-Limits, swept-Limits, circuit-budget, connection-budget,
  closed-budget, swept-budget,
}

end_time-ge :
    {Ip : Type 0} (now : ℕ) (events : List (DosEvent Ip))
    → InOrder now events
    → now ≤ end_time now events
end_time-ge now [] in_order = omega arith
end_time-ge now (e ∷ events) in_order =
    omega (arith, in_order.0, end_time-ge (time_of e) events in_order.1)

module _ {Ip : Type 0} ⦃e : Eq Ip⦄ (is_loopback : Ip → Bool) where
  dos_step-Limits :
      (ip : Ip) (now : ℕ) (ev : DosEvent Ip) (g : DosGuard Ip)
      → now ≤ time_of ev
      → Limits is_loopback ip now g
      → Limits is_loopback ip (time_of ev) (dos_step is_loopback ev g)
  unfolding dos_step
  dos_step-Limits ip now (circuit t other) g later l =
      circuit-Limits is_loopback ip now t g l later other
  dos_step-Limits ip now (connection t other) g later l =
      connection-Limits is_loopback ip now t g l later other
  dos_step-Limits ip now (closed t other) g later l =
      closed-Limits is_loopback ip now t g l later other
  dos_step-Limits ip now (swept t) g later l = swept-Limits is_loopback ip now t g l later

  dos_step-budget :
      (ip : Ip) (now : ℕ) (ev : DosEvent Ip) (g : DosGuard Ip)
      → now ≤ time_of ev
      → Limits is_loopback ip now g
      → counts is_loopback ip ev g * exactly token
          + effective (time_of ev) (lookup ip (dos_step is_loopback ev g).clients)
        ≤ effective (time_of ev) (lookup ip g.clients) + asks is_loopback ip ev * slack
  unfolding dos_step
  dos_step-budget ip now (circuit t other) g later l =
      circuit-budget is_loopback ip now t g l later other
  dos_step-budget ip now (connection t other) g later l =
      omega (arith, connection-budget is_loopback ip now t g l later other)
  dos_step-budget ip now (closed t other) g later l =
      omega (arith, closed-budget is_loopback ip now t g l later other)
  dos_step-budget ip now (swept t) g later l =
      omega (arith, swept-budget is_loopback ip now t g l later)

  allowed-budget :
      (ip : Ip) (now : ℕ) (events : List (DosEvent Ip)) (g : DosGuard Ip)
      → InOrder now events
      → Limits is_loopback ip now g
      → allowed is_loopback ip events g * exactly token
        ≤ effective now (lookup ip g.clients)
          + (end_time now events - now) * one
          + asked is_loopback ip events * slack
  unfolding allowed asked
  allowed-budget ip now [] g in_order l = omega arith
  allowed-budget ip now (ev ∷ events) g in_order l =
      let t = time_of ev in
      let rest =
        allowed-budget ip t events (dos_step is_loopback ev g) in_order.1
          (dos_step-Limits ip now ev g in_order.0 l) in
      omega (
        arith,
        rest,
        dos_step-budget ip now ev g in_order.0 l,
        effective-later now t (lookup ip g.clients) in_order.0,
        in_order.0,
        end_time-ge t events in_order.1,
      )

  -- In any stretch of time an address that is not exempt is allowed at most eighty circuits, and
  -- one more for each second of it, but for what the floating-point count of tokens rounds: 2^-43
  -- of a circuit at each that it asks for. So it is whatever it and others do and however often
  -- idle entries are swept away in between.
  pub allowed-le :
      (ip : Ip) (start : ℕ) (events : List (DosEvent Ip)) (g : DosGuard Ip)
      → InOrder start events
      → Limits is_loopback ip start g
      → allowed is_loopback ip events g * exactly token
        ≤ exactly ceiling
          + (end_time start events - start) * one
          + asked is_loopback ip events * slack
  allowed-le ip start events g in_order l =
      omega (
        arith,
        allowed-budget ip start events g in_order l,
        effective-le start (lookup ip g.clients),
      )
