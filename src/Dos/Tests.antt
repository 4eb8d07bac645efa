-- ===== src/Dos/Tests.antt =====
-- One address over two seconds.
use phinet.Prelude.{ℕ, ◌+◌, ◌-◌, ◌*◌, ◌≤◌, ◌/◌, ◌≡◌, refl, List, [], ◌∷◌, Bool, true, false, arith}
use phinet.Prelude.Eq.{nat_eq}
use phinet.Prelude.Map.{lookup}
use phinet.Dos.{DosGuard, token, ceiling, second, is_exempt}
use phinet.Dos.Events.{DosEvent, circuit, connection, swept, end_time, asked, allowed, Limits}
use phinet.Dos.Float.{one, as_secs_f64}
use phinet.Dos.Refill.{exactly, slack}
use phinet.Dos.Rate.{allowed-le}

abbrev never : ℕ → Bool
never ip = false

abbrev enabled_guard : DosGuard ℕ
enabled_guard = record { clients = []; exempt = []; enabled = true }

abbrev flood : List (DosEvent ℕ)
flood = circuit 0 7 ∷ connection second 7 ∷ circuit second 7 ∷ swept (2 * second) ∷ []

enabled_guard-Limits : Limits never 7 0 enabled_guard
unfolding is_exempt lookup
enabled_guard-Limits = record { on = refl; not_exempt = refl; sane = tt; keyed = tt }

allowed-le_example :
    allowed never 7 flood enabled_guard * exactly token
    ≤ exactly ceiling + (end_time 0 flood - 0) * one + asked never 7 flood * slack
allowed-le_example =
    allowed-le never 7 0 flood enabled_guard
      (omega arith, (omega arith, (omega arith, (omega arith, tt)))) enabled_guard-Limits

half : as_secs_f64 1500000000 ≡ one + one / 2
unfolding as_secs_f64
half = refl

-- 0.333333333, as the nearest number of 53 bits.
third : as_secs_f64 333333333 ≡ 3223802182415209038086144
unfolding as_secs_f64
third = refl
