-- ===== src/Padding.antt =====
-- phinet-core/src/padding.rs: when a circuit sends cover cells. The trait's implementations are the
-- constructors; a time or a duration is in nanoseconds, and `duration_since` stops at 0. A mutex
-- that holds a time is the time.
pub mod Rate
mod Tests
use phinet.Prelude.{ℕ, ◌-◌, leb, ltb, if◌then◌else◌, String}

pub data PadDecision : Type 0 where
  now_cell : PadDecision
  sleep_for : ℕ → PadDecision
  never : PadDecision

pub record ConstantRate : Type 0 where
  pub interval : ℕ
  pub last_padding : ℕ

pub record AdaptiveBurst : Type 0 where
  pub idle_threshold : ℕ
  pub padding_interval : ℕ
  pub last_real : ℕ
  pub last_padding : ℕ

pub data PaddingScheduler : Type 0 where
  no_padding : PaddingScheduler
  constant_rate : ConstantRate → PaddingScheduler
  adaptive_burst : AdaptiveBurst → PaddingScheduler

-- `ConstantRate::new` and `AdaptiveBurst::new`, at the time of the call.
pub new_constant_rate : ℕ → ℕ → PaddingScheduler
new_constant_rate interval now = constant_rate (record { interval = interval; last_padding = now })

pub new_adaptive_burst : ℕ → ℕ → ℕ → PaddingScheduler
new_adaptive_burst idle_threshold padding_interval now = adaptive_burst (record {
  idle_threshold = idle_threshold;
  padding_interval = padding_interval;
  last_real = now;
  last_padding = now;
})

pub name : PaddingScheduler → String
name no_padding = "none"
name (constant_rate c) = "constant-rate"
name (adaptive_burst a) = "adaptive-burst"

unfoldable pub should_pad_now : PaddingScheduler → ℕ → PadDecision
should_pad_now no_padding now = never
should_pad_now (constant_rate c) now =
    let elapsed = now - c.last_padding in
    if leb c.interval elapsed then now_cell else sleep_for (c.interval - elapsed)
should_pad_now (adaptive_burst a) now =
    let real_idle = now - a.last_real in
    let padding_idle = now - a.last_padding in
    if ltb real_idle a.idle_threshold
    then sleep_for (a.idle_threshold - real_idle)
    else if leb a.padding_interval padding_idle
    then now_cell
    else sleep_for (a.padding_interval - padding_idle)

unfoldable pub on_real_cell : PaddingScheduler → ℕ → PaddingScheduler
on_real_cell no_padding now = no_padding
on_real_cell (constant_rate c) now = constant_rate c
on_real_cell (adaptive_burst a) now = adaptive_burst (record a { last_real = now })

unfoldable pub on_padding_cell : PaddingScheduler → ℕ → PaddingScheduler
on_padding_cell no_padding now = no_padding
on_padding_cell (constant_rate c) now = constant_rate (record c { last_padding = now })
on_padding_cell (adaptive_burst a) now = adaptive_burst (record a { last_padding = now })
