-- ===== src/Padding/Rate.antt =====
-- Padding cells keep their distance, and a scheduler that says to sleep says for exactly how long.
use phinet.Prelude.{
  ℕ, ◌+◌, ◌-◌, ◌≤◌, ◌<◌, ◌≡◌, ◌≢◌, List, [], ◌∷◌, arith, inl, inr, leb, ltb, leb→le, Bool-cases,
}
use phinet.Padding.{
  PaddingScheduler, no_padding, constant_rate, adaptive_burst, ConstantRate, AdaptiveBurst,
  PadDecision, now_cell, sleep_for, never, should_pad_now, on_real_cell, on_padding_cell,
}

-- The shortest distance that a scheduler promises between two padding cells.
abbrev pub spacing : PaddingScheduler → ℕ
spacing no_padding = 0
spacing (constant_rate c) = c.interval
spacing (adaptive_burst a) = a.padding_interval

-- What the loop of a circuit does at one time: forward a real cell, or ask and pad if told to.
pub data Turn : Type 0 where
  real : ℕ → Turn
  poll : ℕ → Turn

pad_if : PadDecision → ℕ → PaddingScheduler → PaddingScheduler
pad_if now_cell now s = on_padding_cell s now
pad_if (sleep_for d) now s = s
pad_if never now s = s

pub turn : PaddingScheduler → Turn → PaddingScheduler
unfolding pad_if
turn s (real now) = on_real_cell s now
turn s (poll now) = pad_if (should_pad_now s now) now s

-- The times at which padding cells leave.
unfoldable pub pad_times : PaddingScheduler → List Turn → List ℕ
pad_times s [] = []
pad_times s (real now ∷ ts) = pad_times (on_real_cell s now) ts
pad_times s (poll now ∷ ts) = elim (should_pad_now s now) [
  | now_cell ↦ now ∷ pad_times (on_padding_cell s now) ts
  | _ ↦ pad_times s ts
]

-- Each time at least `d` after the one before it, the first at least `d` after `last`.
abbrev pub Spaced : ℕ → ℕ → List ℕ → Type 0
Spaced d last [] = Unit {0}
Spaced d last (t ∷ ts) = (last + d ≤ t) × Spaced d t ts

abbrev pub last_pad : PaddingScheduler → ℕ
last_pad no_padding = 0
last_pad (constant_rate c) = c.last_padding
last_pad (adaptive_burst a) = a.last_padding

pad_times-constant :
    (ts : List Turn) (c : ConstantRate)
    → 0 < c.interval
    → Spaced c.interval c.last_padding (pad_times (constant_rate c) ts)
unfolding pad_times should_pad_now on_real_cell on_padding_cell
pad_times-constant [] c pos = tt
pad_times-constant (real now ∷ ts) c pos = pad_times-constant ts c pos
pad_times-constant (poll now ∷ ts) c pos =
    elim (Bool-cases (leb c.interval (now - c.last_padding))) [
      | inl due ↦
          rw (due, pad_times)
            (
              omega (arith, leb→le c.interval (now - c.last_padding) due),
              pad_times-constant ts (record c { last_padding = now }) pos,
            )
      | inr early ↦ rw (early, pad_times) (pad_times-constant ts c pos)
    ]

pad_times-adaptive :
    (ts : List Turn) (a : AdaptiveBurst)
    → 0 < a.padding_interval
    → Spaced a.padding_interval a.last_padding (pad_times (adaptive_burst a) ts)
unfolding pad_times should_pad_now on_real_cell on_padding_cell
pad_times-adaptive [] a pos = tt
pad_times-adaptive (real now ∷ ts) a pos = pad_times-adaptive ts (record a { last_real = now }) pos
pad_times-adaptive (poll now ∷ ts) a pos =
    elim (Bool-cases (ltb (now - a.last_real) a.idle_threshold)) [
      | inl busy ↦ rw (busy, pad_times) (pad_times-adaptive ts a pos)
      | inr idle ↦ elim (Bool-cases (leb a.padding_interval (now - a.last_padding))) [
        | inl due ↦
            rw (idle, pad_times, due)
              (
                omega (arith, leb→le a.padding_interval (now - a.last_padding) due),
                pad_times-adaptive ts (record a { last_padding = now }) pos,
              )
        | inr early ↦ rw (idle, pad_times, early) (pad_times-adaptive ts a pos)
      ]
    ]

-- Whatever real cells come and whenever the loop asks, padding cells leave at least the scheduler's
-- interval apart, and the first that long after the last one before.
pub pad_times-Spaced :
    (s : PaddingScheduler) (ts : List Turn)
    → 0 < spacing s
    → Spaced (spacing s) (last_pad s) (pad_times s ts)
pad_times-Spaced no_padding ts pos = absurd (omega arith)
pad_times-Spaced (constant_rate c) ts pos = pad_times-constant ts c pos
pad_times-Spaced (adaptive_burst a) ts pos = pad_times-adaptive ts a pos

-- A scheduler that says to sleep for `d` asks for no cell before `d` is over, unless a cell comes
-- between.
pub sleep_for-early :
    (s : PaddingScheduler) (now d e : ℕ)
    → should_pad_now s now ≡ sleep_for d
    → e < d
    → should_pad_now s (now + e) ≢ now_cell
unfolding should_pad_now
sleep_for-early no_padding now d e h lt q = absurd cc
sleep_for-early (constant_rate c) now d e h lt q = absurd (ground arith)
sleep_for-early (adaptive_burst a) now d e h lt q = absurd (ground arith)

-- And when `d` is over a constant rate asks for one.
pub sleep_for-due :
    (c : ConstantRate) (now d : ℕ)
    → c.last_padding ≤ now
    → should_pad_now (constant_rate c) now ≡ sleep_for d
    → should_pad_now (constant_rate c) (now + d) ≡ now_cell
unfolding should_pad_now
sleep_for-due c now d le h = ground arith
