-- ===== src/Padding/Tests.antt =====
-- Padding at concrete times.
use phinet.Prelude.{◌≡◌, refl, List, [], ◌∷◌, arith}
use phinet.Padding.{PaddingScheduler, adaptive_burst, should_pad_now, on_real_cell, on_padding_cell}
use phinet.Padding.Rate.{Turn, real, poll, pad_times, Spaced, spacing, last_pad, pad_times-Spaced}

abbrev burst : PaddingScheduler
burst =
    adaptive_burst
      (record { idle_threshold = 5; padding_interval = 10; last_real = 0; last_padding = 0 })

abbrev turns : List Turn
turns = poll 3 ∷ poll 12 ∷ real 14 ∷ poll 23 ∷ poll 30 ∷ []

burst_pads : pad_times burst turns ≡ 12 ∷ 23 ∷ []
unfolding pad_times should_pad_now on_real_cell on_padding_cell
burst_pads = refl

pad_times-Spaced_example : Spaced (spacing burst) (last_pad burst) (pad_times burst turns)
pad_times-Spaced_example = pad_times-Spaced burst turns (omega arith)
