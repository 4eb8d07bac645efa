-- ===== src/Congestion/Rule.antt =====
-- `update_cwnd` against the rule that the header of congestion.rs states.
use phinet.Prelude.{
  ℕ, ◌+◌, ◌*◌, ◌<◌, ◌-◌, ◌/◌, min, max, ◌≡◌, ◌↔◌, Bool, some, true, false, ltb, if◌then◌else◌,
  arith,
}
use phinet.Prelude.Word.{u32_mod, u32_max}
use phinet.Congestion.{
  queued, Vegas, on_sendme, update_cwnd, queue_estimate, cc_cwnd_min, cc_cwnd_max, cc_cwnd_inc,
  cc_vegas_alpha, cc_vegas_beta, cc_vegas_gamma, cc_sendme_inc, Instant, sample_rtt, free_window,
  fold_rtt,
}
use phinet.Congestion.Bounds.{Within}

div_lt_iff : (n d k : ℕ) → 0 < d → (n / d < k) ↔ (n < k * d)
div_lt_iff n d k pos = (λ h. grind arith, λ h. grind arith)

below : (q n d k : ℕ) → 0 < d → q ≡ min (n / d) u32_max → k < u32_max → ltb n (k * d) ≡ ltb q k
below q n d k pos queue small = ground (arith, div_lt_iff n d k pos, queue)

-- The rule of the header, from the two round trips alone and without a division. Of a window of
-- `cwnd` cells, `cwnd * base / rtt` fit the path, so that the queue is below `k` cells where
-- `cwnd * (rtt - base) < k * rtt`.
abbrev pub vegas_rule : Bool → ℕ → ℕ → ℕ → ℕ
vegas_rule starting cwnd rtt base =
    let excess = cwnd * (rtt - base) in
    if starting
    then (if ltb excess ((cc_vegas_gamma + 1) * rtt)
        then min cc_cwnd_max (cwnd + cc_sendme_inc)
        else max cc_cwnd_min (cwnd * 3 / 4))
    else if ltb excess (cc_vegas_alpha * rtt)
    then min cc_cwnd_max (cwnd + cc_cwnd_inc)
    else if ltb excess ((cc_vegas_beta + 1) * rtt)
    then cwnd
    else max cc_cwnd_min (cwnd - cc_cwnd_inc)

-- With both round trips measured and the window within its limits, one update is the rule of the
-- header, in slow start and after it: grow by an increment below the lower threshold on the queue,
-- and above the upper one shrink, by an increment, or to three quarters in slow start. In between
-- the window stays. The count of acknowledgements is below its 32-bit wrap.
pub update_cwnd-vegas_rule :
    (v : Vegas) (rtt base : ℕ)
    → Within v
    → v.rtt_ewma ≡ some rtt
    → v.rtt_min ≡ some base
    → 0 < rtt
    → v.acks_since_inc + 1 < u32_mod
    → (update_cwnd v).cwnd ≡ vegas_rule v.slow_start v.cwnd rtt base
unfolding update_cwnd
update_cwnd-vegas_rule v rtt base w srtt least pos a =
    let excess = v.cwnd * (rtt - base) in
    let queue : queue_estimate v ≡ min (excess / rtt) u32_max =
      unfold queue_estimate queued in rw (srtt, least) (ground arith) in
    let at = below (queue_estimate v) excess rtt in
    rw
      (
        at cc_vegas_alpha pos queue (omega arith),
        at (cc_vegas_beta + 1) pos queue (omega arith),
        at (cc_vegas_gamma + 1) pos queue (omega arith),
      )
      (ground (arith, w))

-- In slow start, with a window within its limits, one acknowledgement either adds a whole increment and stays, or sees a queue
-- above gamma, leaves for good and falls back to three quarters.
pub update_cwnd-slow_start :
    (v : Vegas)
    → Within v
    → v.slow_start ≡ true
    → ((update_cwnd v).slow_start ≡ (if ltb cc_vegas_gamma (queue_estimate v) then false else true))
      × ((update_cwnd v).cwnd ≡ (
          if ltb cc_vegas_gamma (queue_estimate v)
          then max cc_cwnd_min (v.cwnd * 3 / 4)
          else min cc_cwnd_max (v.cwnd + cc_sendme_inc)))
unfolding update_cwnd
update_cwnd-slow_start v w s = ground arith

-- Slow start is never entered again.
pub slow_start_left :
    (now : Instant) (v : Vegas) → v.slow_start ≡ false → (on_sendme now v).0.slow_start ≡ false
unfolding on_sendme sample_rtt free_window fold_rtt
slow_start_left now v h = ground arith
