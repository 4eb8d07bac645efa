-- ===== src/Congestion/Rtt.antt =====
-- The estimator behind the window: `fold_rtt` and `queue_estimate`.
use native.Mathlib.Nat.{div-le_of_le-mul}
use phinet.Prelude.{ℕ, ◌*◌, ◌≤◌, ◌<◌, ◌-◌, ◌/◌, ◌≡◌, Option, none, some, arith}
use phinet.Prelude.Word.{u64_mod}
use phinet.Congestion.{
  Vegas, new, on_send, on_sendme, update_cwnd, sample_rtt, free_window, queue_estimate, queued,
  fold_rtt, Instant, Duration,
}

-- Both estimates or none, the minimum below the average, the average a 64-bit count.
abbrev pub Paired : Option Duration → Option Duration → Type 0
Paired none none = Unit {0}
Paired (some m) (some e) = (m ≤ e) × (e < u64_mod)
Paired _ _ = ⊥

abbrev pub Estimated : Vegas → Type 0
Estimated v = Paired v.rtt_min v.rtt_ewma

pub new-Estimated : Estimated new
unfolding new
new-Estimated = tt

pub on_send-Estimated : (now : Instant) (v : Vegas) → Estimated v → Estimated (on_send now v)
unfolding on_send
on_send-Estimated now v h = h

fold_rtt-Estimated :
    (sample : Duration) (v : Vegas) → sample < u64_mod → Estimated v → Estimated (fold_rtt sample v)
unfolding fold_rtt
fold_rtt-Estimated sample v lt h = ground arith

update_cwnd-rtt :
    (v : Vegas) → ((update_cwnd v).rtt_min ≡ v.rtt_min) × ((update_cwnd v).rtt_ewma ≡ v.rtt_ewma)
unfolding update_cwnd
update_cwnd-rtt v = ground arith

-- An acknowledgement at a 64-bit time keeps both estimates or none, and the smallest round trip at or below the smoothed one.
pub on_sendme-Estimated :
    (now : Instant) (v : Vegas) → now < u64_mod → Estimated v → Estimated (on_sendme now v).0
unfolding on_sendme sample_rtt free_window fold_rtt
on_sendme-Estimated now v lt h = ground arith

mul-div-le_of_le : (c x r : ℕ) → x ≤ r → c * x / r ≤ c
mul-div-le_of_le c x r h = div-le_of_le-mul r (grind arith)

-- The estimate never exceeds the window itself, so its `u32` cap is never met by a valid window.
pub queue_estimate-le : (v : Vegas) → queue_estimate v ≤ v.cwnd
unfolding queue_estimate
queue_estimate-le v = go v.cwnd v.rtt_ewma v.rtt_min
  where
    go : (c : ℕ) (rtt least : Option Duration) → queued c rtt least ≤ c
    go c (some rtt) (some least) =
        ground (arith, mul-div-le_of_le c (rtt - least) rtt (omega arith))
    go c none least = omega arith
    go c (some rtt) none = omega arith
