-- ===== src/Congestion/Bounds.antt =====
-- The window stays within its limits.
use phinet.Prelude.{◌≤◌, arith}
use phinet.Congestion.{
  Vegas, new, on_send, on_sendme, update_cwnd, sample_rtt, free_window, fold_rtt, cc_cwnd_min,
  cc_cwnd_max, Instant,
}

pub record Within (v : Vegas) : Type 0 where
  pub floor : cc_cwnd_min ≤ v.cwnd
  pub ceiling : v.cwnd ≤ cc_cwnd_max

pub new-Within : Within new
unfolding new
new-Within = omega arith

pub on_send-Within : (now : Instant) (v : Vegas) → Within v → Within (on_send now v)
unfolding on_send
on_send-Within now v w = record { floor = w.floor; ceiling = w.ceiling }

update_cwnd-Within : (v : Vegas) → Within v → Within (update_cwnd v)
unfolding update_cwnd
update_cwnd-Within v w = ground arith

-- An acknowledgement keeps the congestion window between its floor and its ceiling.
pub on_sendme-Within : (now : Instant) (v : Vegas) → Within v → Within (on_sendme now v).0
unfolding on_sendme sample_rtt free_window fold_rtt
on_sendme-Within now v w = ground arith
