-- ===== src/Congestion/Tests.antt =====
-- Runs of the congestion controller at concrete inputs.
use phinet.Prelude.{ℕ, ◌≡◌, refl, false, List, [], ◌∷◌, ◌++◌, some, none, replicate, arith}
use phinet.Congestion.{Vegas, new, can_send, on_send, on_sendme, update_cwnd, queue_estimate}
use phinet.Congestion.Rule.{update_cwnd-vegas_rule}
use phinet.Congestion.Runs.{Event, send, sendme, step, run, Inv, run-Inv}
use phinet.Congestion.Samples.{send_all, on_sendme-latest_trigger}

-- A queue of 200 cells, past slow start.
abbrev crowded : Vegas
crowded = record {
  cwnd = 400;
  inflight = 62;
  slow_start = false;
  rtt_min = some 50;
  rtt_ewma = some 100;
  sendme_trigger_sent = some 1000;
  total_sent = 620;
  acks_since_inc = 0;
}

crowded_queue : queue_estimate crowded ≡ 200
unfolding queue_estimate
crowded_queue = refl

crowded_shrinks : (update_cwnd crowded).cwnd ≡ 369
unfolding update_cwnd queue_estimate
crowded_shrinks = refl

abbrev history : List Event
history = replicate 31 (send 10) ++ sendme 60 ∷ send 70 ∷ []

history_counts : ((run new history).cwnd ≡ 155) × ((run new history).inflight ≡ 1)
unfolding run step new can_send on_send on_sendme queue_estimate
history_counts = (refl, refl)

update_cwnd-vegas_rule_example : (update_cwnd crowded).cwnd ≡ 369
update_cwnd-vegas_rule_example =
    update_cwnd-vegas_rule crowded 100 50 (omega arith) refl refl (omega arith) (omega arith)

run-Inv_example : Inv (run new history)
run-Inv_example = run-Inv history (omega arith)

-- Cell 31 leaves at time 1, cell 62 at time 900; the first acknowledgement arrives at time 1000.
abbrev two_windows : List ℕ
two_windows = replicate 31 1 ++ replicate 30 500

on_sendme-latest_trigger_example :
    let w = send_all (two_windows ++ 900 ∷ []) new in
    ((on_sendme 1000 w).1 ≡ some 100) × ((on_sendme 1900 (on_sendme 1000 w).0).1 ≡ none)
unfolding new
on_sendme-latest_trigger_example =
    on_sendme-latest_trigger two_windows 900 1000 1900 new (omega arith) refl
