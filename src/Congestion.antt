-- ===== src/Congestion.antt =====
-- phinet-core/src/congestion.rs: the Vegas congestion controller of a circuit. `Instant` and
-- `Duration` are whole nanoseconds; a `u32` or `u64` is a number, wrapped or saturated as written.
pub mod Bounds
pub mod Rtt
pub mod Rule
pub mod Runs
pub mod Samples
mod Tests
use phinet.Prelude.{
  ℕ, ◌+◌, ◌-◌, ◌*◌, ◌/◌, ◌%◌, min, Bool, true, false, Option, none, some, ltb, leb, nat_eqb,
  is_some, if◌then◌else◌,
}
use phinet.Prelude.Word.{u32_mod, u32_max, u64_mod, sat_add32}

abbrev pub Instant : Type 0
Instant = ℕ

abbrev pub Duration : Type 0
Duration = ℕ

abbrev pub cc_sendme_inc : ℕ
cc_sendme_inc = 31

abbrev pub cc_cwnd_min : ℕ
cc_cwnd_min = 124

abbrev pub cc_cwnd_max : ℕ
cc_cwnd_max = 20000

abbrev pub cc_cwnd_init : ℕ
cc_cwnd_init = 4 * cc_sendme_inc

abbrev pub cc_cwnd_inc : ℕ
cc_cwnd_inc = cc_sendme_inc

abbrev pub cc_cwnd_inc_rate : ℕ
cc_cwnd_inc_rate = 1

abbrev pub cc_vegas_alpha : ℕ
cc_vegas_alpha = 3 * cc_sendme_inc

abbrev pub cc_vegas_beta : ℕ
cc_vegas_beta = 6 * cc_sendme_inc

abbrev pub cc_vegas_gamma : ℕ
cc_vegas_gamma = 5 * cc_sendme_inc

abbrev cc_ss_backoff_num : ℕ
cc_ss_backoff_num = 3

abbrev cc_ss_backoff_den : ℕ
cc_ss_backoff_den = 4

abbrev rtt_ewma_old_num : ℕ
rtt_ewma_old_num = 7

abbrev rtt_ewma_old_den : ℕ
rtt_ewma_old_den = 8

pub record Vegas : Type 0 where
  pub cwnd : ℕ  -- u32
  pub inflight : ℕ  -- u32
  pub slow_start : Bool
  pub rtt_min : Option Duration
  pub rtt_ewma : Option Duration
  pub sendme_trigger_sent : Option Instant
  pub total_sent : ℕ  -- u64
  pub acks_since_inc : ℕ  -- u32

unfoldable pub new : Vegas
new = record {
  cwnd = cc_cwnd_init;
  inflight = 0;
  slow_start = true;
  rtt_min = none;
  rtt_ewma = none;
  sendme_trigger_sent = none;
  total_sent = 0;
  acks_since_inc = 0;
}

unfoldable pub can_send : Vegas → Bool
can_send v = ltb v.inflight v.cwnd

pub send_allowance : Vegas → ℕ
send_allowance v = v.cwnd - v.inflight

unfoldable pub on_send : Instant → Vegas → Vegas
on_send now v =
    let total = (v.total_sent + 1) % u64_mod in
    record v {
      inflight = sat_add32 v.inflight 1;
      total_sent = total;
      sendme_trigger_sent =
          if nat_eqb (total % cc_sendme_inc) 0 then some now else v.sendme_trigger_sent;
    }

-- The `match` on `rtt_min`.
folded_min : Option Duration → Duration → Duration
folded_min (some m) sample = min m sample
folded_min none sample = sample

-- The `match` on `rtt_ewma`; `mixed as u64` keeps 64 bits.
folded_ewma : Option Duration → Duration → Duration
folded_ewma none sample = sample
folded_ewma (some old) sample =
    (old * rtt_ewma_old_num + sample * (rtt_ewma_old_den - rtt_ewma_old_num))
    / rtt_ewma_old_den
    % u64_mod

fold_rtt : Duration → Vegas → Vegas
unfolding folded_min folded_ewma
fold_rtt sample v = record v {
  rtt_min = some (folded_min v.rtt_min sample);
  rtt_ewma = some (folded_ewma v.rtt_ewma sample);
}

-- `cwnd * excess / rtt`, capped at `u32::MAX`.
queued : ℕ → Option Duration → Option Duration → ℕ
queued cwnd (some rtt) (some least) =
    if nat_eqb rtt 0 then 0 else min (cwnd * (rtt - least) / rtt) u32_max
queued cwnd _ _ = 0

pub queue_estimate : Vegas → ℕ
unfolding queued
queue_estimate v = queued v.cwnd v.rtt_ewma v.rtt_min

-- `target.clamp(CC_CWND_MIN, CC_CWND_MAX)`
clamped : ℕ → ℕ
clamped target =
    if ltb target cc_cwnd_min
    then cc_cwnd_min
    else if ltb cc_cwnd_max target
    then cc_cwnd_max
    else target

set_cwnd : ℕ → Vegas → Vegas
unfolding clamped
set_cwnd target v = record v { cwnd = clamped target }

-- The body under `if self.slow_start`.
slow_start_update : ℕ → Vegas → Vegas
unfolding set_cwnd
slow_start_update queue v =
    if ltb cc_vegas_gamma queue
    then set_cwnd (v.cwnd * cc_ss_backoff_num / cc_ss_backoff_den % u32_mod)
        (record v { slow_start = false })
    else set_cwnd (sat_add32 v.cwnd cc_sendme_inc) v

-- The body after it.
steady_update : ℕ → Vegas → Vegas
unfolding set_cwnd
steady_update queue v =
    let acks = (v.acks_since_inc + 1) % u32_mod in
    if ltb queue cc_vegas_alpha
    then (if leb cc_cwnd_inc_rate acks
        then set_cwnd (sat_add32 v.cwnd cc_cwnd_inc) (record v { acks_since_inc = 0 })
        else record v { acks_since_inc = acks })
    else if ltb cc_vegas_beta queue
    then set_cwnd (v.cwnd - cc_cwnd_inc) (record v { acks_since_inc = 0 })
    else record v { acks_since_inc = acks }

pub update_cwnd : Vegas → Vegas
unfolding slow_start_update steady_update
update_cwnd v =
    let queue = queue_estimate v in
    if v.slow_start then slow_start_update queue v else steady_update queue v

-- `self.inflight -= acked`, with `acked` the smaller of the increment and what is in flight.
free_window : Vegas → Vegas
free_window v = record v { inflight = v.inflight - min cc_sendme_inc v.inflight }

-- `self.sendme_trigger_sent.take().map(…)`
sample_rtt : Instant → Option Instant → Vegas → Vegas × Option Duration
unfolding fold_rtt
sample_rtt now none v = (v, none)
sample_rtt now (some sent) v =
    (fold_rtt (now - sent) (record v { sendme_trigger_sent = none }), some (now - sent))

unfoldable pub on_sendme : Instant → Vegas → Vegas × Option Duration
unfolding free_window sample_rtt update_cwnd
on_sendme now v =
    let (w, rtt) = sample_rtt now v.sendme_trigger_sent (free_window v) in
    (if is_some w.rtt_ewma then update_cwnd w else w, rtt)
