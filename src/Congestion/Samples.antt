-- ===== src/Congestion/Samples.antt =====
-- Which round trip an acknowledgement measures, and how the window grows where none is slow.
use phinet.Prelude.{
  ℕ, zero, suc, ◌+◌, ◌*◌, ◌%◌, ◌≤◌, ◌<◌, ◌-◌, min, ◌≡◌, refl, true, List, [], ◌∷◌, ◌++◌, Option,
  some, none, ◌⊎◌, inl, length, arith,
}
use phinet.Prelude.Word.{u64_mod, u32_max}
use phinet.Congestion.{
  Vegas, new, on_send, on_sendme, update_cwnd, sample_rtt, free_window, fold_rtt, queue_estimate,
  Instant, Duration, cc_cwnd_max, cc_sendme_inc, cc_cwnd_init,
}
use phinet.Congestion.Bounds.{Within}

pub send_all : List Instant → Vegas → Vegas
send_all [] v = v
send_all (t ∷ ts) v = send_all ts (on_send t v)

send_all-last :
    (ts : List Instant) (t : Instant) (v : Vegas)
    → v.total_sent + length ts + 1 < u64_mod
    → (v.total_sent + length ts + 1) % cc_sendme_inc ≡ 0
    → (send_all (ts ++ t ∷ []) v).sendme_trigger_sent ≡ some t
unfolding send_all on_send
send_all-last [] t v lt trig = ground arith
send_all-last (u ∷ ts) t v lt trig =
    send_all-last ts t (on_send u v) (unfold on_send in omega arith)
      (unfold on_send in ground arith)

-- What an acknowledgement returns, from the trigger alone.
abbrev sampled : Instant → Option Instant → Option Duration
sampled now none = none
sampled now (some sent) = some (now - sent)

on_sendme-sample :
    (now : Instant) (v : Vegas)
    → ((on_sendme now v).1 ≡ sampled now v.sendme_trigger_sent)
      × ((on_sendme now v).0.sendme_trigger_sent ≡ none)
unfolding on_sendme sample_rtt free_window fold_rtt update_cwnd
on_sendme-sample now v = ground arith

-- After sends the last of which, at `t`, completes an increment of a count below 2^64, the next
-- acknowledgement is measured from `t` however many increments are outstanding, and the one after
-- it gets no sample.
pub on_sendme-latest_trigger :
    (ts : List Instant) (t now later : Instant) (v : Vegas)
    → v.total_sent + length ts + 1 < u64_mod
    → (v.total_sent + length ts + 1) % cc_sendme_inc ≡ 0
    → let w = send_all (ts ++ t ∷ []) v in
      ((on_sendme now w).1 ≡ some (now - t)) × ((on_sendme later (on_sendme now w).0).1 ≡ none)
on_sendme-latest_trigger ts t now later v lt trig =
    let w = send_all (ts ++ t ∷ []) v in
    ground (
      arith,
      send_all-last ts t v lt trig,
      on_sendme-sample now w,
      on_sendme-sample later (on_sendme now w).0,
    )

send_at : ℕ → Instant → Vegas → Vegas
send_at zero t v = v
send_at (suc n) t v = send_at n t (on_send t v)

-- One round: a full increment of cells at `t`, acknowledged `r` later.
pub round : Duration → Instant → Vegas → Vegas
unfolding send_at
round r t v = (on_sendme (t + r) (send_at cc_sendme_inc t v)).0

pub rounds : Duration → List Instant → Vegas → Vegas
rounds r [] v = v
rounds r (t ∷ ts) v = rounds r ts (round r t v)

-- Between rounds on a path whose round trip is always `r`.
record Steady (r : Duration) (v : Vegas) : Type 0 where
  within : Within v
  starting : v.slow_start ≡ true
  idle : v.inflight ≡ 0
  aligned : v.total_sent % cc_sendme_inc ≡ 0
  least : (v.rtt_min ≡ none) ⊎ (v.rtt_min ≡ some r)
  average : (v.rtt_ewma ≡ none) ⊎ (v.rtt_ewma ≡ some r)

send_at-counts :
    (n : ℕ) (t : Instant) (v : Vegas)
    → v.total_sent + n < u64_mod
    → v.inflight + n ≤ u32_max
    → let w = send_at n t v in
      (w.total_sent ≡ v.total_sent + n)
      × (w.inflight ≡ v.inflight + n)
      × (w.cwnd ≡ v.cwnd)
      × (w.slow_start ≡ v.slow_start)
      × (w.rtt_min ≡ v.rtt_min)
      × (w.rtt_ewma ≡ v.rtt_ewma)
unfolding send_at on_send
send_at-counts zero t v a b = ground arith
send_at-counts (suc n) t v a b =
    let rest = send_at-counts n t (on_send t v) (omega arith) (omega arith) in ground (arith, rest)

send_at-trigger :
    (n : ℕ) (t : Instant) (v : Vegas)
    → v.total_sent + suc n < u64_mod
    → (v.total_sent + suc n) % cc_sendme_inc ≡ 0
    → (send_at (suc n) t v).sendme_trigger_sent ≡ some t
unfolding send_at on_send
send_at-trigger zero t v a b = ground arith
send_at-trigger (suc n) t v a b =
    send_at-trigger n t (on_send t v) (unfold on_send in omega arith)
      (unfold on_send in ground arith)

-- Where every sample so far was `r`, another `r` leaves both estimates there, and no queue.
fold_rtt_same :
    (r : Duration) (w : Vegas)
    → r < u64_mod
    → ((w.rtt_min ≡ none) ⊎ (w.rtt_min ≡ some r))
    → ((w.rtt_ewma ≡ none) ⊎ (w.rtt_ewma ≡ some r))
    → (fold_rtt r w ≡ record w { rtt_min = some r; rtt_ewma = some r })
unfolding fold_rtt
fold_rtt_same r w lt m e = ground arith

queue_estimate_same :
    (r : Duration) (w : Vegas)
    → queue_estimate (record w { rtt_min = some r; rtt_ewma = some r }) ≡ 0
unfolding queue_estimate
queue_estimate_same r w = ground arith

update_cwnd_same :
    (r : Duration) (w : Vegas)
    → Within w
    → w.slow_start ≡ true
    → update_cwnd (record w { rtt_min = some r; rtt_ewma = some r }) ≡ record w {
      rtt_min = some r;
      rtt_ewma = some r;
      cwnd = min cc_cwnd_max (w.cwnd + cc_sendme_inc);
    }
unfolding update_cwnd
update_cwnd_same r w h s = ground (arith, queue_estimate_same r w)

-- The state after an acknowledgement that measures `r`.
abbrev grown : Duration → Vegas → Vegas
grown r w = record w {
  inflight = w.inflight - min cc_sendme_inc w.inflight;
  sendme_trigger_sent = none;
  rtt_min = some r;
  rtt_ewma = some r;
  cwnd = min cc_cwnd_max (w.cwnd + cc_sendme_inc);
}

-- `on_sendme` where the trigger is set, with its parts shut.
on_sendme-some :
    (now sent : Instant) (v : Vegas)
    → v.sendme_trigger_sent ≡ some sent
    → (on_sendme now v).0
      ≡ update_cwnd (fold_rtt (now - sent) (record (free_window v) { sendme_trigger_sent = none }))
unfolding on_sendme sample_rtt fold_rtt
on_sendme-some now sent v e = rw (e, sample_rtt)

on_sendme-grown :
    (r : Duration) (t : Instant) (w : Vegas)
    → r < u64_mod
    → Within w
    → w.slow_start ≡ true
    → w.sendme_trigger_sent ≡ some t
    → ((w.rtt_min ≡ none) ⊎ (w.rtt_min ≡ some r))
    → ((w.rtt_ewma ≡ none) ⊎ (w.rtt_ewma ≡ some r))
    → (on_sendme (t + r) w).0 ≡ grown r w
unfolding free_window
on_sendme-grown r t w lt h s trig m e =
    let v = record (free_window w) { sendme_trigger_sent = none } in
    rw (on_sendme-some (t + r) t w trig, cancel, fold_rtt_same r v lt m e)
      (update_cwnd_same r v (record { floor = h.floor; ceiling = h.ceiling }) s)
  where
    cancel : t + r - t ≡ r
    cancel = omega arith

round-Steady :
    (r : Duration) (t : Instant) (v : Vegas)
    → r < u64_mod
    → v.total_sent + cc_sendme_inc < u64_mod
    → Steady r v
    → Steady r (round r t v)
      × ((round r t v).cwnd ≡ min cc_cwnd_max (v.cwnd + cc_sendme_inc))
      × ((round r t v).total_sent ≡ v.total_sent + cc_sendme_inc)
unfolding round
round-Steady r t v lt fits h =
    let counts = send_at-counts cc_sendme_inc t v fits (omega (arith, h.idle)) in
    let trig = send_at-trigger 30 t v fits (omega (arith, h.aligned)) in
    let w = send_at cc_sendme_inc t v in
    let within : Within w = record {
      floor = omega (arith, counts.2, h.within);
      ceiling = omega (arith, counts.2, h.within);
    } in
    let eq =
      on_sendme-grown r t w lt within (ground (arith, counts.3, h.starting)) trig
        (ground (arith, counts.4, h.least)) (ground (arith, counts.5, h.average)) in
    ground (arith, eq, counts, within, h.within, h.aligned, h.idle)

rounds_from :
    (r : Duration) (ts : List Instant) (v : Vegas)
    → r < u64_mod
    → v.total_sent + cc_sendme_inc * length ts < u64_mod
    → Steady r v
    → (rounds r ts v).cwnd ≡ min cc_cwnd_max (v.cwnd + cc_sendme_inc * length ts)
unfolding rounds
rounds_from r [] v lt fits h = omega (arith, h.within)
rounds_from r (t ∷ ts) v lt fits h =
    let (steady, cwnd, total) = round-Steady r t v lt (omega arith) h in
    omega (arith, cwnd, total, rounds_from r ts (round r t v) lt (omega (arith, total)) steady)

-- On a path whose round trip never changes, a 64-bit one, the window of a fresh controller grows by
-- one increment per round, up to its ceiling, for rounds that send fewer than 2^64 cells.
pub rounds-cwnd :
    (r : Duration) (ts : List Instant)
    → r < u64_mod
    → cc_sendme_inc * length ts < u64_mod
    → (rounds r ts new).cwnd ≡ min cc_cwnd_max (cc_cwnd_init + cc_sendme_inc * length ts)
unfolding new
rounds-cwnd r ts lt fits = rounds_from r ts new lt (omega arith) (record {
  within = omega arith;
  starting = refl;
  idle = refl;
  aligned = refl;
  least = inl refl;
  average = inl refl;
})
