-- ===== src/Congestion/Runs.antt =====
-- Whole histories of a controller whose sends are gated by `can_send`, as in circuit_mgr.rs.
use phinet.Prelude.{ℕ, ◌+◌, ◌≤◌, ◌<◌, ◌-◌, min, ◌≡◌, List, [], ◌∷◌, length, if◌then◌else◌, arith}
use phinet.Prelude.Word.{u64_mod}
use phinet.Congestion.{
  Vegas, new, can_send, on_send, on_sendme, update_cwnd, sample_rtt, free_window, fold_rtt, Instant,
  cc_cwnd_max, cc_sendme_inc,
}
use phinet.Congestion.Bounds.{Within, new-Within, on_send-Within, on_sendme-Within}
use phinet.Congestion.Rtt.{Estimated, new-Estimated, on_send-Estimated, on_sendme-Estimated}

pub data Event : Type 0 where
  send sendme : Instant → Event

unfoldable pub step : Vegas → Event → Vegas
step v (send now) = if can_send v then on_send now v else v
step v (sendme now) = (on_sendme now v).0

unfoldable pub run : Vegas → List Event → Vegas
run v [] = v
run v (e ∷ es) = run (step v e) es

abbrev at : Event → Instant
at (send now) = now
at (sendme now) = now

abbrev pub Timely : List Event → Type 0
Timely [] = Unit {0}
Timely (e ∷ es) = (at e < u64_mod) × Timely es

pub record Inv (v : Vegas) : Type 0 where
  pub within : Within v
  pub estimated : Estimated v
  pub gated : v.inflight ≤ cc_cwnd_max

update_cwnd-inflight :
    (v : Vegas)
    → ((update_cwnd v).inflight ≡ v.inflight) × ((update_cwnd v).total_sent ≡ v.total_sent)
unfolding update_cwnd
update_cwnd-inflight v = ground arith

on_sendme-inflight :
    (now : Instant) (v : Vegas)
    → ((on_sendme now v).0.inflight ≡ v.inflight - min cc_sendme_inc v.inflight)
      × ((on_sendme now v).0.total_sent ≡ v.total_sent)
unfolding on_sendme sample_rtt free_window fold_rtt
on_sendme-inflight now v = ground arith

step-Inv : (v : Vegas) (e : Event) → at e < u64_mod → Inv v → Inv (step v e)
unfolding step can_send
step-Inv v (send now) lt h = record {
  within = ground (arith, on_send-Within now v h.within);
  estimated = ground (arith, on_send-Estimated now v h.estimated);
  gated = unfold on_send in ground arith;
}
step-Inv v (sendme now) lt h = record {
  within = on_sendme-Within now v h.within;
  estimated = on_sendme-Estimated now v lt h.estimated;
  gated = omega (arith, on_sendme-inflight now v);
}

run-Inv_from : (v : Vegas) (es : List Event) → Timely es → Inv v → Inv (run v es)
unfolding run
run-Inv_from v [] t h = h
run-Inv_from v (e ∷ es) t h = run-Inv_from (step v e) es t.1 (step-Inv v e t.0 h)

-- From a fresh controller, any gated history at 64-bit times keeps the window within its limits, the estimates
-- paired, and no more cells in flight than the largest window.
pub run-Inv : (es : List Event) → Timely es → Inv (run new es)
unfolding new
run-Inv es t =
    run-Inv_from new es t
      (record { within = new-Within; estimated = new-Estimated; gated = omega arith })

-- Cells freed by the acknowledgements of a history.
pub freed : Vegas → List Event → ℕ
freed v [] = 0
freed v (send now ∷ es) = freed (step v (send now)) es
freed v (sendme now ∷ es) = min cc_sendme_inc v.inflight + freed (step v (sendme now)) es

step_accounts :
    (v : Vegas) (now : Instant)
    → v.inflight ≤ cc_cwnd_max
    → Within v
    → v.total_sent + 1 < u64_mod
    → ((step v (send now)).inflight + v.total_sent ≡ v.inflight + (step v (send now)).total_sent)
      × ((step v (send now)).total_sent ≤ v.total_sent + 1)
unfolding step can_send on_send
step_accounts v now g w lt = ground arith

conserved_from :
    (v : Vegas) (es : List Event)
    → Timely es
    → Inv v
    → v.total_sent + length es < u64_mod
    → (run v es).total_sent + v.inflight ≡ v.total_sent + (run v es).inflight + freed v es
unfolding run freed
conserved_from v [] t h lt = omega arith
conserved_from v (send now ∷ es) t h lt =
    let counts = step_accounts v now h.gated h.within (omega arith) in
    omega (
      arith,
      counts,
      conserved_from (step v (send now)) es t.1 (step-Inv v (send now) t.0 h)
          (omega (arith, counts)),
    )
conserved_from v (sendme now ∷ es) t h lt =
    let kept : ((step v (sendme now)).inflight ≡ v.inflight - min cc_sendme_inc v.inflight)
        × ((step v (sendme now)).total_sent ≡ v.total_sent) =
      unfold step in on_sendme-inflight now v in
    omega (
      arith,
      kept,
      conserved_from (step v (sendme now)) es t.1 (step-Inv v (sendme now) t.0 h)
          (omega (arith, kept)),
    )

-- From a fresh controller, over fewer than 2^64 events at 64-bit times, every cell sent is still in
-- flight or was freed by an acknowledgement.
pub run_conserves :
    (es : List Event)
    → Timely es
    → length es < u64_mod
    → (run new es).total_sent ≡ (run new es).inflight + freed new es
unfolding new
run_conserves es t lt = omega (
  arith,
  conserved_from new es t
      (record { within = new-Within; estimated = new-Estimated; gated = omega arith })
      (omega arith),
)
