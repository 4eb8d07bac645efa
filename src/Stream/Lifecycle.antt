-- ===== src/Stream/Lifecycle.antt =====
-- A stream only moves forward: connecting, open, closed.
use phinet.Prelude.{ℕ, ◌≤◌, ◌≡◌, refl, List, [], ◌∷◌, Option, none, true, is_some, arith}
use phinet.Prelude.Result.{err, handshake}
use phinet.Stream.{
  Stream, StreamState, connecting, open_state, closed, EndReason, on_data, on_connected, on_sendme,
  try_consume_window, close, end_reason_byte, end_reason_from_byte,
}
use phinet.Stream.History.{Event, data_cell, connected, sendme, consume, closing, step, run}

abbrev rank : StreamState → ℕ
rank connecting = 0
rank open_state = 1
rank closed = 2

-- Once closed, a stream has its reason and no channel to the application.
pub record IsConsistent {Channel : Type 0} (s : Stream Channel) : Type 0 where
  pub reason_given : s.state ≡ closed → is_some s.end_reason ≡ true
  pub channel_dropped : s.state ≡ closed → s.inbound_tx ≡ none

module _ {Channel : Type 0} (try_send : Channel → List ℕ → Option Channel) where
  step-rank : (s : Stream Channel) (e : Event) → rank s.state ≤ rank (step try_send s e).state
  unfolding step
  step-rank s (data_cell bytes) = unfold on_data in ground arith
  step-rank s connected = unfold on_connected in ground arith
  step-rank s sendme = unfold on_sendme in ground arith
  step-rank s consume = unfold try_consume_window in ground arith
  step-rank s (closing reason) = unfold close in ground arith

  -- No history takes a stream back to an earlier state.
  pub run-rank :
      (s : Stream Channel) (es : List Event) → rank s.state ≤ rank (run try_send s es).state
  unfolding run
  run-rank s [] = omega arith
  run-rank s (e ∷ es) = omega (arith, step-rank s e, run-rank (step try_send s e) es)

  step-IsConsistent :
      (s : Stream Channel) (e : Event) → IsConsistent s → IsConsistent (step try_send s e)
  unfolding step
  step-IsConsistent s (data_cell bytes) c = unfold on_data in ground arith
  step-IsConsistent s connected c = unfold on_connected in ground arith
  step-IsConsistent s sendme c = unfold on_sendme in ground arith
  step-IsConsistent s consume c = unfold try_consume_window in ground arith
  step-IsConsistent s (closing reason) c = unfold close in ground arith

  run-IsConsistent :
      (s : Stream Channel) (es : List Event) → IsConsistent s → IsConsistent (run try_send s es)
  unfolding run
  run-IsConsistent s [] c = c
  run-IsConsistent s (e ∷ es) c = run-IsConsistent (step try_send s e) es (step-IsConsistent s e c)

  -- Closing is final: after it no history reopens the stream, gives the application its channel
  -- back or takes the end reason away.
  pub run_closed :
      (s : Stream Channel) (reason : EndReason) (es : List Event)
      → let t = run try_send (close reason s) es in
        (t.state ≡ closed) × (t.inbound_tx ≡ none) × (is_some t.end_reason ≡ true)
  unfolding close
  run_closed s reason es =
      let t = close reason s in
      let c =
        run-IsConsistent t es (record { reason_given = λ _. refl; channel_dropped = λ _. refl }) in
      let shut : (run try_send t es).state ≡ closed = ground (arith, run-rank t es) in
      (shut, c.channel_dropped shut, c.reason_given shut)

  -- What a closed stream answers.
  pub closed_refuses :
      (s : Stream Channel) (bytes : List ℕ)
      → s.state ≡ closed
      → (on_data try_send bytes s ≡ err handshake)
        × (on_connected s ≡ err handshake)
        × (try_consume_window s ≡ err handshake)
  unfolding on_data on_connected try_consume_window
  closed_refuses s bytes h = ground arith

-- The reason survives the trip through its byte.
pub end_reason-round_trip : (r : EndReason) → end_reason_from_byte (end_reason_byte r) ≡ r
unfolding end_reason_from_byte end_reason_byte
end_reason-round_trip r = ground arith
