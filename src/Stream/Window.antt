-- ===== src/Stream/Window.antt =====
-- Flow control of one stream: its windows and its buffer, over whole histories.
use phinet.Prelude.{ℕ, ◌+◌, ◌*◌, ◌≤◌, ◌<◌, List, [], ◌∷◌, Option, ltb, ◌&&◌, if◌then◌else◌, arith}
use phinet.Stream.{
  Stream, on_data, on_connected, on_sendme, try_consume_window, close, is_open_state,
  stream_window_start, stream_sendme_inc, stream_sendme_delivered, stream_buffer_max,
}
use phinet.Stream.History.{Event, data_cell, connected, sendme, consume, closing, step, run}

pub record IsValid {Channel : Type 0} (s : Stream Channel) : Type 0 where
  pub window : s.send_window ≤ stream_window_start * 2
  pub batch : s.delivered_since_sendme < stream_sendme_delivered
  pub buffer : s.inbound_buffered ≤ stream_buffer_max

-- Acknowledgements received in a history.
abbrev is_ack : Event → ℕ
is_ack sendme = 1
is_ack _ = 0

abbrev pub sendmes : List Event → ℕ
sendmes [] = 0
sendmes (e ∷ es) = is_ack e + sendmes es

-- 1 where the event is a `try_consume_window` that succeeds.
spends : {Channel : Type 0} → Stream Channel → Event → ℕ
spends s consume = if is_open_state s.state && ltb 0 s.send_window then 1 else 0
spends s _ = 0

module _ {Channel : Type 0} (try_send : Channel → List ℕ → Option Channel) where
  step-IsValid : (s : Stream Channel) (e : Event) → IsValid s → IsValid (step try_send s e)
  unfolding step
  step-IsValid s (data_cell bytes) v = unfold on_data in ground arith
  step-IsValid s connected v = unfold on_connected in ground arith
  step-IsValid s sendme v = unfold on_sendme in ground arith
  step-IsValid s consume v = unfold try_consume_window in ground arith
  step-IsValid s (closing reason) v = unfold close in ground arith

  -- Whatever the history, the send window stays at most twice its start, fewer than a batch of
  -- cells wait for acknowledgement, and the unacknowledged bytes fit the buffer.
  pub run-IsValid : (s : Stream Channel) (es : List Event) → IsValid s → IsValid (run try_send s es)
  unfolding run
  run-IsValid s [] v = v
  run-IsValid s (e ∷ es) v = run-IsValid (step try_send s e) es (step-IsValid s e v)

  -- How many `try_consume_window` calls of a history succeed.
  pub consumed : Stream Channel → List Event → ℕ
  consumed s [] = 0
  consumed s (e ∷ es) = spends s e + consumed (step try_send s e) es

  step-window :
      (s : Stream Channel) (e : Event)
      → spends s e + (step try_send s e).send_window ≤ s.send_window + stream_sendme_inc * is_ack e
  unfolding step spends
  step-window s (data_cell bytes) = unfold on_data in ground arith
  step-window s connected = unfold on_connected in ground arith
  step-window s sendme = unfold on_sendme in ground arith
  step-window s consume = unfold try_consume_window in ground arith
  step-window s (closing reason) = unfold close in ground arith

  -- The peer is sent at most the window and one increment per acknowledgement.
  pub consumed-le :
      (s : Stream Channel) (es : List Event)
      → consumed s es + (run try_send s es).send_window
        ≤ s.send_window + stream_sendme_inc * sendmes es
  unfolding run consumed
  consumed-le s [] = omega arith
  consumed-le s (e ∷ es) = omega (arith, step-window s e, consumed-le (step try_send s e) es)
