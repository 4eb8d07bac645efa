-- ===== src/Stream/History.antt =====
-- Histories of one stream: any order of its methods, an error leaving it as it was.
use phinet.Prelude.{ℕ, List, [], ◌∷◌, Option, Bool}
use phinet.Prelude.Result.{Result, ok, err}
use phinet.Stream.{Stream, on_data, on_connected, on_sendme, try_consume_window, close, EndReason}

pub data Event : Type 0 where
  data_cell : List ℕ → Event
  connected sendme consume : Event
  closing : EndReason → Event

-- The stream after a method that may fail.
abbrev pub kept_or : {Channel : Type 0} → Stream Channel → Result (Stream Channel) → Stream Channel
kept_or s (ok t) = t
kept_or s (err e) = s

abbrev pub kept_or_pair :
    {Channel : Type 0} → Stream Channel → Result (Stream Channel × Bool) → Stream Channel
kept_or_pair s (ok (t, b)) = t
kept_or_pair s (err e) = s

module _ {Channel : Type 0} (try_send : Channel → List ℕ → Option Channel) where
  unfoldable pub step : Stream Channel → Event → Stream Channel
  step s (data_cell bytes) = kept_or_pair s (on_data try_send bytes s)
  step s connected = kept_or s (on_connected s)
  step s sendme = on_sendme s
  step s consume = kept_or s (try_consume_window s)
  step s (closing reason) = close reason s

  unfoldable pub run : Stream Channel → List Event → Stream Channel
  run s [] = s
  run s (e ∷ es) = run (step s e) es
