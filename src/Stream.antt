-- ===== src/Stream.antt =====
-- phinet-core/src/stream.rs: one stream of a circuit. The channel to the application is tokio's:
-- its `try_send` is a parameter, `none` for a full or closed channel. The windows are `i32` fields
-- that start positive and are lowered only where positive, so they are numbers here. Where a
-- method returns an error the stream is left as it was.
pub mod History
pub mod Mux
pub mod Window
pub mod Lifecycle
pub mod Delivery
mod Tests
use phinet.Prelude.{
  ℕ, ◌+◌, ◌-◌, ◌*◌, Bool, true, false, Option, none, some, List, String, ltb, leb, nat_eqb, length,
  if◌then◌else◌,
}
use phinet.Prelude.Result.{Result, ok, err, handshake, guard, ◌>>=◌, ◌>>◌}

abbrev pub stream_window_start : ℕ
stream_window_start = 500

abbrev pub stream_sendme_inc : ℕ
stream_sendme_inc = 50

abbrev pub stream_sendme_delivered : ℕ
stream_sendme_delivered = 50

abbrev pub stream_buffer_max : ℕ
stream_buffer_max = 64 * 1024

pub data EndReason : Type 0 where
  done unreachable exit_policy destroyed timeout internal : EndReason

pub end_reason_from_byte : ℕ → EndReason
end_reason_from_byte b =
    if nat_eqb b 0
    then done
    else if nat_eqb b 1
    then unreachable
    else if nat_eqb b 2
    then exit_policy
    else if nat_eqb b 3
    then destroyed
    else if nat_eqb b 4
    then timeout
    else internal

-- `reason as u8`
pub end_reason_byte : EndReason → ℕ
end_reason_byte done = 0
end_reason_byte unreachable = 1
end_reason_byte exit_policy = 2
end_reason_byte destroyed = 3
end_reason_byte timeout = 4
end_reason_byte internal = 5

pub data StreamState : Type 0 where
  connecting open_state closed : StreamState

abbrev is_open_state : StreamState → Bool
is_open_state open_state = true
is_open_state _ = false

abbrev is_connecting : StreamState → Bool
is_connecting connecting = true
is_connecting _ = false

pub record Stream (Channel : Type 0) : Type 0 where
  pub id : ℕ  -- u16
  pub state : StreamState
  pub target : String
  pub send_window : ℕ
  pub delivered_since_sendme : ℕ
  pub inbound_buffered : ℕ
  pub inbound_tx : Option Channel
  pub end_reason : Option EndReason
  pub ready_tx : Bool  -- whether an awaiter is still to be told

module _ {Channel : Type 0} (try_send : Channel → List ℕ → Option Channel) where
  -- The `if let Some(tx) = &self.inbound_tx` of `on_data`.
  offered : Option Channel → List ℕ → Result (Option Channel)
  offered none bytes = ok none
  offered (some tx) bytes = elim (try_send tx bytes) [
    | none ↦ err handshake
    | some tx' ↦ ok (some tx')
  ]

  pub on_data : List ℕ → Stream Channel → Result (Stream Channel × Bool)
  unfolding offered
  on_data bytes s = do
    guard (is_open_state s.state) handshake
    guard (leb (s.inbound_buffered + length bytes) stream_buffer_max) handshake
    tx ← offered s.inbound_tx bytes
    let delivered = s.delivered_since_sendme + 1
    let should_sendme = leb stream_sendme_delivered delivered
    ok (
      record s {
        inbound_tx = tx;
        inbound_buffered = if should_sendme then 0 else s.inbound_buffered + length bytes;
        delivered_since_sendme = if should_sendme then 0 else delivered;
      },
      should_sendme,
    )

module _ {Channel : Type 0} where
  pub on_connected : Stream Channel → Result (Stream Channel)
  on_connected s = do
    guard (is_connecting s.state) handshake
    ok (record s { state = open_state; ready_tx = false })

  pub on_sendme : Stream Channel → Stream Channel
  on_sendme s =
      let window = s.send_window + stream_sendme_inc in
      record s {
        send_window =
            if ltb (stream_window_start * 2) window then stream_window_start * 2 else window;
      }

  pub try_consume_window : Stream Channel → Result (Stream Channel)
  try_consume_window s = do
    guard (is_open_state s.state) handshake
    guard (ltb 0 s.send_window) handshake
    ok (record s { send_window = s.send_window - 1 })

  pub close : EndReason → Stream Channel → Stream Channel
  close reason s = record s { state = closed; end_reason = some reason; inbound_tx = none }

  pub is_open : Stream Channel → Bool
  is_open s = is_open_state s.state
