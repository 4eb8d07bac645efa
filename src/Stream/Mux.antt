-- ===== src/Stream/Mux.antt =====
-- phinet-core/src/stream.rs, `StreamMux`: the streams of one circuit by id. The async mutex is
-- left out: each method is one step on the state.
pub mod Ids
pub mod Table
use phinet.Prelude.{
  ℕ, ◌+◌, ◌%◌, Option, none, some, List, [], String, Bool, true, false, nat_eqb, length, map,
  if◌then◌else◌,
}
use phinet.Prelude.Eq.{nat_eq}
use phinet.Prelude.Map.{Map, lookup, insert, remove}
use phinet.Prelude.Word.{u16_mod}
use phinet.Stream.{Stream, connecting, open_state, stream_window_start}

pub record StreamMux (Channel : Type 0) : Type 0 where
  pub streams : Map ℕ (Stream Channel)
  pub next_stream_id : ℕ  -- u16

-- `AtomicU16::fetch_add(1)`: the old value, and the counter wrapped.
fetch_add : ℕ → ℕ × ℕ
fetch_add n = (n, (n + 1) % u16_mod)

-- The id, and the counter after it.
unfoldable pub fresh_id : ℕ → ℕ × ℕ
unfolding fetch_add
fresh_id counter =
    let (id, next) = fetch_add counter in if nat_eqb id 0 then fetch_add next else (id, next)

module _ {Channel : Type 0} where
  pub new : StreamMux Channel
  new = record { streams = []; next_stream_id = 1 }

  -- The stream that `open_stream` and `accept_stream` build; `tx` is the sender's half.
  pub fresh_stream : ℕ → String → Channel → Stream Channel
  fresh_stream id target tx = record {
    id = id;
    state = connecting;
    target = target;
    send_window = stream_window_start;
    delivered_since_sendme = 0;
    inbound_buffered = 0;
    inbound_tx = some tx;
    end_reason = none;
    ready_tx = true;
  }

  unfoldable pub open_stream : String → Channel → StreamMux Channel → StreamMux Channel × ℕ
  unfolding fresh_stream
  open_stream target tx m =
      let (id, next) = fresh_id m.next_stream_id in
      (
        record { streams = insert id (fresh_stream id target tx) m.streams; next_stream_id = next },
        id,
      )

  pub accept_stream : ℕ → String → Channel → StreamMux Channel → StreamMux Channel
  unfolding fresh_stream
  accept_stream id target tx m =
      let s = record (fresh_stream id target tx) { state = open_state; ready_tx = false } in
      record m { streams = insert id s m.streams }

  -- `f` sees the stream where there is one, and its result is returned.
  pub with_stream :
      {T : Type 0}
      → ℕ
      → (Stream Channel → Stream Channel × T)
      → StreamMux Channel
      → StreamMux Channel × Option T
  with_stream id f m = elim (lookup id m.streams) [
    | none ↦ (m, none)
    | some s ↦ let (t, result) = f s in (record m { streams = insert id t m.streams }, some result)
  ]

  pub remove_stream : ℕ → StreamMux Channel → StreamMux Channel
  remove_stream id m = record m { streams = remove id m.streams }

  pub active_ids : StreamMux Channel → List ℕ
  active_ids m = map (λ e. e.0) m.streams

  pub len : StreamMux Channel → ℕ
  len m = length m.streams

  pub is_empty : StreamMux Channel → Bool
  is_empty m = nat_eqb (len m) 0
