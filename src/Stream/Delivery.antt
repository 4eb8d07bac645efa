-- ===== src/Stream/Delivery.antt =====
-- Cells of bounded size are never refused: the buffer limit is above what a batch can hold.
use phinet.Prelude.{
  ℕ, suc, ◌+◌, ◌*◌, ◌≤◌, ◌<◌, ◌≡◌, refl, List, [], ◌∷◌, Option, none, some, Bool, length, leb, All,
  if◌then◌else◌, arith,
}
use phinet.Prelude.Result.{Result, ok, ◌>>=◌}
use phinet.Stream.{Stream, open_state, on_data, stream_sendme_delivered, offered}

-- The largest cell for which a full batch stays under `STREAM_BUFFER_MAX`.
abbrev pub cell_max : ℕ
cell_max = 1310

pub record IsReceiving {Channel : Type 0} (s : Stream Channel) : Type 0 where
  pub is_open : s.state ≡ open_state
  pub batch : s.delivered_since_sendme < stream_sendme_delivered
  pub buffered : s.inbound_buffered ≤ cell_max * s.delivered_since_sendme

module _ {Channel : Type 0} (try_send : Channel → List ℕ → Option Channel) where
  -- The data cells of one stream in order, and the acknowledgements that they cause.
  pub feed : Stream Channel → List (List ℕ) → Result (Stream Channel × ℕ)
  feed s [] = ok (s, 0)
  feed s (bytes ∷ rest) = do
    (t, due) ← on_data try_send bytes s
    (u, sent) ← feed t rest
    ok (u, (if due then suc sent else sent))

  module _
      (ready : (c : Channel) (bytes : List ℕ) → (c' : Channel) × (try_send c bytes ≡ some c')) where
    offered_ready :
        (tx : Option Channel) (bytes : List ℕ)
        → (tx' : Option Channel) × (offered try_send tx bytes ≡ ok tx')
    unfolding offered
    offered_ready none bytes = (none, refl)
    offered_ready (some c) bytes = let (c', e) = ready c bytes in (some c', rw (e, offered))

    on_data_accepted :
        (s : Stream Channel) (bytes : List ℕ)
        → IsReceiving s
        → length bytes ≤ cell_max
        → (t : Stream Channel) × (due : Bool) × (on_data try_send bytes s ≡ ok (t, due))
          × IsReceiving t
          × (t.delivered_since_sendme + (if due then 50 else 0) ≡ s.delivered_since_sendme + 1)
    unfolding on_data
    on_data_accepted s bytes r h =
        let (tx, sent) = offered_ready s.inbound_tx bytes in
        let due = leb stream_sendme_delivered (s.delivered_since_sendme + 1) in
        let t = record s {
          inbound_tx = tx;
          inbound_buffered = if due then 0 else s.inbound_buffered + length bytes;
          delivered_since_sendme = if due then 0 else s.delivered_since_sendme + 1;
        } in
        (t, due, ground (arith, sent), ground arith, ground arith)

    -- An open stream whose application keeps up accepts every cell of at most 1310 bytes, and
    -- asks for one acknowledgement per fifty cells.
    pub feed_accepted :
        (s : Stream Channel) (cells : List (List ℕ))
        → IsReceiving s
        → All (λ bytes. length bytes ≤ cell_max) cells
        → (t : Stream Channel) × (sent : ℕ) × (feed s cells ≡ ok (t, sent))
          × IsReceiving t
          × (50 * sent + t.delivered_since_sendme ≡ s.delivered_since_sendme + length cells)
    unfolding feed
    feed_accepted s [] r h = (s, 0, refl, r, omega arith)
    feed_accepted s (bytes ∷ rest) r h =
        let (t, due, e, rt, count) = on_data_accepted s bytes r h.0 in
        let (u, sent, e', ru, count') = feed_accepted t rest rt h.1 in
        (u, if due then suc sent else sent, rw (e, e'), ru, ground (arith, count, count'))
