-- ===== src/Stream/Mux/Table.antt =====
-- The table of streams: what each operation of the multiplexer changes, and what it leaves.
use phinet.Prelude.{ℕ, ◌+◌, ◌≡◌, refl, String, none, some, nat_eqb, if◌then◌else◌, arith}
use phinet.Prelude.Eq.{nat_eq}
use phinet.Prelude.Map.{lookup, lookup-insert, lookup-remove}
use phinet.Stream.{Stream}
use phinet.Stream.Mux.Ids.{counter_after, nth_id_repeats}
use phinet.Stream.Mux.{StreamMux, open_stream, with_stream, remove_stream, fresh_id, fresh_stream}

module _ {Channel : Type 0} (m : StreamMux Channel) where
  -- A stream that was opened is found under the id that was returned, connecting, with a full
  -- window, and no other id is touched.
  pub lookup-open_stream :
      (target : String) (tx : Channel) (j : ℕ)
      → let (m', id) = open_stream target tx m in
        lookup j m'.streams
        ≡ (if nat_eqb id j then some (fresh_stream id target tx) else lookup j m.streams)
  unfolding open_stream
  lookup-open_stream target tx j = lookup-insert _ j _ m.streams

  -- `with_stream` runs its function on the stream of that id, stores what it left and returns
  -- its result; other streams are as before.
  pub lookup-with_stream :
      {T : Type 0} (id j : ℕ) (f : Stream Channel → Stream Channel × T) (s : Stream Channel)
      → lookup id m.streams ≡ some s
      → let (m', result) = with_stream id f m in
        (result ≡ some (f s).1)
        × (lookup j m'.streams ≡ (if nat_eqb id j then some (f s).0 else lookup j m.streams))
  unfolding with_stream
  lookup-with_stream id j f s h = rw (h, with_stream) (refl, lookup-insert id j (f s).0 m.streams)

  pub with_stream_unknown :
      {T : Type 0} (id : ℕ) (f : Stream Channel → Stream Channel × T)
      → lookup id m.streams ≡ none
      → with_stream id f m ≡ (m, none)
  unfolding with_stream
  with_stream_unknown id f h = rw (h, with_stream)

  pub lookup-remove_stream :
      (id j : ℕ)
      → lookup j (remove_stream id m).streams ≡ (if nat_eqb id j then none else lookup j m.streams)
  unfolding remove_stream
  lookup-remove_stream id j = lookup-remove id j m.streams

-- The 65535th open after another returns the same id, whether or not that stream is still in the
-- table, and puts a new connecting stream in its place.
pub open_stream_reuses :
    {Channel : Type 0} (n : ℕ) (m m' : StreamMux Channel) (target : String) (tx : Channel)
    → m.next_stream_id ≡ counter_after n
    → m'.next_stream_id ≡ counter_after (n + 65535)
    → let id = (open_stream target tx m).1 in
      ((open_stream target tx m').1 ≡ id)
      × (lookup id (open_stream target tx m').0.streams ≡ some (fresh_stream id target tx))
unfolding open_stream
open_stream_reuses n m m' target tx h h' =
    let id = (fresh_id m'.next_stream_id).0 in
    let same : (fresh_id m'.next_stream_id).0 ≡ (fresh_id m.next_stream_id).0 =
      rw (h, h') (nth_id_repeats n) in
    (same, rw (← same) (ground (arith, lookup-insert id id (fresh_stream id target tx) m'.streams)))
