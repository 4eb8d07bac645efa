-- ===== src/Stream/Tests.antt =====
-- The stream layer at concrete inputs. The test channel accepts everything and keeps it.
use phinet.Prelude.{ℕ, ◌≡◌, refl, List, [], ◌∷◌, ◌++◌, Option, some, none, false, arith}
use phinet.Prelude.Eq.{nat_eq}
use phinet.Stream.{Stream, open_state, timeout, on_data, on_sendme, try_consume_window, close}
use phinet.Stream.History.{Event, data_cell, sendme, consume, closing, step, run}
use phinet.Stream.Window.{IsValid, run-IsValid}

abbrev Kept : Type 0
Kept = List (List ℕ)

abbrev keep : Kept → List ℕ → Option Kept
keep c bytes = some (c ++ bytes ∷ [])

abbrev web : Stream Kept
web = record {
  id = 1;
  state = open_state;
  target = "example.org:80";
  send_window = 500;
  delivered_since_sendme = 49;
  inbound_buffered = 1000;
  inbound_tx = some [];
  end_reason = none;
  ready_tx = false;
}

abbrev history : List Event
history = consume ∷ data_cell (1 ∷ 2 ∷ []) ∷ sendme ∷ consume ∷ closing timeout ∷ consume ∷ []

history_runs :
    ((run keep web history).send_window ≡ 548) × ((run keep web history).inbound_buffered ≡ 0)
unfolding run step on_data on_sendme try_consume_window close
history_runs = (refl, refl)

run-IsValid_example : IsValid (run keep web history)
run-IsValid_example = run-IsValid keep web history (omega arith)

ready : (c : Kept) (bytes : List ℕ) → (c' : Kept) × (keep c bytes ≡ some c')
ready c bytes = (c ++ bytes ∷ [], refl)
