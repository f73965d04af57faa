-- ===== src/Connection/Tests.antt =====
-- Runs of src/connection.cc with small amounts of data.
use angel.Prelude.{◌≡◌, refl, List, [], ◌∷◌, ◌++◌, codes, true, false, take}
use angel.Connection.{
  Connection, connected, closed, FileRange, moved, again, broken, is_closed, send_in_loop, write,
  after_write, queue_bytes, handle_write, write_bytes, wrote_front, write_file, sent_front,
  after_bytes, after_file, complete, drain, send_file_in_loop, queue_file,
  set_send_complete_handler, handle_close, run_queued, removed, close_called, high_water,
}
use angel.Connection.Calls.{
  Call, sends, sends_file, sets_handler, writable, closes, runs_queued, perform, run,
}
use angel.Connection.Stream.{Grown}
use angel.Connection.Delivery.{all_data, run-Grown, send-interrupted}
use angel.Connection.Closing.{RemovedOnce, run-RemovedOnce}
use angel.Connection.Silence.{Silent, run-Silent}

abbrev fresh : Connection
fresh = record {
  state = connected;
  output_buf = [];
  byte_stream_queue = [];
  send_file_queue = [];
  send_complete_handler_queue = [];
  send_id = 0;
  next_id = 0;
  is_writing = false;
  high_water_mark = 4;
  has_high_water_handler = true;
  has_close_handler = true;
  queued_handlers = 0;
  ttl_timer_id = 0;
  events = [];
}

abbrev part : FileRange
part = record { fd = 5; offset = 100; count = 10 }

-- A send that is split, one that waits behind it, a file, a handler, and two writable events.
abbrev traffic : List Call
traffic =
    sends 0 (codes "hello") (moved 2)
    ∷ sends 0 (codes ", world") (moved 9)
    ∷ sends_file part (moved 4)
    ∷ sets_handler 3
    ∷ writable (moved 3) (moved 4)
    ∷ writable (moved 3) again
    ∷ []

traffic_open : is_closed (run fresh traffic) ≡ false
unfolding run perform send_in_loop write after_write queue_bytes send_file_in_loop queue_file
    set_send_complete_handler handle_write write_bytes wrote_front write_file sent_front after_bytes
    after_file complete drain
traffic_open = refl

run-Grown_example : Grown fresh (all_data traffic) (run fresh traffic)
run-Grown_example = run-Grown fresh traffic refl (tt, (tt, (tt, (tt, (tt, (tt, tt)))))) traffic_open

send-interrupted_example :
    (send_in_loop fresh 7 (104 ∷ 105 ∷ []) again).output_buf ≡ [] ++ take 2 (7 ∷ 104 ∷ 105 ∷ [])
send-interrupted_example = send-interrupted fresh 7 104 (105 ∷ []) refl refl

run-RemovedOnce_example :
    RemovedOnce
      (run fresh (sends 0 (codes "hi") (moved 1) ∷ closes false ∷ writable broken again ∷ []))
run-RemovedOnce_example =
    run-RemovedOnce fresh
      (sends 0 (codes "hi") (moved 1) ∷ closes false ∷ writable broken again ∷ []) refl

abbrev ended : Connection
ended = record fresh { state = closed; queued_handlers = 1 }

abbrev over_the_mark : List Call
over_the_mark = sends 0 (codes "hello") (moved 0) ∷ closes true ∷ runs_queued ∷ []

-- The handler waits in the loop when the connection is closed, and is called behind that.
run-Silent_example : Silent ended (run ended (runs_queued ∷ traffic))
run-Silent_example = run-Silent ended (runs_queued ∷ traffic) refl

late_handler : (run fresh over_the_mark).events ≡ removed ∷ close_called ∷ high_water ∷ []
unfolding run perform send_in_loop write after_write queue_bytes handle_close run_queued
late_handler = refl
