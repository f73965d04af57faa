-- ===== src/Connection/Calls.antt =====
-- src/connection.cc: the calls that reach a connection on its loop's thread, and runs of them.
use angel.Prelude.{ℕ, List, [], ◌∷◌, Bool}
use angel.Connection.{
  Connection, FileRange, Io, send_in_loop, send_file_in_loop, set_send_complete_handler,
  handle_write, handle_close, run_queued,
}

-- `closes` is `close` (not forced) or `force_close_connection` (forced); `writable` is the event
-- of the loop that calls `handle_write`; `runs_queued` is the loop's run of a call given to it.
pub data Call : Type 0 where
  sends : ℕ → List ℕ → Io → Call
  sends_file : FileRange → Io → Call
  sets_handler : ℕ → Call
  writable : Io → Io → Call
  closes : Bool → Call
  runs_queued : Call

unfoldable pub perform : Connection → Call → Connection
perform c (sends before bytes io) = send_in_loop c before bytes io
perform c (sends_file f io) = send_file_in_loop c f io
perform c (sets_handler handler) = set_send_complete_handler c handler
perform c (writable bytes_io file_io) = handle_write c bytes_io file_io
perform c (closes is_forced) = handle_close c is_forced
perform c runs_queued = run_queued c

unfoldable pub run : Connection → List Call → Connection
run c [] = c
run c (call ∷ calls) = run (perform c call) calls
