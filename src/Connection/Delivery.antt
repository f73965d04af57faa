-- ===== src/Connection/Delivery.antt =====
-- src/connection.cc: what the peer receives is what was sent, in order.
use angel.Prelude.{
  ℕ, ◌≡◌, refl, ap, ◌∙◌, List, [], ◌∷◌, ◌++◌, Bool, true, false, not, arith, ◌==◌, ◌&&◌, inl, inr,
  Bool-cases, length, take, append_assoc,
}
use angel.Connection.{
  Connection, moved, again, broken, minus_one, is_closed, send_queue_is_empty, handle_close, write,
  queue_bytes, after_write, send_in_loop, send_file_in_loop, set_send_complete_handler,
  handle_write, run_queued,
}
use angel.Connection.Calls.{
  Call, sends, sends_file, sets_handler, writable, closes, runs_queued, perform, run,
}
use angel.Connection.Stream.{IsValid, stream, Grown, if-holds, handle_close-Same, run_queued-Same}
use angel.Connection.Sends.{after_write-Grown, send-Grown}
use angel.Connection.Files.{send_file-Same}
use angel.Connection.Writes.{Grown-refl, Grown-Same, handle_write-Grown}

-- The bytes that a call sends.
abbrev pub data_of : Call → List ℕ
data_of (sends before bytes io) = bytes
data_of (sends_file f io) = []
data_of (sets_handler handler) = []
data_of (writable bytes_io file_io) = []
data_of (closes is_forced) = []
data_of runs_queued = []

abbrev pub all_data : List Call → List ℕ
all_data [] = []
all_data (call ∷ calls) = data_of call ++ all_data calls

-- The write that `send` itself attempts is not interrupted and would not block.
abbrev pub IsReady : Call → Type 0
IsReady (sends before bytes (moved room)) = Unit {0}
IsReady (sends before bytes again) = ⊥
IsReady (sends before bytes broken) = Unit {0}
IsReady (sends_file f io) = Unit {0}
IsReady (sets_handler handler) = Unit {0}
IsReady (writable bytes_io file_io) = Unit {0}
IsReady (closes is_forced) = Unit {0}
IsReady runs_queued = Unit {0}

abbrev pub AreReady : List Call → Type 0
AreReady [] = Unit {0}
AreReady (call ∷ calls) = IsReady call × AreReady calls

pub handle_close-closed : (c : Connection) → is_closed (handle_close c true) ≡ true
unfolding handle_close
handle_close-closed c = elim (Bool-cases (is_closed c)) [
  | inl e ↦ rw e e
  | inr e ↦ rw e (if-holds (λ d. is_closed d ≡ true) _ _ c.has_close_handler refl refl)
]

pub broken-closed :
    (c : Connection) (before : ℕ) (bytes : List ℕ)
    → is_closed (after_write before bytes (write c bytes (length bytes) broken)) ≡ true
unfolding write after_write
broken-closed c before bytes = rw (handle_close-closed c) (handle_close-closed c)

pub perform-closed :
    (c : Connection) (call : Call) → is_closed c ≡ true → is_closed (perform c call) ≡ true
unfolding perform
perform-closed c (sends before bytes io) h = unfold send_in_loop in rw h h
perform-closed c (sends_file f io) h = unfold send_file_in_loop in rw h h
perform-closed c (sets_handler handler) h = unfold set_send_complete_handler in h
perform-closed c (writable bytes_io file_io) h = unfold handle_write in rw h h
perform-closed c (closes is_forced) h = unfold handle_close in rw h h
perform-closed c runs_queued h =
    unfold run_queued in if-holds (λ d. is_closed d ≡ true) _ _ (c.queued_handlers == 0) h h

pub run-closed :
    (c : Connection) (calls : List Call) → is_closed c ≡ true → is_closed (run c calls) ≡ true
unfolding run
run-closed c [] h = h
run-closed c (call ∷ calls) h = run-closed (perform c call) calls (perform-closed c call h)

-- A test that has both values.
pub clash : (b : Bool) → b ≡ true → b ≡ false → ⊥
clash true t f = ground (arith, f)
clash false t f = ground (arith, t)

pub was_open :
    (c : Connection) (call : Call) → is_closed (perform c call) ≡ false → is_closed c ≡ false
was_open c call h = elim (Bool-cases (is_closed c)) [
  | inl e ↦ absurd (clash (is_closed (perform c call)) (perform-closed c call e) h)
  | inr e ↦ e
]

pub broken-Grown :
    (c : Connection) (before : ℕ) (bytes : List ℕ)
    → IsValid c
    → is_closed c ≡ false
    → is_closed (send_in_loop c before bytes broken) ≡ false
    → Grown c bytes (send_in_loop c before bytes broken)
unfolding send_in_loop
broken-Grown c before bytes v o h = elim (Bool-cases (not c.is_writing && send_queue_is_empty c)) [
  | inl e ↦ absurd (
      clash (is_closed (send_in_loop c before bytes broken))
        (rw (o, e) (broken-closed c before bytes)) h)
  | inr e ↦ rw (o, e) (after_write-Grown c before bytes 0 v (omega arith))
]

pub perform-Grown :
    (c : Connection) (call : Call)
    → IsValid c
    → IsReady call
    → is_closed (perform c call) ≡ false
    → Grown c (data_of call) (perform c call)
unfolding perform
perform-Grown c (sends before bytes (moved room)) v r h =
    send-Grown c before room bytes v (was_open c (sends before bytes (moved room)) h)
perform-Grown c (sends before bytes again) v r h = absurd r
perform-Grown c (sends before bytes broken) v r h =
    broken-Grown c before bytes v (was_open c (sends before bytes broken) h) h
perform-Grown c (sends_file f io) v r h =
    Grown-Same c (send_file_in_loop c f io) v (send_file-Same c f io)
perform-Grown c (sets_handler handler) v r h = unfold set_send_complete_handler in Grown-refl c v
perform-Grown c (writable bytes_io file_io) v r h = handle_write-Grown c bytes_io file_io v
perform-Grown c (closes is_forced) v r h =
    Grown-Same c (handle_close c is_forced) v (handle_close-Same c is_forced)
perform-Grown c runs_queued v r h = Grown-Same c (run_queued c) v (run_queued-Same c)

-- From a connection whose queued lengths add up to its buffer, and while it is not closed,
-- whatever calls were made and however the kernel split the
-- writes: what the kernel has taken followed by what is queued has grown by exactly the data that
-- were sent, in the order of the sends, and the queued lengths add up to the buffer. (No write
-- that `send` itself attempts was interrupted.)
pub run-Grown :
    (c : Connection) (calls : List Call)
    → IsValid c
    → AreReady calls
    → is_closed (run c calls) ≡ false
    → Grown c (all_data calls) (run c calls)
unfolding run
run-Grown c [] v r h = Grown-refl c v
run-Grown c (call ∷ calls) v r h =
    let next = perform c call in
    let next_open : is_closed next ≡ false = elim (Bool-cases (is_closed next)) [
      | inl e ↦ absurd (clash (is_closed (run next calls)) (run-closed next calls e) h)
      | inr e ↦ e
    ] in
    let first = perform-Grown c call v r.0 next_open in
    let rest = run-Grown next calls first.0 r.1 h in
    (
      rest.0,
      rest.1
          ∙ ap (λ x. x ++ all_data calls) first.1
          ∙ append_assoc (stream c) (data_of call) (all_data calls),
    )

pub queue_bytes-output :
    (c : Connection) (rest : List ℕ) → (queue_bytes c rest).output_buf ≡ c.output_buf ++ rest
unfolding queue_bytes
queue_bytes-output c rest =
    if-holds (λ (d : Connection). d.output_buf ≡ c.output_buf ++ rest) _ _ _ refl refl

pub interrupted-output :
    (c : Connection) (before b : ℕ) (bytes : List ℕ)
    → (after_write before (b ∷ bytes) (c, minus_one)).output_buf
      ≡ c.output_buf ++ take (length (b ∷ bytes)) (before ∷ b ∷ bytes)
unfolding after_write
interrupted-output c before b bytes =
    let some_data : (length (b ∷ bytes) == 0) ≡ false = ground arith in
    rw some_data (queue_bytes-output c (take (length (b ∷ bytes)) (before ∷ b ∷ bytes)))

-- A `send` on an idle open connection whose write is interrupted (EAGAIN, EWOULDBLOCK, EINTR)
-- queues the byte in front of the data and all of the data but the last byte.
pub send-interrupted :
    (c : Connection) (before b : ℕ) (bytes : List ℕ)
    → is_closed c ≡ false
    → (not c.is_writing && send_queue_is_empty c) ≡ true
    → (send_in_loop c before (b ∷ bytes) again).output_buf
      ≡ c.output_buf ++ take (length (b ∷ bytes)) (before ∷ b ∷ bytes)
unfolding send_in_loop write
send-interrupted c before b bytes o e = rw (o, e) (interrupted-output c before b bytes)
