-- ===== src/Connection/Closing.antt =====
-- src/connection.cc: a connection is removed from its loop once, and is silent from then on.
use angel.Prelude.{
  ℕ, ◌+◌, ◌-◌, ◌≡◌, refl, ap, ◌∙◌, List, [], ◌∷◌, ◌++◌, Bool, true, false, not, arith, ◌==◌, ◌&&◌,
  if◌then◌else◌, inl, inr, Bool-cases, length, take, drop, min,
}
use angel.Connection.{
  Connection, FileRange, Io, moved, again, broken, Event, wrote, sent_file, send_complete,
  high_water, removed, close_called, Returned, count, minus_one, minus_two, is_closed, is_closing,
  is_empty, send_queue_is_empty, emit, handle_close, write, sendfile, queue_bytes, run_queued,
  after_write, send_in_loop, advance, queue_file, after_sendfile, send_file_in_loop,
  set_send_complete_handler, wrote_front, write_bytes, sent_front, write_file, complete, drain,
  after_file, after_bytes, handle_write,
}
use angel.Connection.Calls.{
  Call, sends, sends_file, sets_handler, writable, closes, runs_queued, perform, run,
}
use angel.Connection.Stream.{if-holds, List-cases}

abbrev pub removals : List Event → ℕ
removals [] = 0
removals (wrote bytes ∷ es) = removals es
removals (sent_file f ∷ es) = removals es
removals (send_complete n ∷ es) = removals es
removals (high_water ∷ es) = removals es
removals (removed ∷ es) = 1 + removals es
removals (close_called ∷ es) = removals es

-- The connection has been removed from its loop once if it is closed, else not at all.
abbrev pub RemovedOnce : Connection → Type 0
RemovedOnce c = removals c.events ≡ (if is_closed c then 1 else 0)

removals-append : (es fs : List Event) → removals (es ++ fs) ≡ removals es + removals fs
removals-append [] fs = omega arith
removals-append (wrote bytes ∷ es) fs = removals-append es fs
removals-append (sent_file f ∷ es) fs = removals-append es fs
removals-append (send_complete n ∷ es) fs = removals-append es fs
removals-append (high_water ∷ es) fs = removals-append es fs
removals-append (removed ∷ es) fs = omega (arith, removals-append es fs)
removals-append (close_called ∷ es) fs = removals-append es fs

-- An event that is no removal keeps the count.
emit-RemovedOnce :
    (c : Connection) (e : Event) → removals (e ∷ []) ≡ 0 → RemovedOnce c → RemovedOnce (emit c e)
emit-RemovedOnce c e z h = omega (arith, removals-append c.events (e ∷ []), z, h)

handle_close-RemovedOnce :
    (c : Connection) (forced : Bool) → RemovedOnce c → RemovedOnce (handle_close c forced)
unfolding handle_close
handle_close-RemovedOnce c forced h = elim (Bool-cases (is_closed c)) [
  | inl e ↦ rw e h
  | inr e ↦
      let none_yet : removals c.events ≡ 0 = h ∙ ap (λ b. if b then 1 else 0) e in
      let once : removals (c.events ++ removed ∷ []) ≡ 1 =
        omega (arith, removals-append c.events (removed ∷ []), none_yet) in
      let still_once : removals (c.events ++ removed ∷ [] ++ close_called ∷ []) ≡ 1 =
        omega (arith, removals-append (c.events ++ removed ∷ []) (close_called ∷ []), once) in
      rw e (
        if-holds RemovedOnce _ _ (not forced && not (send_queue_is_empty c)) none_yet
          (if-holds RemovedOnce _ _ c.has_close_handler still_once once))
]

write-RemovedOnce :
    (c : Connection) (bytes : List ℕ) (len : ℕ) (io : Io)
    → RemovedOnce c
    → RemovedOnce (write c bytes len io).0
unfolding write
write-RemovedOnce c bytes len (moved room) h =
    if-holds RemovedOnce _ _ (min room len == 0) h
      (emit-RemovedOnce c (wrote (take (min room len) bytes)) refl h)
write-RemovedOnce c bytes len again h = h
write-RemovedOnce c bytes len broken h = handle_close-RemovedOnce c true h

sendfile-RemovedOnce :
    (c : Connection) (f : FileRange) (io : Io) → RemovedOnce c → RemovedOnce (sendfile c f io).0
unfolding sendfile
sendfile-RemovedOnce c f (moved room) h =
    if-holds RemovedOnce _ _ (min room f.count == 0) h
      (emit-RemovedOnce c (sent_file (record f { count = min room f.count })) refl h)
sendfile-RemovedOnce c f again h = h
sendfile-RemovedOnce c f broken h = handle_close-RemovedOnce c true h

queue_bytes-RemovedOnce :
    (c : Connection) (rest : List ℕ) → RemovedOnce c → RemovedOnce (queue_bytes c rest)
unfolding queue_bytes
queue_bytes-RemovedOnce c rest h = if-holds RemovedOnce _ _ _ h h

run_queued-RemovedOnce : (c : Connection) → RemovedOnce c → RemovedOnce (run_queued c)
unfolding run_queued
run_queued-RemovedOnce c h =
    if-holds RemovedOnce _ _ (c.queued_handlers == 0) h
      (emit-RemovedOnce (record c { queued_handlers = c.queued_handlers - 1 }) high_water refl h)

after_write-RemovedOnce :
    (before : ℕ) (bytes : List ℕ) (c : Connection) (r : Returned)
    → RemovedOnce c
    → RemovedOnce (after_write before bytes (c, r))
unfolding after_write
after_write-RemovedOnce before bytes c minus_two h = h
after_write-RemovedOnce before bytes c minus_one h =
    if-holds RemovedOnce c (queue_bytes c (take (length bytes) (before ∷ bytes)))
      (length bytes == 0) h (queue_bytes-RemovedOnce c (take (length bytes) (before ∷ bytes)) h)
after_write-RemovedOnce before bytes c (count n) h =
    if-holds RemovedOnce c (queue_bytes c (drop n bytes)) (length bytes - n == 0) h
      (queue_bytes-RemovedOnce c (drop n bytes) h)

send-RemovedOnce :
    (c : Connection) (before : ℕ) (bytes : List ℕ) (io : Io)
    → RemovedOnce c
    → RemovedOnce (send_in_loop c before bytes io)
unfolding send_in_loop
send-RemovedOnce c before bytes io h =
    let direct = after_write before bytes (write c bytes (length bytes) io) in
    let queued = after_write before bytes (c, count 0) in
    let now = not c.is_writing && send_queue_is_empty c in
    if-holds RemovedOnce c (if now then direct else queued) (is_closed c) h (
      if-holds RemovedOnce direct queued now
        (after_write-RemovedOnce before bytes (write c bytes (length bytes) io).0
          (write c bytes (length bytes) io).1 (write-RemovedOnce c bytes (length bytes) io h))
        (after_write-RemovedOnce before bytes c (count 0) h))

queue_file-RemovedOnce :
    (c : Connection) (f : FileRange) → RemovedOnce c → RemovedOnce (queue_file c f)
unfolding queue_file
queue_file-RemovedOnce c f h = if-holds RemovedOnce _ _ (f.count == 0) h h

after_sendfile-RemovedOnce :
    (f : FileRange) (c : Connection) (r : Returned)
    → RemovedOnce c
    → RemovedOnce (after_sendfile f (c, r))
unfolding after_sendfile
after_sendfile-RemovedOnce f c minus_two h = h
after_sendfile-RemovedOnce f c minus_one h = queue_file-RemovedOnce c f h
after_sendfile-RemovedOnce f c (count n) h = queue_file-RemovedOnce c (advance f n) h

send_file-RemovedOnce :
    (c : Connection) (f : FileRange) (io : Io)
    → RemovedOnce c
    → RemovedOnce (send_file_in_loop c f io)
unfolding send_file_in_loop
send_file-RemovedOnce c f io h =
    let direct = after_sendfile f (sendfile c f io) in
    let queued = queue_file c f in
    let now = not c.is_writing && send_queue_is_empty c in
    if-holds RemovedOnce c (if now then direct else queued) (is_closed c) h (
      if-holds RemovedOnce direct queued now
        (after_sendfile-RemovedOnce f (sendfile c f io).0 (sendfile c f io).1
          (sendfile-RemovedOnce c f io h))
        (queue_file-RemovedOnce c f h))

wrote_front-RemovedOnce :
    (rest : List (ℕ × ℕ)) (id len : ℕ) (c : Connection) (r : Returned)
    → RemovedOnce c
    → RemovedOnce (wrote_front rest id len (c, r)).0
unfolding wrote_front
wrote_front-RemovedOnce rest id len c minus_two h = h
wrote_front-RemovedOnce rest id len c minus_one h = h
wrote_front-RemovedOnce rest id len c (count n) h =
    if-holds (λ (r : Connection × Bool). RemovedOnce r.0) _ _ (n == 0) h
      (if-holds (λ (r : Connection × Bool). RemovedOnce r.0) _ _ (len - n == 0) h h)

write_bytes-RemovedOnce :
    (c : Connection) (io : Io) → RemovedOnce c → RemovedOnce (write_bytes c io).0
unfolding write_bytes
write_bytes-RemovedOnce c io h = elim (List-cases c.byte_stream_queue) [
  | inl e ↦ rw (write_bytes, e) h
  | inr ((id, len), rest, e) ↦
      rw (write_bytes, e)
        (if-holds (λ (r : Connection × Bool). RemovedOnce r.0) _ _ (id == c.next_id)
          (wrote_front-RemovedOnce rest id len (write c c.output_buf len io).0
            (write c c.output_buf len io).1 (write-RemovedOnce c c.output_buf len io h))
          h)
]

sent_front-RemovedOnce :
    (rest : List (ℕ × FileRange)) (id : ℕ) (f : FileRange) (c : Connection) (r : Returned)
    → RemovedOnce c
    → RemovedOnce (sent_front rest id f (c, r)).0
unfolding sent_front
sent_front-RemovedOnce rest id f c minus_two h = h
sent_front-RemovedOnce rest id f c minus_one h = h
sent_front-RemovedOnce rest id f c (count n) h =
    if-holds (λ (r : Connection × Bool). RemovedOnce r.0) _ _ (n == 0) h
      (if-holds (λ (r : Connection × Bool). RemovedOnce r.0) _ _ (f.count - n == 0) h h)

write_file-RemovedOnce :
    (c : Connection) (io : Io) → RemovedOnce c → RemovedOnce (write_file c io).0
unfolding write_file
write_file-RemovedOnce c io h = elim (List-cases c.send_file_queue) [
  | inl e ↦ rw (write_file, e) h
  | inr ((id, f), rest, e) ↦
      rw (write_file, e)
        (if-holds (λ (r : Connection × Bool). RemovedOnce r.0) _ _ (id == c.next_id)
          (sent_front-RemovedOnce rest id f (sendfile c f io).0 (sendfile c f io).1
            (sendfile-RemovedOnce c f io h))
          h)
]

complete-RemovedOnce : (c : Connection) → RemovedOnce c → RemovedOnce (complete c)
unfolding complete
complete-RemovedOnce c h = elim (List-cases c.send_complete_handler_queue) [
  | inl e ↦ rw (complete, e) h
  | inr ((id, handler), rest, e) ↦
      rw (complete, e)
        (if-holds RemovedOnce _ _ (id == c.next_id)
          (emit-RemovedOnce
            (record c { send_complete_handler_queue = rest; next_id = c.next_id + 1 })
            (send_complete handler) refl h)
          h)
]

drain-RemovedOnce : (c : Connection) → RemovedOnce c → RemovedOnce (drain c)
unfolding drain
drain-RemovedOnce c h =
    if-holds RemovedOnce _ _ (send_queue_is_empty c && is_empty c.send_complete_handler_queue)
      (if-holds RemovedOnce _ _ (is_closing c)
        (handle_close-RemovedOnce (record c { is_writing = false }) true h) h)
      h

after_file-RemovedOnce : (r : Connection × Bool) → RemovedOnce r.0 → RemovedOnce (after_file r)
unfolding after_file
after_file-RemovedOnce (c, false) h = h
after_file-RemovedOnce (c, true) h = drain-RemovedOnce (complete c) (complete-RemovedOnce c h)

after_bytes-RemovedOnce :
    (r : Connection × Bool) (io : Io) → RemovedOnce r.0 → RemovedOnce (after_bytes r io)
unfolding after_bytes
after_bytes-RemovedOnce (c, false) io h = h
after_bytes-RemovedOnce (c, true) io h =
    after_file-RemovedOnce (write_file c io) (write_file-RemovedOnce c io h)

handle_write-RemovedOnce :
    (c : Connection) (bytes_io file_io : Io)
    → RemovedOnce c
    → RemovedOnce (handle_write c bytes_io file_io)
unfolding handle_write
handle_write-RemovedOnce c bytes_io file_io h = if-holds RemovedOnce _ _ (is_closed c) h (
    if-holds RemovedOnce _ _ (not c.is_writing) h (
      after_bytes-RemovedOnce (write_bytes c bytes_io) file_io
        (write_bytes-RemovedOnce c bytes_io h)))

perform-RemovedOnce : (c : Connection) (call : Call) → RemovedOnce c → RemovedOnce (perform c call)
unfolding perform
perform-RemovedOnce c (sends before bytes io) h = send-RemovedOnce c before bytes io h
perform-RemovedOnce c (sends_file f io) h = send_file-RemovedOnce c f io h
perform-RemovedOnce c (sets_handler handler) h = unfold set_send_complete_handler in h
perform-RemovedOnce c (writable bytes_io file_io) h = handle_write-RemovedOnce c bytes_io file_io h
perform-RemovedOnce c (closes is_forced) h = handle_close-RemovedOnce c is_forced h
perform-RemovedOnce c runs_queued h = run_queued-RemovedOnce c h

-- Over every run of sends, files, completion handlers, writable events, calls that the loop makes
-- for the connection and closes, forced or not and with every answer of the kernel, a connection that is removed from its loop once if it is
-- closed and not at all otherwise stays such a connection.
pub run-RemovedOnce :
    (c : Connection) (calls : List Call) → RemovedOnce c → RemovedOnce (run c calls)
unfolding run
run-RemovedOnce c [] h = h
run-RemovedOnce c (call ∷ calls) h =
    run-RemovedOnce (perform c call) calls (perform-RemovedOnce c call h)
