-- ===== src/Connection.antt =====
-- The sending side and the closing of a connection: include/angel/connection.h and
-- src/connection.cc. The contents of `output_buf` stand for the buffer (module Buffer).
pub mod Calls
pub mod Stream
pub mod Sends
pub mod Files
pub mod Writes
pub mod Delivery
pub mod Closing
pub mod Silence
pub mod Tests
use angel.Prelude.{
  ℕ, zero, suc, ◌+◌, ◌-◌, ◌≡◌, List, [], ◌∷◌, ◌++◌, Bool, true, false, Option, none, some, min,
  length, take, drop, ltb, leb, ◌==◌, ◌&&◌, not, if◌then◌else◌,
}

pub data State : Type 0 where
  connected closing closed : State

pub record FileRange : Type 0 where
  pub fd : ℕ
  pub offset : ℕ
  pub count : ℕ

-- What leaves the connection, in order: bytes and ranges of files for the peer, and calls of the
-- user's handlers.
pub data Event : Type 0 where
  wrote : List ℕ → Event
  sent_file : FileRange → Event
  send_complete : ℕ → Event
  high_water : Event
  removed : Event
  close_called : Event

-- `queued_handlers` counts the calls of the high-water handler that wait in the loop.
pub record Connection : Type 0 where
  pub state : State
  pub output_buf : List ℕ
  pub byte_stream_queue : List (ℕ × ℕ)
  pub send_file_queue : List (ℕ × FileRange)
  pub send_complete_handler_queue : List (ℕ × ℕ)
  pub send_id : ℕ
  pub next_id : ℕ
  pub is_writing : Bool
  pub high_water_mark : ℕ
  pub has_high_water_handler : Bool
  pub has_close_handler : Bool
  pub queued_handlers : ℕ
  pub ttl_timer_id : ℕ
  pub events : List Event

abbrev pub is_closed : Connection → Bool
is_closed c = elim c.state [ closed ↦ true | _ ↦ false ]

abbrev pub is_closing : Connection → Bool
is_closing c = elim c.state [ closing ↦ true | _ ↦ false ]

abbrev pub is_empty {ℓ} : {A : Type ℓ} → List A → Bool
is_empty [] = true
is_empty (x ∷ xs) = false

abbrev pub send_queue_is_empty : Connection → Bool
send_queue_is_empty c = is_empty c.byte_stream_queue && is_empty c.send_file_queue

abbrev pub emit : Connection → Event → Connection
emit c e = record c { events = c.events ++ e ∷ [] }

-- The answer of the kernel to `write` or `sendfile`: room for so many bytes, of which it takes
-- as many as there are; EAGAIN, EWOULDBLOCK or EINTR; or another error.
pub data Io : Type 0 where
  moved : ℕ → Io
  again : Io
  broken : Io

unfoldable pub handle_close : Connection → Bool → Connection
handle_close c is_forced =
    let d = record c { ttl_timer_id = 0 } in
    let e = emit (record d { state = closed }) removed in
    if is_closed c
    then c
    else if not is_forced && not (send_queue_is_empty c)
    then record d { state = closing }
    else if c.has_close_handler
    then emit e close_called
    else e

-- What `write` and `sendfile` of the connection return: a count, -1 or -2.
pub data Returned : Type 0 where
  count : ℕ → Returned
  minus_one minus_two : Returned

abbrev pub error_code : Connection → Returned
error_code c = if is_closed c then minus_two else minus_one

unfoldable pub write : Connection → List ℕ → ℕ → Io → Connection × Returned
write c bytes len (moved room) =
    let n = min room len in (if n == 0 then c else emit c (wrote (take n bytes)), count n)
write c bytes len again = (c, error_code c)
write c bytes len broken = let d = handle_close c true in (d, error_code d)

unfoldable pub sendfile : Connection → FileRange → Io → Connection × Returned
sendfile c f (moved room) =
    let n = min room f.count in
    (if n == 0 then c else emit c (sent_file (record f { count = n })), count n)
sendfile c f again = (c, error_code c)
sendfile c f broken = let d = handle_close c true in (d, error_code d)

-- Puts the rest of a byte stream into the queue. A call of the high-water handler is not made here
-- but given to the loop.
unfoldable pub queue_bytes : Connection → List ℕ → Connection
queue_bytes c rest =
    let d = record c {
      output_buf = c.output_buf ++ rest;
      byte_stream_queue = c.byte_stream_queue ++ (c.send_id, length rest) ∷ [];
      send_id = c.send_id + 1;
      is_writing = true;
    } in
    if ltb 0 c.high_water_mark
      && leb c.high_water_mark (length d.output_buf)
      && c.has_high_water_handler
    then record d { queued_handlers = c.queued_handlers + 1 }
    else d

-- The loop makes the next call of the high-water handler that was given to it, whatever the state of
-- the connection is by then.
unfoldable pub run_queued : Connection → Connection
run_queued c =
    if c.queued_handlers == 0
    then c
    else emit (record c { queued_handlers = c.queued_handlers - 1 }) high_water

-- Behind the attempt to write at once. `before` is the byte in front of the data: with -1 for `n`
-- the copy begins there.
unfoldable pub after_write : ℕ → List ℕ → Connection × Returned → Connection
after_write before bytes (c, minus_two) = c
after_write before bytes (c, minus_one) =
    if length bytes == 0 then c else queue_bytes c (take (length bytes) (before ∷ bytes))
after_write before bytes (c, count n) =
    if length bytes - n == 0 then c else queue_bytes c (drop n bytes)

unfoldable pub send_in_loop : Connection → ℕ → List ℕ → Io → Connection
send_in_loop c before bytes io =
    if is_closed c
    then c
    else if not c.is_writing && send_queue_is_empty c
    then after_write before bytes (write c bytes (length bytes) io)
    else after_write before bytes (c, count 0)

abbrev pub advance : FileRange → ℕ → FileRange
advance f n = record f { offset = f.offset + n; count = f.count - n }

unfoldable pub queue_file : Connection → FileRange → Connection
queue_file c f = if f.count == 0 then c else record c {
  send_file_queue = c.send_file_queue ++ (c.send_id, f) ∷ [];
  send_id = c.send_id + 1;
  is_writing = true;
}

unfoldable pub after_sendfile : FileRange → Connection × Returned → Connection
after_sendfile f (c, minus_two) = c
after_sendfile f (c, minus_one) = queue_file c f
after_sendfile f (c, count n) = queue_file c (advance f n)

unfoldable pub send_file_in_loop : Connection → FileRange → Io → Connection
send_file_in_loop c f io =
    if is_closed c
    then c
    else if not c.is_writing && send_queue_is_empty c
    then after_sendfile f (sendfile c f io)
    else queue_file c f

unfoldable pub set_send_complete_handler : Connection → ℕ → Connection
set_send_complete_handler c handler = record c {
  send_complete_handler_queue = c.send_complete_handler_queue ++ (c.send_id, handler) ∷ [];
  send_id = c.send_id + 1;
  is_writing = true;
}

-- The first part of `handle_write`, on the front of the byte streams; `false` is an early return.
unfoldable pub wrote_front : List (ℕ × ℕ) → ℕ → ℕ → Connection × Returned → Connection × Bool
wrote_front rest id len (c, minus_two) = (c, false)
wrote_front rest id len (c, minus_one) = (c, true)
wrote_front rest id len (c, count n) =
    if n == 0
    then (c, true)
    else if len - n == 0
    then (
      record c {
        output_buf = drop n c.output_buf;
        byte_stream_queue = rest;
        next_id = c.next_id + 1;
      },
      true,
    )
    else (
      record c { output_buf = drop n c.output_buf; byte_stream_queue = (id, len - n) ∷ rest },
      true,
    )

unfoldable pub write_bytes : Connection → Io → Connection × Bool
write_bytes c io = elim c.byte_stream_queue [
  | [] ↦ (c, true)
  | (id, len) ∷ rest ↦
      if id == c.next_id then wrote_front rest id len (write c c.output_buf len io) else (c, true)
]

unfoldable pub sent_front :
    List (ℕ × FileRange) → ℕ → FileRange → Connection × Returned → Connection × Bool
sent_front rest id f (c, minus_two) = (c, false)
sent_front rest id f (c, minus_one) = (c, true)
sent_front rest id f (c, count n) =
    if n == 0
    then (c, true)
    else if f.count - n == 0
    then (record c { send_file_queue = rest; next_id = c.next_id + 1 }, true)
    else (record c { send_file_queue = (id, advance f n) ∷ rest }, true)

unfoldable pub write_file : Connection → Io → Connection × Bool
write_file c io = elim c.send_file_queue [
  | [] ↦ (c, true)
  | (id, f) ∷ rest ↦ if id == c.next_id then sent_front rest id f (sendfile c f io) else (c, true)
]

unfoldable pub complete : Connection → Connection
complete c = elim c.send_complete_handler_queue [
  | [] ↦ c
  | (id, handler) ∷ rest ↦
      if id == c.next_id
      then emit (record c { send_complete_handler_queue = rest; next_id = c.next_id + 1 })
          (send_complete handler)
      else c
]

unfoldable pub drain : Connection → Connection
drain c =
    let d = record c { is_writing = false } in
    if send_queue_is_empty c && is_empty c.send_complete_handler_queue
    then if is_closing c then handle_close d true else d
    else c

unfoldable pub after_file : Connection × Bool → Connection
after_file (c, false) = c
after_file (c, true) = drain (complete c)

unfoldable pub after_bytes : Connection × Bool → Io → Connection
after_bytes (c, false) io = c
after_bytes (c, true) io = after_file (write_file c io)

unfoldable pub handle_write : Connection → Io → Io → Connection
handle_write c bytes_io file_io =
    if is_closed c
    then c
    else if not c.is_writing
    then c
    else after_bytes (write_bytes c bytes_io) file_io
