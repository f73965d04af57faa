-- ===== src/Connection/Files.antt =====
-- src/connection.cc: files, completions and the end of `handle_write` leave the byte stream alone.
use angel.Prelude.{ℕ, ◌-◌, refl, List, Bool, true, false, not, ◌==◌, ◌&&◌, inl, inr, min}
use angel.Connection.{
  Connection, FileRange, Io, moved, again, broken, sent_file, send_complete, Returned, count,
  minus_one, minus_two, is_closed, is_closing, is_empty, send_queue_is_empty, handle_close,
  sendfile, advance, queue_file, after_sendfile, send_file_in_loop, sent_front, write_file,
  complete, drain,
}
use angel.Connection.Stream.{
  Same, Same-refl, Same-trans, emit-handed, if-holds, List-cases, unless-Same, handle_close-Same,
}

pub sent_front-Same :
    (c d : Connection) (rest : List (ℕ × FileRange)) (id : ℕ) (f : FileRange) (r : Returned)
    → Same c d
    → Same c (sent_front rest id f (d, r)).0
unfolding sent_front
sent_front-Same c d rest id f minus_two s = s
sent_front-Same c d rest id f minus_one s = s
sent_front-Same c d rest id f (count n) s =
    if-holds (λ (r : Connection × Bool). Same c r.0) _ _ (n == 0) s
      (if-holds (λ (r : Connection × Bool). Same c r.0) _ _ (f.count - n == 0) s s)

pub sendfile-Same : (c : Connection) (f : FileRange) (io : Io) → Same c (sendfile c f io).0
unfolding sendfile
sendfile-Same c f (moved room) =
    unless-Same c _ _ (min room f.count == 0) (Same-refl c)
      (refl, refl, emit-handed c.events (sent_file (record f { count = min room f.count })) refl)
sendfile-Same c f again = Same-refl c
sendfile-Same c f broken = handle_close-Same c true

pub write_file-Same : (c : Connection) (io : Io) → Same c (write_file c io).0
unfolding write_file
write_file-Same c io = elim (List-cases c.send_file_queue) [
  | inl e ↦ rw (write_file, e) (Same-refl c)
  | inr ((id, f), rest, e) ↦
      rw (write_file, e)
        (if-holds (λ (r : Connection × Bool). Same c r.0) _ _ (id == c.next_id)
          (sent_front-Same c (sendfile c f io).0 rest id f (sendfile c f io).1
            (sendfile-Same c f io))
          (Same-refl c))
]

pub complete-Same : (c : Connection) → Same c (complete c)
unfolding complete
complete-Same c = elim (List-cases c.send_complete_handler_queue) [
  | inl e ↦ rw (complete, e) (Same-refl c)
  | inr ((id, handler), rest, e) ↦
      rw (complete, e)
        (unless-Same c _ _ (id == c.next_id)
          (refl, refl, emit-handed c.events (send_complete handler) refl) (Same-refl c))
]

pub drain-Same : (c : Connection) → Same c (drain c)
unfolding drain
drain-Same c =
    unless-Same c _ _ (send_queue_is_empty c && is_empty c.send_complete_handler_queue)
      (unless-Same c _ _ (is_closing c)
        (Same-trans c (record c { is_writing = false })
          (handle_close (record c { is_writing = false }) true) (refl, refl, refl)
          (handle_close-Same (record c { is_writing = false }) true))
        (refl, refl, refl))
      (Same-refl c)

pub queue_file-Same : (c d : Connection) (f : FileRange) → Same c d → Same c (queue_file d f)
unfolding queue_file
queue_file-Same c d f s = unless-Same c _ _ (f.count == 0) s s

pub after_sendfile-Same :
    (c d : Connection) (f : FileRange) (r : Returned) → Same c d → Same c (after_sendfile f (d, r))
unfolding after_sendfile
after_sendfile-Same c d f minus_two s = s
after_sendfile-Same c d f minus_one s = queue_file-Same c d f s
after_sendfile-Same c d f (count n) s = queue_file-Same c d (advance f n) s

pub send_file-Same : (c : Connection) (f : FileRange) (io : Io) → Same c (send_file_in_loop c f io)
unfolding send_file_in_loop
send_file-Same c f io = unless-Same c _ _ (is_closed c) (Same-refl c) (
    unless-Same c _ _ (not c.is_writing && send_queue_is_empty c)
      (after_sendfile-Same c (sendfile c f io).0 f (sendfile c f io).1 (sendfile-Same c f io))
      (queue_file-Same c c f (Same-refl c)))
