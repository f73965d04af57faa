-- ===== src/Connection/Writes.antt =====
-- src/connection.cc: `handle_write` moves the front of the byte stream to the kernel.
use angel.Prelude.{
  ℕ, ◌+◌, ◌-◌, ◌≤◌, ◌≡◌, refl, ap, sym, ◌∙◌, ap₂, List, [], ◌∷◌, ◌++◌, Bool, true, false, not,
  arith, ◌==◌, inl, inr, Bool-cases, length, take, drop, min, append_assoc, append-nil, length-drop,
  take-append-drop,
}
use angel.Connection.{
  Connection, Io, moved, again, broken, count, minus_one, minus_two, is_closed, error_code,
  handle_close, write, wrote_front, write_bytes, write_file, complete, drain, after_file,
  after_bytes, handle_write,
}
use angel.Connection.Stream.{
  handed, total, IsValid, stream, Grown, Same, Same-trans, if-holds, List-cases, handle_close-Same,
}
use angel.Connection.Sends.{write-hands, unless-Grown, Same-Grown}
use angel.Connection.Files.{write_file-Same, complete-Same, drain-Same}

pub Grown-refl : (c : Connection) → IsValid c → Grown c [] c
Grown-refl c v = (v, sym (append-nil (stream c)))

pub Grown-Same : (c d : Connection) → IsValid c → Same c d → Grown c [] d
Grown-Same c d v s = Same-Grown c c d [] (Grown-refl c v) s

-- Bytes that leave the front of the buffer for the kernel.
pub front-Grown :
    (c d e : Connection) (rest : List (ℕ × ℕ)) (id len n : ℕ)
    → IsValid c
    → c.byte_stream_queue ≡ (id, len) ∷ rest
    → n ≤ len
    → d.output_buf ≡ c.output_buf
    → handed d.events ≡ handed c.events ++ take n c.output_buf
    → e.output_buf ≡ drop n d.output_buf
    → e.events ≡ d.events
    → total e.byte_stream_queue ≡ (len - n) + total rest
    → Grown c [] e
front-Grown c d e rest id len n v queue h out_same hands dropped events lens =
    let all : len + total rest ≡ length c.output_buf = sym (ap total queue) ∙ v in
    let out : e.output_buf ≡ drop n c.output_buf = dropped ∙ ap (λ x. drop n x) out_same in
    let left : length e.output_buf ≡ length c.output_buf - n =
      ap length out ∙ length-drop n c.output_buf in
    (
      omega (arith, all, left, lens, h),
      ap₂ (λ x y. x ++ y) (ap handed events ∙ hands) out
          ∙ append_assoc (handed c.events) (take n c.output_buf) (drop n c.output_buf)
          ∙ ap (λ x. handed c.events ++ x) (take-append-drop n c.output_buf)
          ∙ sym (append-nil (stream c)),
    )

pub wrote_error-Grown :
    (c d : Connection) (rest : List (ℕ × ℕ)) (id len : ℕ)
    → Grown c [] d
    → Grown c [] (wrote_front rest id len (d, error_code d)).0
unfolding wrote_front
wrote_error-Grown c d rest id len g =
    if-holds (λ r. Grown c [] (wrote_front rest id len (d, r)).0) minus_two minus_one (is_closed d)
      g g

pub wrote_count-Grown :
    (c d : Connection) (rest : List (ℕ × ℕ)) (id len n : ℕ)
    → IsValid c
    → c.byte_stream_queue ≡ (id, len) ∷ rest
    → n ≤ len
    → d.output_buf ≡ c.output_buf
    → d.byte_stream_queue ≡ c.byte_stream_queue
    → handed d.events ≡ handed c.events ++ take n c.output_buf
    → Grown c [] (wrote_front rest id len (d, count n)).0
unfolding wrote_front
wrote_count-Grown c d rest id len n v e h out_same queue_same hands = elim (Bool-cases (n == 0)) [
  | inl zero_written ↦
      let z : n ≡ 0 = ground (arith, zero_written) in
      rw zero_written (
        Grown-Same c d v (
          out_same,
          queue_same,
          hands ∙ ap (λ k. handed c.events ++ take k c.output_buf) z ∙ append-nil (handed c.events),
        ))
  | inr some_written ↦ elim (Bool-cases (len - n == 0)) [
    | inl done ↦
        rw (some_written, done)
          (front-Grown c d
            (record d {
              output_buf = drop n d.output_buf;
              byte_stream_queue = rest;
              next_id = d.next_id + 1;
            })
            rest id len n v e h out_same hands refl refl (ground (arith, done)))
    | inr more ↦
        rw (some_written, more)
          (front-Grown c d
            (record d {
              output_buf = drop n d.output_buf;
              byte_stream_queue = (id, len - n) ∷ rest;
            })
            rest id len n v e h out_same hands refl refl refl)
  ]
]

pub wrote_front-Grown :
    (c : Connection) (rest : List (ℕ × ℕ)) (id len : ℕ) (io : Io)
    → IsValid c
    → c.byte_stream_queue ≡ (id, len) ∷ rest
    → Grown c [] (wrote_front rest id len (write c c.output_buf len io)).0
unfolding write wrote_front
wrote_front-Grown c rest id len (moved room) v e =
    let n = min room len in
    let w = write-hands c c.output_buf len room in
    let d = (write c c.output_buf len (moved room)).0 in
    wrote_count-Grown c d rest id len n v e (omega arith) w.0 w.1 w.2
wrote_front-Grown c rest id len again v e = wrote_error-Grown c c rest id len (Grown-refl c v)
wrote_front-Grown c rest id len broken v e =
    wrote_error-Grown c (handle_close c true) rest id len
      (Grown-Same c (handle_close c true) v (handle_close-Same c true))

pub write_bytes-Grown : (c : Connection) (io : Io) → IsValid c → Grown c [] (write_bytes c io).0
unfolding write_bytes
write_bytes-Grown c io v = elim (List-cases c.byte_stream_queue) [
  | inl e ↦ rw (write_bytes, e) (Grown-refl c v)
  | inr ((id, len), rest, e) ↦
      rw (write_bytes, e)
        (if-holds (λ (r : Connection × Bool). Grown c [] r.0) _ _ (id == c.next_id)
          (wrote_front-Grown c rest id len io v e) (Grown-refl c v))
]

pub after_file-Same : (c : Connection) (r : Connection × Bool) → Same c r.0 → Same c (after_file r)
unfolding after_file
after_file-Same c (d, false) s = s
after_file-Same c (d, true) s =
    Same-trans c d (drain (complete d)) s
      (Same-trans d (complete d) (drain (complete d)) (complete-Same d) (drain-Same (complete d)))

pub after_bytes-Grown :
    (c : Connection) (r : Connection × Bool) (io : Io)
    → Grown c [] r.0
    → Grown c [] (after_bytes r io)
unfolding after_bytes
after_bytes-Grown c (d, false) io g = g
after_bytes-Grown c (d, true) io g =
    Same-Grown c d (after_file (write_file d io)) [] g
      (after_file-Same d (write_file d io) (write_file-Same d io))

pub handle_write-Grown :
    (c : Connection) (bytes_io file_io : Io)
    → IsValid c
    → Grown c [] (handle_write c bytes_io file_io)
unfolding handle_write
handle_write-Grown c bytes_io file_io v = unless-Grown c _ _ [] (is_closed c) (Grown-refl c v) (
    unless-Grown c _ _ [] (not c.is_writing) (Grown-refl c v)
      (after_bytes-Grown c (write_bytes c bytes_io) file_io (write_bytes-Grown c bytes_io v)))
