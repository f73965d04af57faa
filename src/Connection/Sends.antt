-- ===== src/Connection/Sends.antt =====
-- src/connection.cc: `send` adds its data to the byte stream.
use angel.Prelude.{
  ℕ, ◌+◌, ◌-◌, ◌≤◌, ◌≡◌, refl, ap, sym, ◌∙◌, ap₂, List, [], ◌∷◌, ◌++◌, Bool, true, false, not,
  arith, ◌==◌, ◌&&◌, if◌then◌else◌, inl, inr, Bool-cases, length, take, drop, min, append_assoc,
  append-nil, length-append, take-append-drop, drop-length,
}
use angel.Connection.{
  Connection, FileRange, moved, wrote, count, is_closed, is_empty, send_queue_is_empty, write,
  queue_bytes, after_write, send_in_loop,
}
use angel.Connection.Stream.{handed, total, IsValid, stream, Grown, Same, handed-append}

-- A write that the kernel accepts moves bytes from the caller to the peer.
pub write-hands :
    (c : Connection) (bytes : List ℕ) (len room : ℕ)
    → let d = (write c bytes len (moved room)).0 in
      (d.output_buf ≡ c.output_buf)
      × (d.byte_stream_queue ≡ c.byte_stream_queue)
      × (handed d.events ≡ handed c.events ++ take (min room len) bytes)
unfolding write
write-hands c bytes len room = elim (Bool-cases (min room len == 0)) [
  | inl e ↦
      let none_taken : min room len ≡ 0 = ground arith in
      rw none_taken (refl, refl, sym (append-nil (handed c.events)))
  | inr e ↦ rw e (
    refl,
    refl,
    handed-append c.events (wrote (take (min room len) bytes) ∷ [])
        ∙ ap (λ x. handed c.events ++ x) (append-nil (take (min room len) bytes)),
  )
]

pub unless-Grown :
    (c d e : Connection) (more : List ℕ) (b : Bool)
    → Grown c more d
    → Grown c more e
    → Grown c more (if b then d else e)
unless-Grown c d e more true s t = s
unless-Grown c d e more false s t = t

pub total-append : (q : List (ℕ × ℕ)) (id len : ℕ) → total (q ++ (id, len) ∷ []) ≡ total q + len
total-append [] id len = omega arith
total-append ((i, n) ∷ q) id len = omega (arith, total-append q id len)

pub Same-Grown : (c d e : Connection) (more : List ℕ) → Grown c more d → Same d e → Grown c more e
Same-Grown c d e more g s =
    (ap total s.1 ∙ g.0 ∙ ap length (sym (s.0)), ap₂ (λ x y. x ++ y) s.2 s.0 ∙ g.1)

pub queue_bytes-Grown :
    (c : Connection) (rest : List ℕ) → IsValid c → Grown c rest (queue_bytes c rest)
unfolding queue_bytes
queue_bytes-Grown c rest v =
    let valid : total (c.byte_stream_queue ++ (c.send_id, length rest) ∷ [])
        ≡ length (c.output_buf ++ rest) =
      omega (
        arith,
        total-append c.byte_stream_queue c.send_id (length rest),
        length-append c.output_buf rest,
        v,
      ) in
    let streams : handed c.events ++ (c.output_buf ++ rest) ≡ stream c ++ rest =
      sym (append_assoc (handed c.events) c.output_buf rest) in
    unless-Grown c _ _ rest _ (valid, streams) (valid, streams)

-- A connection with nothing queued has an empty buffer.
pub nothing_queued :
    (q : List (ℕ × ℕ)) (fs : List (ℕ × FileRange)) (out : List ℕ)
    → total q ≡ length out
    → (is_empty q && is_empty fs) ≡ true
    → out ≡ []
nothing_queued [] fs [] v e = refl
nothing_queued [] fs (x ∷ out) v e = ground (arith, v)
nothing_queued (x ∷ q) fs out v e = ground (arith, e)

pub after_write-Grown :
    (c : Connection) (before : ℕ) (bytes : List ℕ) (n : ℕ)
    → IsValid c
    → n ≤ length bytes
    → Grown c (drop n bytes) (after_write before bytes (c, count n))
unfolding after_write
after_write-Grown c before bytes n v h = elim (Bool-cases (length bytes - n == 0)) [
  | inl e ↦
      let whole : length bytes ≤ n = ground (arith, e) in
      rw (e, drop-length n bytes whole) (v, sym (append-nil (stream c)))
  | inr e ↦ rw e (queue_bytes-Grown c (drop n bytes) v)
]

-- What the kernel takes at once and what is queued behind it are the data.
pub direct-Grown :
    (c d e : Connection) (bytes : List ℕ) (n : ℕ)
    → c.output_buf ≡ []
    → d.output_buf ≡ c.output_buf
    → handed d.events ≡ handed c.events ++ take n bytes
    → Grown d (drop n bytes) e
    → Grown c bytes e
direct-Grown c d e bytes n none_queued out_same hands g = (
  g.0,
  g.1
      ∙ rw (hands, out_same, none_queued)
          (ap (λ x. x ++ drop n bytes) (append-nil (handed c.events ++ take n bytes))
            ∙ append_assoc (handed c.events) (take n bytes) (drop n bytes)
            ∙ ap₂ (λ x y. x ++ y) (sym (append-nil (handed c.events))) (take-append-drop n bytes)),
)

pub send_now-Grown :
    (c : Connection) (before room : ℕ) (bytes : List ℕ)
    → IsValid c
    → send_queue_is_empty c ≡ true
    → Grown c bytes (after_write before bytes (write c bytes (length bytes) (moved room)))
unfolding write
send_now-Grown c before room bytes v e =
    let n = min room (length bytes) in
    let w = write-hands c bytes (length bytes) room in
    let d = (write c bytes (length bytes) (moved room)).0 in
    direct-Grown c d (after_write before bytes (d, count n)) bytes n
      (nothing_queued c.byte_stream_queue c.send_file_queue c.output_buf v e) w.0 w.2
      (after_write-Grown d before bytes n (ap total w.1 ∙ v ∙ ap length (sym (w.0))) (omega arith))

pub send-Grown :
    (c : Connection) (before room : ℕ) (bytes : List ℕ)
    → IsValid c
    → is_closed c ≡ false
    → Grown c bytes (send_in_loop c before bytes (moved room))
unfolding send_in_loop
send-Grown c before room bytes v h = elim (Bool-cases (not c.is_writing && send_queue_is_empty c)) [
  | inl e ↦ rw (h, e) (send_now-Grown c before room bytes v (ground (arith, e)))
  | inr e ↦ rw (h, e) (after_write-Grown c before bytes 0 v (omega arith))
]
