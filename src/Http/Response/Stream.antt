-- ===== src/Http/Response/Stream.antt =====
-- src/httplib/httplib.cc: the bytes of a response in chunks, wherever they are held back.
use angel.Prelude.{
  ℕ, ◌≡◌, refl, ap, sym, subst, ◌∙◌, List, [], ◌∷◌, ◌++◌, append_assoc, append-nil, Bool, true,
  false, codes, leb, length, if◌then◌else◌,
}
use angel.Buffer.Search.{crlf}
use angel.Connection.Stream.{if-holds}
use angel.Http.Message.{Headers}
use angel.Http.Response.{
  Response, Sent, bytes, file, close, conn_send, add_header, header, open_chunks, put_chunk,
  send_chunk, send_done, size_line,
}

-- The bytes sent, but for the parts of files.
abbrev pub joined : List Sent → List ℕ
joined [] = []
joined (bytes x ∷ xs) = x ++ joined xs
joined (file first len ∷ xs) = joined xs
joined (close ∷ xs) = joined xs

-- The bytes sent and held back.
abbrev pub stream : Response → List ℕ
stream r = joined r.sent ++ r.chunked_buf

abbrev pub chunk_wire : List ℕ → List ℕ
chunk_wire chunk = size_line chunk ++ (chunk ++ crlf)

abbrev pub chunks_wire : List (List ℕ) → List ℕ
chunks_wire [] = []
chunks_wire (chunk ∷ chunks) = chunk_wire chunk ++ chunks_wire chunks

abbrev pub last_chunk : List ℕ
last_chunk = b'0' ∷ (crlf ++ crlf)

joined-snoc : (xs : List Sent) (x : List ℕ) → joined (xs ++ bytes x ∷ []) ≡ joined xs ++ x
joined-snoc [] x = append-nil x
joined-snoc (file first len ∷ xs) x = joined-snoc xs x
joined-snoc (close ∷ xs) x = joined-snoc xs x
joined-snoc (bytes y ∷ xs) x = rw (joined-snoc xs x) (sym (append_assoc y (joined xs) x))

-- The parts of a chunk behind what is held back.
regroup :
    (xs buf line chunk : List ℕ)
    → xs ++ ((buf ++ line) ++ (chunk ++ crlf)) ≡ (xs ++ buf) ++ (line ++ (chunk ++ crlf))
regroup xs buf line chunk =
    rw (append_assoc buf line (chunk ++ crlf)) (sym (append_assoc xs buf (line ++ (chunk ++ crlf))))

put_chunk-stream :
    (chunk : List ℕ) (r : Response) → stream (put_chunk chunk r) ≡ stream r ++ chunk_wire chunk
unfolding put_chunk
put_chunk-stream chunk r =
    let line = r.chunked_buf ++ size_line chunk in
    let all = line ++ (chunk ++ crlf) in
    let held : joined r.sent ++ all ≡ stream r ++ chunk_wire chunk =
      regroup (joined r.sent) r.chunked_buf (size_line chunk) chunk in
    let full : joined (r.sent ++ bytes all ∷ []) ++ [] ≡ stream r ++ chunk_wire chunk =
      append-nil (joined (r.sent ++ bytes all ∷ [])) ∙ (joined-snoc r.sent all ∙ held) in
    let big : joined ((r.sent ++ bytes line ∷ []) ++ bytes chunk ∷ []) ++ crlf
        ≡ stream r ++ chunk_wire chunk =
      rw (joined-snoc (r.sent ++ bytes line ∷ []) chunk, joined-snoc r.sent line)
        (append_assoc (joined r.sent ++ line) chunk crlf
          ∙ (append_assoc (joined r.sent) line (chunk ++ crlf) ∙ held)) in
    let P = λ (r' : Response). stream r' ≡ stream r ++ chunk_wire chunk in
    if-holds P _ _ (leb 4096 (length chunk)) big (if-holds P _ _ (leb 4096 (length all)) full held)

put_chunk-chunked : (chunk : List ℕ) (r : Response) → (put_chunk chunk r).chunked ≡ r.chunked
unfolding put_chunk
put_chunk-chunked chunk r =
    let P = λ (r' : Response). r'.chunked ≡ r.chunked in
    if-holds P _ _ (leb 4096 (length chunk)) refl (
      if-holds P _ _ (leb 4096 (length ((r.chunked_buf ++ size_line chunk) ++ (chunk ++ crlf))))
        refl refl)

pub send_done-stream : (r : Response) → joined (send_done r).sent ≡ stream r ++ last_chunk
unfolding send_done
send_done-stream r =
    joined-snoc r.sent (r.chunked_buf ++ last_chunk)
    ∙ sym (append_assoc (joined r.sent) r.chunked_buf last_chunk)

reassociate : (v w x y z : List ℕ) → (((v ++ w) ++ x) ++ y) ++ z ≡ v ++ (w ++ ((x ++ y) ++ z))
reassociate v w x y z =
    rw
      (
        append_assoc v w x,
        append_assoc v (w ++ x) y,
        append_assoc w x y,
        append_assoc v (w ++ (x ++ y)) z,
        append_assoc w (x ++ y) z,
      )
      refl

module _ (iterate : Headers → Headers) (date : List ℕ) where
  -- The head of a response in chunks.
  abbrev pub head : Response → List ℕ
  head r =
      (header iterate date (
        add_header (codes "Transfer-Encoding") (codes "chunked") (record r { chunked = true }))).buf

  abbrev pub send_chunks : List (List ℕ) → Response → Response
  send_chunks [] r = r
  send_chunks (chunk ∷ chunks) r = send_chunks chunks (send_chunk iterate date chunk r)

  open_chunks-again :
      (chunk : List ℕ) (r : Response) → r.chunked ≡ true → open_chunks iterate date chunk r ≡ r
  unfolding open_chunks
  open_chunks-again chunk r e = rw e refl

  opened : Response → Response
  opened r =
      header iterate date
        (add_header (codes "Transfer-Encoding") (codes "chunked") (record r { chunked = true }))

  opened_lem :
      (r : Response)
      → ((opened r).sent ≡ r.sent)
        × ((opened r).chunked_buf ≡ r.chunked_buf)
        × ((opened r).chunked ≡ true)
        × ((opened r).buf ≡ head r)
  unfolding opened header add_header
  opened_lem r = (refl, refl, refl, refl)

  open_chunks-stream :
      (chunk : List ℕ) (r : Response)
      → r.chunked ≡ false
      → r.chunked_buf ≡ []
      → (stream (open_chunks iterate date chunk r) ≡ stream r ++ head r)
        × ((open_chunks iterate date chunk r).chunked ≡ true)
  unfolding open_chunks opened
  open_chunks-stream chunk r e none_held =
      let r1 = opened r in
      let (sent, held, marked, text) = opened_lem r in
      let small : stream (record r1 { chunked_buf = r1.chunked_buf ++ r1.buf })
          ≡ stream r ++ head r =
        rw (sent, held, text) (sym (append_assoc (joined r.sent) r.chunked_buf (head r))) in
      let big : stream (conn_send r1.buf r1) ≡ stream r ++ head r =
        rw (sent, held, text, none_held, joined-snoc r.sent (head r), append-nil (joined r.sent))
          (append-nil (joined r.sent ++ head r)) in
      let P = λ (r' : Response). (stream r' ≡ stream r ++ head r) × (r'.chunked ≡ true) in
      let small_or_big =
        if-holds P (conn_send r1.buf r1) (record r1 { chunked_buf = r1.chunked_buf ++ r1.buf })
          (leb 4096 (length chunk)) (big, marked) (small, marked) in
      subst
        (λ (b : Bool). P (
          if b
          then r
          else if leb 4096 (length chunk)
          then conn_send r1.buf r1
          else record r1 { chunked_buf = r1.chunked_buf ++ r1.buf }))
        (sym e) small_or_big

  -- Chunks behind the first.
  send_chunks-again :
      (chunks : List (List ℕ)) (r : Response)
      → r.chunked ≡ true
      → stream (send_chunks chunks r) ≡ stream r ++ chunks_wire chunks
  unfolding send_chunk
  send_chunks-again [] r e = sym (append-nil (stream r))
  send_chunks-again (chunk ∷ chunks) r e =
      ap (λ r'. stream (send_chunks chunks (put_chunk chunk r'))) (open_chunks-again chunk r e)
      ∙ (send_chunks-again chunks (put_chunk chunk r) (put_chunk-chunked chunk r ∙ e)
          ∙ (ap (λ s. s ++ chunks_wire chunks) (put_chunk-stream chunk r)
              ∙ append_assoc (stream r) (chunk_wire chunk) (chunks_wire chunks)))

  -- What a response that has begun no chunks and holds nothing back sends for one or more chunks and
  -- `send_done` is its head,
  -- the chunks one behind the other, each with its size and CRLF, and the last chunk, whatever
  -- sizes they have and however much of it `send_chunk` holds back in between.
  pub send_done-send_chunks :
      (chunk : List ℕ) (chunks : List (List ℕ)) (r : Response)
      → r.chunked ≡ false
      → r.chunked_buf ≡ []
      → joined (send_done (send_chunks (chunk ∷ chunks) r)).sent
        ≡ joined r.sent ++ (head r ++ (chunks_wire (chunk ∷ chunks) ++ last_chunk))
  unfolding send_chunk
  send_done-send_chunks chunk chunks r e none_held =
      let opening = open_chunks-stream chunk r e none_held in
      let r1 = open_chunks iterate date chunk r in
      let all =
        send_chunks-again chunks (put_chunk chunk r1) (put_chunk-chunked chunk r1 ∙ opening.1) in
      let first = put_chunk-stream chunk r1 in
      let start : stream r ≡ joined r.sent = rw none_held (append-nil (joined r.sent)) in
      let grown =
        all
        ∙ ap (λ s. s ++ chunks_wire chunks)
            (first ∙ ap (λ s. s ++ chunk_wire chunk) (opening.0 ∙ ap (λ s. s ++ head r) start)) in
      send_done-stream (send_chunks chunks (put_chunk chunk r1))
      ∙ (ap (λ s. s ++ last_chunk) grown
          ∙ reassociate (joined r.sent) (head r) (chunk_wire chunk) (chunks_wire chunks) last_chunk)
