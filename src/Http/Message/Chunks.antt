-- ===== src/Http/Message/Chunks.antt =====
-- src/httplib/httplib.cc: a chunked body, as send_chunk and send_done write it, is read back.
use angel.Prelude.{
  ℕ, zero, suc, ◌+◌, ◌-◌, ◌^◌, ◌<◌, ◌≤◌, ◌≡◌, refl, ap, sym, ◌∙◌, List, [], ◌∷◌, ◌++◌, append_assoc,
  append-nil, true, false, some, length, length-append, ltb, arith,
}
use angel.Buffer.Search.{crlf, is_prefix, search_first}
use angel.Mime.{is_hex_number}
use angel.Http.Integers.{pos, small_digit, minus_one, hex_text, from_hex_str}
use angel.Http.Integers.Hex.{AreHex, hex_text-AreHex, from_hex_str-hex_text}
use angel.Http.Message.{
  Message, Outcome, go, done, parsed, header_round, header_loop, parse_header, chunk_data, sized,
  size_line, chunk_round, chunk_loop, by_chunked,
}
use angel.Http.Response
use angel.Http.Message.Pieces.{together}
use angel.Http.Response.Stream.{chunk_wire, chunks_wire, last_chunk}
use angel.Http.Status.{ok, continue}
use angel.Http.Message.Lines.{size_line_lem, search_line, take-length, drop-length, drop_line}

chunk_data-wire :
    (chunk rest : List ℕ) (m : Message)
    → chunk_data (length chunk) m (chunk ++ (crlf ++ rest))
      ≡ go (record m { body = m.body ++ chunk; chunk_size = minus_one }) rest
unfolding chunk_data is_prefix
chunk_data-wire chunk rest m =
    let size = length-append chunk (crlf ++ rest) in
    let more : ltb (length chunk) (length (chunk ++ (crlf ++ rest))) ≡ true =
      ground (arith, size) in
    let enough : ltb (length (chunk ++ (crlf ++ rest))) (length chunk + 2) ≡ false =
      ground (arith, size) in
    rw (more, enough, drop-length chunk (crlf ++ rest), take-length chunk (crlf ++ rest)) refl

-- A line with a size, in a message between chunks.
size_line_round :
    (s buf : List ℕ) (m : Message)
    → AreHex s
    → 2 ≤ length buf
    → size_line m (s ++ (crlf ++ buf))
      ≡ sized (record m { chunk_size = from_hex_str s }) (from_hex_str s) buf
unfolding size_line
size_line_round s buf m hex two =
    let text = s ++ (crlf ++ buf) in
    let enough : ltb (length text) (length s + 4) ≡ false =
      ground (arith, length-append s (crlf ++ buf)) in
    rw (search_line s buf hex, size_line, enough, take-length s (crlf ++ buf), drop_line s buf) refl

chunk_wire-append :
    (bytes rest : List ℕ)
    → length bytes < 2 ^ 52
    → chunk_wire bytes ++ rest ≡ hex_text 16 (length bytes) ++ (crlf ++ (bytes ++ (crlf ++ rest)))
chunk_wire-append bytes rest small =
    let text = hex_text 16 (length bytes) in
    rw (size_line_lem bytes small) (
      append_assoc (text ++ crlf) (bytes ++ crlf) rest
      ∙ (append_assoc text crlf ((bytes ++ crlf) ++ rest)
          ∙ ap (λ t. text ++ (crlf ++ t)) (append_assoc bytes crlf rest)))

chunk_round-wire :
    (c : ℕ) (chunk rest : List ℕ) (m : Message)
    → length (c ∷ chunk) < 2 ^ 52
    → chunk_round m (chunk_wire (c ∷ chunk) ++ rest) minus_one
      ≡ some (go (record m { body = m.body ++ c ∷ chunk; chunk_size = minus_one }) rest)
unfolding chunk_round sized
chunk_round-wire c chunk rest m small =
    let bytes = c ∷ chunk in
    let text = hex_text 16 (length bytes) in
    let size = from_hex_str-hex_text (length bytes) (omega arith) in
    let more : 2 ≤ length (bytes ++ (crlf ++ rest)) =
      omega (arith, length-append chunk (crlf ++ rest)) in
    let line =
      size_line_round text (bytes ++ (crlf ++ rest)) m (hex_text-AreHex 16 (length bytes)) more in
    let filled = chunk_data-wire bytes rest (record m { chunk_size = pos (length bytes) }) in
    ap (λ t. some (size_line m t)) (chunk_wire-append bytes rest small)
    ∙ ap some (
        line
        ∙ (ap (λ n. sized (record m { chunk_size = n }) n (bytes ++ (crlf ++ rest))) size ∙ filled))

chunk_loop-go :
    (fuel : ℕ) (m m' : Message) (buf buf' : List ℕ)
    → 0 < length buf
    → chunk_round m buf m.chunk_size ≡ some (go m' buf')
    → chunk_loop (suc fuel) m buf ≡ chunk_loop fuel m' buf'
unfolding chunk_loop
chunk_loop-go fuel m m' [] buf' some_left e = absurd (omega arith)
chunk_loop-go fuel m m' (c ∷ buf) buf' some_left e = rw (e, chunk_loop) refl

chunk_loop-done :
    (fuel : ℕ) (m : Message) (buf : List ℕ) (o : Outcome)
    → 0 < length buf
    → chunk_round m buf m.chunk_size ≡ some (done o)
    → chunk_loop (suc fuel) m buf ≡ some o
unfolding chunk_loop
chunk_loop-done fuel m [] o some_left e = absurd (omega arith)
chunk_loop-done fuel m (c ∷ buf) o some_left e = rw (e, chunk_loop) refl

zero_size : from_hex_str (b'0' ∷ []) ≡ pos 0
unfolding hex_text small_digit
zero_size = from_hex_str-hex_text 0 (omega arith)

zero_hex : AreHex (b'0' ∷ [])
unfolding is_hex_number
zero_hex = (refl, tt)

last_line :
    (m : Message) (rest : List ℕ)
    → chunk_round m (last_chunk ++ rest) minus_one
      ≡ some (go (record m { chunk_size = pos 0 }) (crlf ++ rest))
unfolding chunk_round sized
last_line m rest = ap some (
    size_line_round (b'0' ∷ []) (crlf ++ rest) m zero_hex (omega arith)
    ∙ ap (λ n. sized (record m { chunk_size = n }) n (crlf ++ rest)) zero_size)

trailer :
    (m : Message) (rest : List ℕ)
    → chunk_round m (crlf ++ rest) (pos 0)
      ≡ some (done (parsed ok (record m { chunk_size = minus_one; chunked = false }) rest))
unfolding chunk_round parse_header header_loop header_round search_first is_prefix
trailer m rest = refl

-- The message whose body has been read.
abbrev pub completed : Message → List ℕ → Message
completed m bytes = record m { body = m.body ++ bytes; chunk_size = minus_one; chunked = false }

chunk_loop-last :
    (fuel : ℕ) (m : Message) (rest : List ℕ)
    → m.chunk_size ≡ minus_one
    → chunk_loop (suc (suc fuel)) m (last_chunk ++ rest)
      ≡ some (parsed ok (record m { chunk_size = minus_one; chunked = false }) rest)
chunk_loop-last fuel m rest e =
    let m0 = record m { chunk_size = pos 0 } in
    let line = ap (chunk_round m (last_chunk ++ rest)) e ∙ last_line m rest in
    chunk_loop-go (suc fuel) m m0 (last_chunk ++ rest) (crlf ++ rest) (omega arith) line
    ∙ chunk_loop-done fuel m0 (crlf ++ rest) _ (omega arith) (trailer m0 rest)

-- No chunk is empty, and their sizes are below 2 ^ 52.
abbrev pub AreChunks : List (List ℕ) → Type 0
AreChunks [] = Unit {0}
AreChunks (chunk ∷ chunks) = (0 < length chunk) × (length chunk < 2 ^ 52) × AreChunks chunks

chunk_loop-wire :
    (fuel : ℕ) (chunks : List (List ℕ)) (m : Message) (rest : List ℕ)
    → AreChunks chunks
    → m.chunk_size ≡ minus_one
    → length chunks + 2 ≤ fuel
    → chunk_loop fuel m (chunks_wire chunks ++ (last_chunk ++ rest))
      ≡ some (parsed ok (completed m (together chunks)) rest)
chunk_loop-wire zero chunks m rest valid e h = absurd (omega arith)
chunk_loop-wire (suc zero) chunks m rest valid e h = absurd (omega arith)
chunk_loop-wire (suc (suc fuel)) [] m rest valid e h =
    chunk_loop-last fuel m rest e
    ∙ ap
        (λ b.
          some (parsed ok (record m { body = b; chunk_size = minus_one; chunked = false }) rest))
        (sym (append-nil m.body))
chunk_loop-wire (suc (suc fuel)) ([] ∷ chunks) m rest (some_bytes, small, valid) e h =
    absurd (omega arith)
chunk_loop-wire (suc (suc fuel)) ((c ∷ chunk) ∷ chunks) m rest (some_bytes, small, valid) e h =
    let bytes = c ∷ chunk in
    let behind = chunks_wire chunks ++ (last_chunk ++ rest) in
    let m1 = record m { body = m.body ++ bytes; chunk_size = minus_one } in
    let text = chunk_wire-append bytes behind small in
    let filled : 0 < length (chunk_wire bytes ++ behind) = omega (
      arith,
      ap length text,
      length-append (hex_text 16 (length bytes)) (crlf ++ (bytes ++ (crlf ++ behind))),
    ) in
    ap (chunk_loop (suc (suc fuel)) m)
      (append_assoc (chunk_wire bytes) (chunks_wire chunks) (last_chunk ++ rest))
    ∙ (chunk_loop-go (suc fuel) m m1 (chunk_wire bytes ++ behind) behind filled (
          ap (chunk_round m (chunk_wire bytes ++ behind)) e
          ∙ chunk_round-wire c chunk behind m small)
        ∙ (chunk_loop-wire (suc fuel) chunks m1 rest valid refl (omega arith)
            ∙ ap
                (λ b.
                  some (
                    parsed ok (record m { body = b; chunk_size = minus_one; chunked = false })
                      rest))
                (append_assoc m.body bytes (together chunks))))

length-chunks_wire :
    (chunks : List (List ℕ)) → AreChunks chunks → length chunks ≤ length (chunks_wire chunks)
length-chunks_wire [] valid = omega arith
length-chunks_wire (chunk ∷ chunks) (some_bytes, small, valid) = omega (
  arith,
  length-chunks_wire chunks valid,
  length-append (chunk_wire chunk) (chunks_wire chunks),
  length-append (Response.size_line chunk) (chunk ++ crlf),
  length-append chunk crlf,
)

-- The chunks that `send_chunk` and `send_done` write are read back by the parser of a chunked body
-- as the bytes of all chunks, the parser is ready for the next message, and exactly their bytes
-- are consumed. (No chunk is empty or has 2 ^ 52 bytes, and the message is at the begin of a
-- chunk.)
pub by_chunked-chunks_wire :
    (chunks : List (List ℕ)) (m : Message) (rest : List ℕ)
    → AreChunks chunks
    → m.chunk_size ≡ minus_one
    → by_chunked m (chunks_wire chunks ++ (last_chunk ++ rest))
      ≡ some (parsed ok (completed m (together chunks)) rest)
unfolding by_chunked
by_chunked-chunks_wire chunks m rest valid e = chunk_loop-wire _ chunks m rest valid e (
    omega (
      arith,
      length-chunks_wire chunks valid,
      length-append (chunks_wire chunks) (last_chunk ++ rest),
    ))

-- When the data of a chunk end exactly where the received bytes end, the size left is 0, which is
-- taken for the last chunk: the CRLF behind the data then ends the body, and what follows it is
-- left for the next message, whatever it is.
pub by_chunked-early_end :
    (m : Message) (c : ℕ) (bytes rest : List ℕ)
    → m.chunk_size ≡ pos (length (c ∷ bytes))
    → (m' : Message) × (by_chunked m (c ∷ bytes) ≡ some (parsed continue m' []))
      × (by_chunked m' (crlf ++ rest) ≡ some (parsed ok (completed m (c ∷ bytes)) rest))
unfolding by_chunked chunk_round chunk_data
by_chunked-early_end m c bytes rest e =
    let all = c ∷ bytes in
    let m' = record m { body = m.body ++ all; chunk_size = pos 0 } in
    let none_left : length all - length all ≡ 0 = omega arith in
    let same_size : ltb (length all) (length all) ≡ false = ground arith in
    let round : chunk_round m all (pos (length all)) ≡ some (done (parsed continue m' [])) =
      rw (same_size, none_left) refl in
    (
      m',
      chunk_loop-done (length all) m all _ (omega arith) (ap (chunk_round m all) e ∙ round),
      chunk_loop-done (length (crlf ++ rest)) m' (crlf ++ rest) _ (omega arith) (trailer m' rest),
    )
