-- ===== src/Http/Message/Ends.antt =====
-- src/httplib/httplib.cc: the loops of parse_header and parse_body_by_chunked end.
use angel.Prelude.{
  ℕ, zero, suc, ◌+◌, ◌<◌, ◌≤◌, ◌≡◌, refl, List, [], ◌∷◌, Option, some, arith, ltb, ◌==◌, length,
  drop, length-drop, Option-holds, Bool-cases, inl, inr,
}
use angel.Buffer.Search.{crlf, is_prefix, search_first}
use angel.Connection.Stream.{if-holds}
use angel.Http.Integers.{ℤ, pos, negsuc}
use angel.Http.Message.{
  Message, Outcome, Round, go, done, header_line, header_round, header_loop, parse_header,
  chunk_data, sized, size_line, close_chunks, chunk_round, chunk_loop, by_chunked, parse_body,
}

-- A round that goes on leaves fewer than so many bytes.
abbrev pub IsShorter : ℕ → Round → Type 0
IsShorter n (go m buf) = length buf < n
IsShorter n (done o) = Unit {0}

header_line-IsShorter :
    (m : Message) (buf : List ℕ) (line : ℕ)
    → 0 < length buf
    → IsShorter (length buf) (header_line m buf line)
unfolding header_line
header_line-IsShorter m buf line some_left =
    Option-holds (IsShorter (length buf)) (search_first (b':' ∷ []) buf) _ _ tt (λ colon.
      if-holds (IsShorter (length buf)) _ _ (ltb line colon) tt
        (omega (arith, length-drop (line + 2) buf)))

header_round-IsShorter :
    (m : Message) (buf : List ℕ) → 0 < length buf → IsShorter (length buf) (header_round m buf)
unfolding header_round
header_round-IsShorter m buf some_left =
    Option-holds (IsShorter (length buf)) (search_first crlf buf) _ _ tt (λ line.
      if-holds (IsShorter (length buf)) _ _ (line == 0) tt
        (header_line-IsShorter m buf line some_left))

chunk_data-IsShorter :
    (size : ℕ) (m : Message) (buf : List ℕ) → IsShorter (length buf) (chunk_data size m buf)
unfolding chunk_data
chunk_data-IsShorter size m buf = elim (Bool-cases (ltb size (length buf))) [
  | inl e ↦
      let two = length-drop 2 (drop size buf) in
      let rest : length (drop 2 (drop size buf)) < length buf =
        ground (arith, two, length-drop size buf) in
      rw e (
        if-holds (IsShorter (length buf)) _ _ (ltb (length buf) (size + 2)) tt
          (if-holds (IsShorter (length buf)) _ _ (is_prefix crlf (drop size buf)) rest tt))
  | inr e ↦ rw e tt
]

IsShorter-weaken : (n k : ℕ) (r : Round) → n ≤ k → IsShorter n r → IsShorter k r
IsShorter-weaken n k (go m buf) h short = omega arith
IsShorter-weaken n k (done o) h short = tt

sized-IsShorter :
    (n : ℕ) (m : Message) (size : ℤ) (buf : List ℕ)
    → length buf < n
    → IsShorter n (sized m size buf)
unfolding sized
sized-IsShorter n m (negsuc k) buf h = tt
sized-IsShorter n m (pos zero) buf h = h
sized-IsShorter n m (pos (suc k)) buf h =
    IsShorter-weaken _ n (chunk_data (suc k) m buf) (omega arith)
      (chunk_data-IsShorter (suc k) m buf)

size_line-IsShorter :
    (m : Message) (buf : List ℕ) → 0 < length buf → IsShorter (length buf) (size_line m buf)
unfolding size_line
size_line-IsShorter m buf some_left =
    Option-holds (IsShorter (length buf)) (search_first crlf buf) _ _ tt (λ line.
      if-holds (IsShorter (length buf)) _ _ (ltb (length buf) (line + 4)) tt
        (sized-IsShorter _ _ _ (drop (line + 2) buf) (omega (arith, length-drop (line + 2) buf))))

abbrev Ends : Option Outcome → Type 0
Ends r = (o : Outcome) × (r ≡ some o)

Round-ends :
    (n : ℕ) (loop : Message → List ℕ → Option Outcome) (r : Round)
    → IsShorter n r
    → ((m : Message) (buf : List ℕ) → length buf < n → Ends (loop m buf))
    → Ends (elim r [ go m buf ↦ loop m buf | done o ↦ some o ])
Round-ends n loop (go m buf) short ends = ends m buf short
Round-ends n loop (done o) short ends = (o, refl)

-- More rounds than bytes are enough.
header_loop_ends :
    (fuel : ℕ) (m : Message) (buf : List ℕ) → length buf < fuel → Ends (header_loop fuel m buf)
unfolding header_loop
header_loop_ends zero m buf h = absurd (omega arith)
header_loop_ends (suc fuel) m [] h = (_, refl)
header_loop_ends (suc fuel) m (c ∷ buf) h =
    Round-ends (length (c ∷ buf)) (header_loop fuel) (header_round m (c ∷ buf))
      (header_round-IsShorter m (c ∷ buf) (omega arith))
      (λ m' buf' short. header_loop_ends fuel m' buf' (omega arith))

-- The loop over the lines of a header ends, whatever the bytes are.
pub parse_header_ends : (m : Message) (buf : List ℕ) → (o : Outcome) × (parse_header m buf ≡ some o)
unfolding parse_header
parse_header_ends m buf = header_loop_ends (suc (length buf)) m buf (omega arith)

chunk_round_lem :
    (m : Message) (buf : List ℕ) (size : ℤ)
    → 0 < length buf
    → (r : Round) × (chunk_round m buf size ≡ some r) × IsShorter (length buf) r
unfolding chunk_round
chunk_round_lem m buf (negsuc zero) h = (_, refl, size_line-IsShorter m buf h)
chunk_round_lem m buf (negsuc (suc n)) h = (_, refl, tt)
chunk_round_lem m buf (pos zero) h =
    let (o, e) = parse_header_ends m buf in (done (close_chunks o), rw e refl, tt)
chunk_round_lem m buf (pos (suc n)) h = (_, refl, chunk_data-IsShorter (suc n) m buf)

chunk_loop_ends :
    (fuel : ℕ) (m : Message) (buf : List ℕ) → length buf < fuel → Ends (chunk_loop fuel m buf)
unfolding chunk_loop
chunk_loop_ends zero m buf h = absurd (omega arith)
chunk_loop_ends (suc fuel) m [] h = (_, refl)
chunk_loop_ends (suc fuel) m (c ∷ buf) h =
    let (r, e, short) = chunk_round_lem m (c ∷ buf) m.chunk_size (omega arith) in
    rw (e, chunk_loop)
      (Round-ends (length (c ∷ buf)) (chunk_loop fuel) r short
        (λ m' buf' less. chunk_loop_ends fuel m' buf' (omega arith)))

-- Parsing a body ends with a code or with the read outside, whatever the message and the bytes
-- are, chunked or not: one round more than there are bytes is enough.
pub parse_body_ends : (m : Message) (buf : List ℕ) → (o : Outcome) × (parse_body m buf ≡ some o)
unfolding parse_body by_chunked
parse_body_ends m buf =
    if-holds Ends _ _ m.chunked (chunk_loop_ends (suc (length buf)) m buf (omega arith)) (_, refl)
