-- ===== src/Http/Message/Sizes.antt =====
-- src/httplib/httplib.cc: how many bytes the parsers of a message leave.
use angel.Prelude.{
  ℕ, zero, suc, ◌+◌, ◌<◌, ◌≤◌, List, [], ◌∷◌, Bool, true, false, Option, none, some, arith, leb,
  ltb, ◌==◌, length, drop, take, length-drop, if◌then◌else◌, Option-holds,
}
use angel.Buffer.Search.{crlf, is_prefix, search_first}
use angel.Connection.Stream.{if-holds}
use angel.Http.Integers.{ℤ, pos, negsuc, from_hex_str}
use angel.Http.Message.{
  Message, Outcome, parsed, overrun, Round, go, done, header_line, header_round, header_loop,
  parse_header, chunk_data, sized, size_line, close_chunks, chunk_round, chunk_loop, by_chunked,
  by_content_length, parse_body,
}
use angel.Http.Status.{StatusCode, ok}
use mathlib.Core.Option

abbrev pub is_ok : StatusCode → Bool
is_ok ok = true
is_ok code = false

-- At most so many bytes are left; behind the end of a header there are fewer.
abbrev pub IsLeft : ℕ → Outcome → Type 0
IsLeft n overrun = Unit {0}
IsLeft n (parsed code m rest) = length rest ≤ n

abbrev pub IsFewer : ℕ → Outcome → Type 0
IsFewer n overrun = Unit {0}
IsFewer n (parsed code m rest) = length rest + (if is_ok code then 1 else 0) ≤ n

IsFewer-IsLeft : (n : ℕ) (o : Outcome) → IsFewer n o → IsLeft n o
IsFewer-IsLeft n overrun h = tt
IsFewer-IsLeft n (parsed code m rest) h = omega arith

-- A round of a header, and one of the chunks.
abbrev FewerRound : ℕ → Round → Type 0
FewerRound n (go m rest) = length rest ≤ n
FewerRound n (done o) = IsFewer n o

abbrev LeftRound : ℕ → Round → Type 0
LeftRound n (go m rest) = length rest ≤ n
LeftRound n (done o) = IsLeft n o

header_line-FewerRound :
    (m : Message) (buf : List ℕ) (line : ℕ) → FewerRound (length buf) (header_line m buf line)
unfolding header_line
header_line-FewerRound m buf line =
    let n = length buf in
    let same : length buf + 0 ≤ n = omega arith in
    Option-holds (FewerRound n) (search_first (b':' ∷ []) buf) _ _ same (λ colon.
      if-holds (FewerRound n) _ _ (ltb line colon) tt (omega (arith, length-drop (line + 2) buf)))

header_round-FewerRound :
    (m : Message) (buf : List ℕ) → 0 < length buf → FewerRound (length buf) (header_round m buf)
unfolding header_round
header_round-FewerRound m buf some_left =
    let n = length buf in
    let same : length buf + 0 ≤ n = omega arith in
    let fewer : length (drop 2 buf) + 1 ≤ n = omega (arith, length-drop 2 buf) in
    Option-holds (FewerRound n) (search_first crlf buf) _ _ same
      (λ line. if-holds (FewerRound n) _ _ (line == 0) fewer (header_line-FewerRound m buf line))

-- What holds of the end of a loop holds of every round's result.
IsFewer-weaken : (n k : ℕ) (o : Outcome) → n ≤ k → IsFewer n o → IsFewer k o
IsFewer-weaken n k overrun h h' = tt
IsFewer-weaken n k (parsed code m rest) h h' = omega arith

IsLeft-weaken : (n k : ℕ) (o : Outcome) → n ≤ k → IsLeft n o → IsLeft k o
IsLeft-weaken n k overrun h h' = tt
IsLeft-weaken n k (parsed code m rest) h h' = omega arith

-- Of a result, if there is one.
abbrev pub Maybe : (Outcome → Type 0) → Option Outcome → Type 0
Maybe P none = Unit {0}
Maybe P (some o) = P o

fewer_lem :
    (n : ℕ) (loop : Message → List ℕ → Option Outcome) (r : Round)
    → FewerRound n r
    → ((m : Message) (buf : List ℕ) → Maybe (IsFewer (length buf)) (loop m buf))
    → Maybe (IsFewer n) (elim r [ go m buf ↦ loop m buf | done o ↦ some o ])
fewer_lem n loop (done o) h rest = h
fewer_lem n loop (go m buf) h rest = maybe_lem (loop m buf) (rest m buf)
  where
    maybe_lem : (o : Option Outcome) → Maybe (IsFewer (length buf)) o → Maybe (IsFewer n) o
    maybe_lem none h' = tt
    maybe_lem (some o) h' = IsFewer-weaken (length buf) n o h h'

header_loop-IsFewer :
    (fuel : ℕ) (m : Message) (buf : List ℕ) → Maybe (IsFewer (length buf)) (header_loop fuel m buf)
unfolding header_loop
header_loop-IsFewer zero m buf = tt
header_loop-IsFewer (suc fuel) m [] = omega arith
header_loop-IsFewer (suc fuel) m (c ∷ buf) =
    fewer_lem (length (c ∷ buf)) (header_loop fuel) (header_round m (c ∷ buf))
      (header_round-FewerRound m (c ∷ buf) (omega arith)) (header_loop-IsFewer fuel)

-- parse_header leaves at most the bytes it was given, and fewer when the header is complete.
pub parse_header-IsFewer :
    (m : Message) (buf : List ℕ) → Maybe (IsFewer (length buf)) (parse_header m buf)
unfolding parse_header
parse_header-IsFewer m buf = header_loop-IsFewer (suc (length buf)) m buf

chunk_data-LeftRound :
    (size : ℕ) (m : Message) (buf : List ℕ) → LeftRound (length buf) (chunk_data size m buf)
unfolding chunk_data
chunk_data-LeftRound size m buf =
    let P = LeftRound (length buf) in
    let part = length-drop size buf in
    let rest = length-drop 2 (drop size buf) in
    if-holds P _ _ (ltb size (length buf))
      (if-holds P _ _ (ltb (length buf) (size + 2)) (omega arith) (
        if-holds P _ _ (is_prefix crlf (drop size buf)) (omega (arith, part, rest))
          (omega (arith, part))))
      (omega arith)

LeftRound-weaken : (n k : ℕ) (r : Round) → n ≤ k → LeftRound n r → LeftRound k r
LeftRound-weaken n k (go m rest) h h' = omega arith
LeftRound-weaken n k (done o) h h' = IsLeft-weaken n k o h h'

sized-LeftRound :
    (m : Message) (size : ℤ) (buf : List ℕ) → LeftRound (length buf) (sized m size buf)
unfolding sized
sized-LeftRound m (negsuc n) buf = omega arith
sized-LeftRound m (pos zero) buf = omega arith
sized-LeftRound m (pos (suc n)) buf = chunk_data-LeftRound (suc n) m buf

size_line-LeftRound : (m : Message) (buf : List ℕ) → LeftRound (length buf) (size_line m buf)
unfolding size_line
size_line-LeftRound m buf =
    let P = LeftRound (length buf) in
    let same : length buf ≤ length buf = omega arith in
    Option-holds P (search_first crlf buf) _ _ same (λ line.
      if-holds P _ _ (ltb (length buf) (line + 4)) same (
        LeftRound-weaken _ (length buf) _ (omega (arith, length-drop (line + 2) buf))
          (sized-LeftRound _ (from_hex_str (take line buf)) (drop (line + 2) buf))))

close_chunks-IsLeft : (n : ℕ) (o : Outcome) → IsLeft n o → IsLeft n (close_chunks o)
close_chunks-IsLeft n overrun h = tt
close_chunks-IsLeft n (parsed code m rest) h =
    elim code as (λ code. IsLeft n (close_chunks (parsed code m rest))) [ ok ↦ h | _ ↦ h ]

abbrev MaybeRound : (Round → Type 0) → Option Round → Type 0
MaybeRound P none = Unit {0}
MaybeRound P (some r) = P r

trailer_lem :
    (n : ℕ) (o : Option Outcome)
    → Maybe (IsFewer n) o
    → MaybeRound (LeftRound n) (Option.map (λ o. done (close_chunks o)) o)
trailer_lem n none h = tt
trailer_lem n (some o) h = close_chunks-IsLeft n o (IsFewer-IsLeft n o h)

chunk_round-LeftRound :
    (m : Message) (buf : List ℕ) (size : ℤ)
    → MaybeRound (LeftRound (length buf)) (chunk_round m buf size)
unfolding chunk_round
chunk_round-LeftRound m buf (negsuc zero) = size_line-LeftRound m buf
chunk_round-LeftRound m buf (negsuc (suc n)) = omega arith
chunk_round-LeftRound m buf (pos zero) =
    trailer_lem (length buf) (parse_header m buf) (parse_header-IsFewer m buf)
chunk_round-LeftRound m buf (pos (suc n)) = chunk_data-LeftRound (suc n) m buf

left_lem :
    (n : ℕ) (loop : Message → List ℕ → Option Outcome) (r : Option Round)
    → MaybeRound (LeftRound n) r
    → ((m : Message) (buf : List ℕ) → Maybe (IsLeft (length buf)) (loop m buf))
    → Maybe
        (IsLeft n)
        (elim r [ none ↦ none | some (go m buf) ↦ loop m buf | some (done o) ↦ some o ])
left_lem n loop none h rest = tt
left_lem n loop (some (done o)) h rest = h
left_lem n loop (some (go m buf)) h rest = maybe_lem (loop m buf) (rest m buf)
  where
    maybe_lem : (o : Option Outcome) → Maybe (IsLeft (length buf)) o → Maybe (IsLeft n) o
    maybe_lem none h' = tt
    maybe_lem (some o) h' = IsLeft-weaken (length buf) n o h h'

chunk_loop-IsLeft :
    (fuel : ℕ) (m : Message) (buf : List ℕ) → Maybe (IsLeft (length buf)) (chunk_loop fuel m buf)
unfolding chunk_loop
chunk_loop-IsLeft zero m buf = tt
chunk_loop-IsLeft (suc fuel) m [] = omega arith
chunk_loop-IsLeft (suc fuel) m (c ∷ buf) =
    left_lem (length (c ∷ buf)) (chunk_loop fuel) (chunk_round m (c ∷ buf) m.chunk_size)
      (chunk_round-LeftRound m (c ∷ buf) m.chunk_size) (chunk_loop-IsLeft fuel)

-- parse_body leaves at most the bytes it was given.
pub parse_body-IsLeft :
    (m : Message) (buf : List ℕ) → Maybe (IsLeft (length buf)) (parse_body m buf)
unfolding parse_body by_chunked by_content_length
parse_body-IsLeft m buf =
    if-holds (Maybe (IsLeft (length buf))) _ _ m.chunked
      (chunk_loop-IsLeft (suc (length buf)) m buf)
      (if-holds (IsLeft (length buf)) _ _ (leb m.length_left (length buf))
        (omega (arith, length-drop m.length_left buf)) (omega arith))
