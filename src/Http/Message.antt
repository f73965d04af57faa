-- ===== src/Http/Message.antt =====
-- `message` of include/angel/httplib.h and src/httplib/httplib.cc. A buffer is its unread bytes:
-- `retrieve(n)` drops n of them. A view that would end before it begins is `overrun`.
pub mod Ends
pub mod Sizes
pub mod Pieces
pub mod Lines
pub mod Chunks
use angel.Prelude.{
  ℕ, zero, suc, ◌+◌, ◌-◌, ◌≡◌, List, [], ◌∷◌, ◌++◌, Bool, true, false, not, ◌&&◌, ◌||◌, Option,
  none, some, codes, leb, ltb, ◌==◌, length, take, drop, if◌then◌else◌,
}
use angel.Buffer.Search.{crlf, is_prefix, search_first}
use angel.Util.{same, to_lower, equal_case, trim}
use angel.Http.Integers.{ℤ, pos, negsuc, minus_one, svtoll, from_hex_str}
use angel.Http.Status.{StatusCode, ok, continue, bad_request}
use mathlib.Core.Option

abbrev pub Headers : Type 0
Headers = List (List ℕ × List ℕ)

-- Keys are equal regardless of case; they are looked up by the hash of the key in lower case.
unfoldable pub same_key : List ℕ → List ℕ → Bool
unfolding to_lower equal_case
same_key k1 k2 = same (to_lower k1) (to_lower k2) && equal_case k1 k2

unfoldable pub find : List ℕ → Headers → Option (List ℕ)
unfolding same_key
find field [] = none
find field ((k, v) ∷ headers) =
    let rest = find field headers in if same_key k field then some v else rest

abbrev pub is_some {ℓ} : {A : Type ℓ} → Option A → Bool
is_some none = false
is_some (some a) = true

-- A field that is there keeps its value.
unfoldable pub emplace : List ℕ → List ℕ → Headers → Headers
unfolding find
emplace field value headers =
    if is_some (find field headers) then headers else headers ++ (field, value) ∷ []

pub record Message : Type 0 where
  pub headers : Headers
  pub body : List ℕ
  pub length_left : ℕ
  pub chunked : Bool
  pub chunk_size : ℤ

pub data Outcome : Type 0 where
  parsed : StatusCode → Message → List ℕ → Outcome
  overrun : Outcome

-- A round of a parsing loop goes on or ends it.
pub data Round : Type 0 where
  go : Message → List ℕ → Round
  done : Outcome → Round

-- A field with an empty value is ignored.
unfoldable pub add_field : Message → List ℕ → List ℕ → Message
unfolding emplace
add_field m field [] = m
add_field m field (c ∷ value) = record m { headers = emplace field (c ∷ value) m.headers }

-- The ':' is sought in all unread bytes; behind the end of the line the value's size would be
-- negative.
unfoldable pub header_line : Message → List ℕ → ℕ → Round
unfolding add_field trim search_first
header_line m buf line = elim (search_first (b':' ∷ []) buf) [
  | none ↦ done (parsed bad_request m buf)
  | some colon ↦
      if ltb line colon
      then done overrun
      else go (add_field m (take colon buf) (trim (take (line - colon - 1) (drop (colon + 1) buf))))
          (drop (line + 2) buf)
]

unfoldable pub header_round : Message → List ℕ → Round
header_round m buf = elim (search_first crlf buf) [
  | none ↦ done (parsed continue m buf)
  | some line ↦ if line == 0 then done (parsed ok m (drop 2 buf)) else header_line m buf line
]

-- On fuel; `none` is that it is spent.
unfoldable pub header_loop : ℕ → Message → List ℕ → Option Outcome
header_loop zero m buf = none
header_loop (suc fuel) m [] = some (parsed continue m [])
header_loop (suc fuel) m (c ∷ buf) = elim (header_round m (c ∷ buf)) [
  | go m' buf' ↦ header_loop fuel m' buf'
  | done o ↦ some o
]

unfoldable pub parse_header : Message → List ℕ → Option Outcome
parse_header m buf = header_loop (suc (length buf)) m buf

-- With `Content-Length`, none of the negative numbers.
unfoldable pub content_length : Message → Option ℤ → StatusCode × Message
content_length m none = (bad_request, m)
content_length m (some (negsuc n)) = (bad_request, m)
content_length m (some (pos n)) = (if n == 0 then continue else ok, record m { length_left = n })

unfoldable pub parse_length : Message → StatusCode × Message
unfolding find content_length svtoll
parse_length m = elim (find (codes "Content-Length") m.headers) [
  | none ↦ (continue, m)
  | some value ↦ content_length m (svtoll value)
]

unfoldable pub parse_body_length : Message → StatusCode × Message
unfolding find parse_length
parse_body_length m = elim (find (codes "Transfer-Encoding") m.headers) [
  | none ↦ parse_length m
  | some value ↦
      if same value (codes "chunked") then (ok, record m { chunked = true }) else parse_length m
]

unfoldable pub by_content_length : Message → List ℕ → Outcome
by_content_length m buf =
    if leb m.length_left (length buf)
    then parsed ok (record m { body = m.body ++ take m.length_left buf }) (drop m.length_left buf)
    else parsed continue
        (record m { body = m.body ++ buf; length_left = m.length_left - length buf }) []

-- The bytes of a chunk and the CRLF behind them.
unfoldable pub chunk_data : ℕ → Message → List ℕ → Round
unfolding is_prefix
chunk_data size m buf =
    let m' = record m { body = m.body ++ take size buf } in
    if ltb size (length buf)
    then if ltb (length buf) (size + 2)
      then done (parsed continue m buf)
      else if is_prefix crlf (drop size buf)
      then go (record m' { chunk_size = minus_one }) (drop 2 (drop size buf))
      else done (parsed bad_request m' (drop size buf))
    else done (
        parsed continue (record m { body = m.body ++ buf; chunk_size = pos (size - length buf) })
          [])

-- Behind the line of the chunk's size.
unfoldable pub sized : Message → ℤ → List ℕ → Round
sized m (negsuc n) buf = done (parsed bad_request m buf)
sized m (pos zero) buf = go m buf
sized m (pos (suc n)) buf = chunk_data (suc n) m buf

unfoldable pub size_line : Message → List ℕ → Round
size_line m buf = elim (search_first crlf buf) [
  | none ↦ done (parsed continue m buf)
  | some line ↦
      let size = from_hex_str (take line buf) in
      if ltb (length buf) (line + 4)
      then done (parsed continue m buf)
      else sized (record m { chunk_size = size }) size (drop (line + 2) buf)
]

abbrev pub close_chunks : Outcome → Outcome
close_chunks (parsed ok m buf) =
    parsed ok (record m { chunk_size = minus_one; chunked = false }) buf
close_chunks o = o

-- A negative size other than -1 stays behind an error; as an unsigned number it is above every
-- number of bytes.
unfoldable pub chunk_round : Message → List ℕ → ℤ → Option Round
chunk_round m buf (negsuc zero) = some (size_line m buf)
chunk_round m buf (negsuc (suc n)) = some (
    done (
      parsed continue (record m { body = m.body ++ buf; chunk_size = negsuc (suc n + length buf) })
        []))
chunk_round m buf (pos zero) = Option.map (λ o. done (close_chunks o)) (parse_header m buf)
chunk_round m buf (pos (suc n)) = some (chunk_data (suc n) m buf)

unfoldable pub chunk_loop : ℕ → Message → List ℕ → Option Outcome
chunk_loop zero m buf = none
chunk_loop (suc fuel) m [] = some (parsed continue m [])
chunk_loop (suc fuel) m (c ∷ buf) = elim (chunk_round m (c ∷ buf) m.chunk_size) [
  | none ↦ none
  | some (go m' buf') ↦ chunk_loop fuel m' buf'
  | some (done o) ↦ some o
]

unfoldable pub by_chunked : Message → List ℕ → Option Outcome
by_chunked m buf = chunk_loop (suc (length buf)) m buf

unfoldable pub parse_body : Message → List ℕ → Option Outcome
parse_body m buf = if m.chunked then by_chunked m buf else some (by_content_length m buf)

unfoldable pub clear : Message → Message
clear m = record m { headers = []; body = [] }
