-- ===== src/Base64.antt =====
-- The Base64 codec: src/base64.cc.
pub mod Chars
pub mod RoundTrip
pub mod Skipped
pub mod Tests
use angel.Prelude.{
  ℕ, zero, suc, ◌+◌, ◌-◌, ◌*◌, ◌/◌, ◌%◌, ◌≡◌, List, [], ◌∷◌, ◌++◌, Bool, true, false, ◌&&◌, not,
  bit_and, bit_or, length, get_or, set, replicate, codes, ltb, ◌==◌, if◌then◌else◌,
}

pub data Encode : Type 0 where
  standard mime url_safe : Encode

abbrev pub standard_alphabet : List ℕ
standard_alphabet = codes "ABCDEFGHIJKLMNOPQRSTUVWXYZabcdefghijklmnopqrstuvwxyz0123456789+/"

abbrev pub url_safe_alphabet : List ℕ
url_safe_alphabet = codes "ABCDEFGHIJKLMNOPQRSTUVWXYZabcdefghijklmnopqrstuvwxyz0123456789-_"

abbrev pub max_line_limit : ℕ
max_line_limit = 76

abbrev pub crlf : List ℕ
crlf = 13 ∷ 10 ∷ []

unfoldable pub alphabet : Encode → ℕ → ℕ
alphabet url_safe i = get_or url_safe_alphabet i 0
alphabet standard i = get_or standard_alphabet i 0
alphabet mime i = get_or standard_alphabet i 0

-- The line break that follows a group, and the counter of characters on the line.
unfoldable pub line_break : Encode → ℕ → List ℕ × ℕ
line_break mime j = if j + 4 == max_line_limit then (crlf, 0) else ([], j + 4)
line_break standard j = ([], j)
line_break url_safe j = ([], j)

-- The loop over the groups of three bytes, and the switch on what is left of them.
unfoldable pub encode_from : Encode → ℕ → List ℕ → List ℕ
encode_from code j [] = []
encode_from code j (a ∷ []) =
    alphabet code (a / 4) ∷ alphabet code (bit_and a 0x03 * 16) ∷ b'=' ∷ b'=' ∷ []
encode_from code j (a ∷ b ∷ []) =
    alphabet code (a / 4)
    ∷ alphabet code (bit_or (bit_and a 0x03 * 16) (b / 16))
    ∷ alphabet code (bit_and b 0x0f * 4)
    ∷ b'='
    ∷ []
encode_from code j (a ∷ b ∷ c ∷ rest) =
    alphabet code (a / 4)
      ∷ alphabet code (bit_or (bit_and a 0x03 * 16) (b / 16))
      ∷ alphabet code (bit_or (bit_and b 0x0f * 4) (c / 64))
      ∷ alphabet code (bit_and c 0x3f)
      ∷ (line_break code j).0
    ++ encode_from code (line_break code j).1 rest

unfoldable pub encode : Encode → List ℕ → List ℕ
unfolding encode_from
encode code text = encode_from code 0 text

-- The entries of the two tables for the bytes 64 to 127, but for those of '_'.
abbrev letters : ℕ → List ℕ
letters underscore =
    0 ∷ 0 ∷ 1 ∷ 2 ∷ 3 ∷ 4 ∷ 5 ∷ 6 ∷ 7 ∷ 8 ∷ 9 ∷ 10 ∷ 11 ∷ 12 ∷ 13 ∷ 14 ∷ 15 ∷ 16 ∷ 17 ∷ 18 ∷ 19 ∷ 20
    ∷ 21 ∷ 22 ∷ 23 ∷ 24 ∷ 25 ∷ 0 ∷ 0 ∷ 0 ∷ 0 ∷ underscore ∷ 0 ∷ 26 ∷ 27 ∷ 28 ∷ 29 ∷ 30 ∷ 31 ∷ 32
    ∷ 33 ∷ 34 ∷ 35 ∷ 36 ∷ 37 ∷ 38 ∷ 39 ∷ 40 ∷ 41 ∷ 42 ∷ 43 ∷ 44 ∷ 45 ∷ 46 ∷ 47 ∷ 48 ∷ 49 ∷ 50 ∷ 51
    ∷ 0 ∷ 0 ∷ 0 ∷ 0 ∷ 0 ∷ []

abbrev digits : List ℕ
digits = 52 ∷ 53 ∷ 54 ∷ 55 ∷ 56 ∷ 57 ∷ 58 ∷ 59 ∷ 60 ∷ 61 ∷ 0 ∷ 0 ∷ 0 ∷ 0 ∷ 0 ∷ 0 ∷ []

abbrev pub standard_mapchars : List ℕ
standard_mapchars =
    replicate 40 0 ++ 0 ∷ 0 ∷ 0 ∷ 62 ∷ 0 ∷ 0 ∷ 0 ∷ 63 ∷ digits ++ letters 0 ++ replicate 128 0

abbrev pub url_safe_mapchars : List ℕ
url_safe_mapchars =
    replicate 40 0 ++ 0 ∷ 0 ∷ 0 ∷ 0 ∷ 0 ∷ 62 ∷ 0 ∷ 0 ∷ digits ++ letters 63 ++ replicate 128 0

unfoldable pub map_char : Encode → ℕ → ℕ
map_char url_safe c = get_or url_safe_mapchars c 0
map_char standard c = get_or standard_mapchars c 0
map_char mime c = get_or standard_mapchars c 0

-- Stands in the array `c` for '='.
abbrev pub eq : ℕ
eq = 128

-- The array `c`, how much of it is filled, and the bytes decoded so far.
pub record Decoder : Type 0 where
  pub c : List ℕ
  pub j : ℕ
  pub res : List ℕ

pub data Outcome : Type 0 where
  more : Decoder → Outcome
  finish : List ℕ → Outcome

abbrev pub cell : Decoder → ℕ → ℕ
cell d i = get_or d.c i 0

-- A full group: one, two or three bytes.
unfoldable pub emit : Decoder → Outcome
emit d =
    let r0 = bit_or (cell d 0 * 4) (cell d 1 / 16) % 256 in
    let r1 = bit_or (cell d 1 * 16) (cell d 2 / 4) % 256 in
    let r2 = bit_or (cell d 2 * 64) (cell d 3) % 256 in
    if cell d 2 == eq
    then finish (d.res ++ r0 ∷ [])
    else if cell d 3 == eq
    then finish (d.res ++ r0 ∷ r1 ∷ [])
    else more (record d { j = 0; res = d.res ++ r0 ∷ r1 ∷ r2 ∷ [] })

-- `++j` and the tests behind it, once a character is in `c[j]`.
unfoldable pub accept : Decoder → Outcome
unfolding emit
accept d =
    if ltb (d.j + 1) 4
    then more (record d { j = d.j + 1 })
    else if cell d 2 == eq && not (cell d 3 == eq)
    then more (record d { c = set d.c 2 (cell d 3) })
    else emit d

-- One round of the decoding loop.
unfoldable pub feed : Encode → Decoder → ℕ → Outcome
unfolding accept map_char
feed code d ch =
    let mapped : Decoder = record d { c = set d.c d.j (map_char code ch) } in
    if map_char code ch == 0
    then if ch == b'='
      then if ltb d.j 2 then more mapped else accept (record d { c = set mapped.c d.j eq })
      else more mapped
    else accept mapped

unfoldable pub decode_from : Encode → Decoder → List ℕ → List ℕ
decode_from code d [] = if d.j == 0 then d.res else []
decode_from code d (ch ∷ s) = elim (feed code d ch) [
  | more d' ↦ decode_from code d' s
  | finish res ↦ res
]

-- The array is not initialised; each cell is written before it is read.
abbrev pub start : Decoder
start = record { c = 0 ∷ 0 ∷ 0 ∷ 0 ∷ []; j = 0; res = [] }

unfoldable pub decode : Encode → List ℕ → List ℕ
unfolding decode_from
decode code text = if ltb (length text) 4 then [] else decode_from code start text
