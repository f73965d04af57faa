-- ===== src/Mime/Qp.antt =====
-- Quoted-printable: src/mime/qp.cc.
pub mod Pieces
pub mod RoundTrip
pub mod Columns
pub mod Lines
pub mod Tests
use angel.Prelude.{
  ℕ, zero, suc, ◌+◌, ◌-◌, ◌*◌, ◌/◌, ◌%◌, ◌≡◌, List, [], ◌∷◌, ◌++◌, Bool, true, false, not, ◌&&◌,
  ◌||◌, Option, none, some, leb, ltb, ◌==◌, if◌then◌else◌,
}
use angel.Mime.{to_hex_pair, from_hex_pair, is_hex_number}

abbrev pub max_line_limit : ℕ
max_line_limit = 76

abbrev pub soft_break : List ℕ
soft_break = b'=' ∷ 13 ∷ 10 ∷ []

unfoldable pub is_qp_char : ℕ → Bool
is_qp_char c = (leb 33 c && leb c 60) || (leb 62 c && leb c 126) || c == b' ' || c == 9

-- The first two branches of a round: what is appended for the byte, and the new count.
unfoldable pub place : ℕ → ℕ → Option (List ℕ × ℕ)
unfolding is_qp_char to_hex_pair
place count c =
    if leb (count + 1) (max_line_limit - 1) && is_qp_char c
    then some (c ∷ [], count + 1)
    else if leb (count + 3) (max_line_limit - 1)
    then some (to_hex_pair b'=' c, count + 3)
    else none

abbrev pub behind : List ℕ → Option (List ℕ × ℕ) → List ℕ × ℕ
behind before none = (before, 0)
behind before (some (s, count)) = (before ++ s, count)

-- The rounds for one byte. The third branch breaks the line and takes the byte back (`i--`), so
-- that the next round is for the same byte, with the count 0.
unfoldable pub rounds : ℕ → ℕ → List ℕ × ℕ
unfolding place
rounds count c = elim (place count c) [ some r ↦ r | none ↦ behind soft_break (place 0 c) ]

-- What the loop appends from a count on, and the count behind it.
unfoldable pub encode_from : ℕ → List ℕ → List ℕ × ℕ
unfolding rounds
encode_from count [] = ([], count)
encode_from count (c ∷ text) =
    let r = rounds count c in let rest = encode_from r.1 text in (r.0 ++ rest.0, rest.1)

abbrev pub back : List ℕ → ℕ
back [] = 0
back (c ∷ []) = c
back (c ∷ d ∷ s) = back (d ∷ s)

abbrev pub pop_back : List ℕ → List ℕ
pop_back [] = []
pop_back (c ∷ []) = []
pop_back (c ∷ d ∷ s) = c ∷ pop_back (d ∷ s)

-- A space or a tab at the end is written as a pair.
unfoldable pub close_line : List ℕ × ℕ → List ℕ
unfolding to_hex_pair
close_line (res, count) =
    let c = back res in
    if c == b' ' || c == 9
    then pop_back res
      ++ ((if ltb max_line_limit (count - 1 + 3) then soft_break else []) ++ to_hex_pair b'=' c)
    else res

unfoldable pub encode : List ℕ → List ℕ
unfolding encode_from close_line
encode [] = []
encode (c ∷ text) = close_line (encode_from 0 (c ∷ text))

-- What `=`, a byte that is a digit or CR, and one more byte add.
unfoldable pub escaped : ℕ → ℕ → List ℕ
unfolding is_hex_number from_hex_pair
escaped c1 c2 =
    if is_hex_number c1
    then if is_hex_number c2 then from_hex_pair c1 c2 ∷ [] else b'=' ∷ c1 ∷ []
    else if c2 == 10
    then []
    else b'=' ∷ c1 ∷ []

unfoldable pub decode : List ℕ → List ℕ
unfolding is_hex_number escaped
decode [] = []
decode (c ∷ []) = if c == b'=' then [] else c ∷ []
decode (c ∷ c1 ∷ []) =
    let plain = c ∷ decode (c1 ∷ []) in if not (c == b'=') then plain else b'=' ∷ c1 ∷ []
decode (c ∷ c1 ∷ c2 ∷ text) =
    let plain = c ∷ decode (c1 ∷ c2 ∷ text) in
    let illegal = b'=' ∷ c1 ∷ decode (c2 ∷ text) in
    let legal = escaped c1 c2 ++ decode text in
    if not (c == b'=')
    then plain
    else if not (is_hex_number c1) && not (c1 == 13)
    then illegal
    else legal
