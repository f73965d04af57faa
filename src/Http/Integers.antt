-- ===== src/Http/Integers.antt =====
-- Signed integers as texts: `svtoll` of include/angel/util.h, and C's `strtoll` and `%zx`, which
-- src/httplib/httplib.cc uses.
pub mod Hex
use angel.Prelude.{
  ℕ, zero, suc, ◌+◌, ◌-◌, ◌*◌, ◌/◌, ◌%◌, ◌^◌, ◌≡◌, List, [], ◌∷◌, ◌++◌, Bool, true, false, not,
  ◌&&◌, ◌||◌, Option, none, some, length, get_or, codes, min, leb, ltb, ◌==◌, if◌then◌else◌,
}
use angel.Mime.{to_hex_value, is_hex_number}
use angel.Util.{decimal, skip_spaces}

pub data ℤ : Type 0 where
  pos : ℕ → ℤ
  negsuc : ℕ → ℤ

abbrev pub minus : ℕ → ℤ
minus zero = pos 0
minus (suc n) = negsuc n

abbrev pub minus_one : ℤ
minus_one = negsuc 0

-- In the range of 64 bits.
unfoldable pub in_range64 : Bool → Option ℕ → Option ℤ
in_range64 negative none = none
in_range64 negative (some n) =
    if ltb n (if negative then 2 ^ 63 + 1 else 2 ^ 63)
    then some (if negative then minus n else pos n)
    else none

unfoldable pub svtoll : List ℕ → Option ℤ
unfolding decimal in_range64
svtoll [] = none
svtoll (c ∷ []) = if c == b'-' then none else in_range64 false (decimal 0 (c ∷ []))
svtoll (c ∷ d ∷ s) =
    if c == b'-'
    then in_range64 true (decimal 0 (d ∷ s))
    else in_range64 false (decimal 0 (c ∷ d ∷ s))

-- The digits in base 16 at the front, as a number, and the rest.
unfoldable pub hex_digits : ℕ → List ℕ → ℕ × List ℕ
unfolding is_hex_number to_hex_value
hex_digits acc [] = (acc, [])
hex_digits acc (c ∷ s) =
    let rest = hex_digits (acc * 16 + to_hex_value c) s in
    if is_hex_number c then rest else (acc, c ∷ s)

abbrev pub starts_hex : List ℕ → Bool
starts_hex [] = false
starts_hex (c ∷ s) = is_hex_number c

-- Behind the sign: an optional 0x, if a digit follows it. `none` is no number.
unfoldable pub magnitude : List ℕ → Option (ℕ × List ℕ)
unfolding hex_digits is_hex_number
magnitude [] = none
magnitude (c ∷ []) = if is_hex_number c then some (hex_digits 0 (c ∷ [])) else none
magnitude (c ∷ d ∷ s) =
    if c == b'0' && (d == b'x' || d == b'X') && starts_hex s
    then some (hex_digits 0 s)
    else if is_hex_number c
    then some (hex_digits 0 (c ∷ d ∷ s))
    else none

-- A value out of range is the nearest one in it.
abbrev pub signed : Bool → Option (ℕ × List ℕ) → Option (ℤ × List ℕ)
signed negative none = none
signed false (some (n, s)) = some (pos (min n (2 ^ 63 - 1)), s)
signed true (some (n, s)) = some (minus (min n (2 ^ 63)), s)

unfoldable pub signed_text : List ℕ → Option (ℤ × List ℕ)
unfolding magnitude
signed_text [] = none
signed_text (c ∷ s) =
    if c == b'-'
    then signed true (magnitude s)
    else if c == b'+'
    then signed false (magnitude s)
    else signed false (magnitude (c ∷ s))

-- `strtoll(s, &end, 16)`: the value and what is behind `end`; without a number it is 0, and `end`
-- is the begin of the text.
unfoldable pub strtoll16 : List ℕ → ℤ × List ℕ
unfolding skip_spaces signed_text
strtoll16 s = elim (signed_text (skip_spaces s)) [ none ↦ (pos 0, s) | some r ↦ r ]

-- A text that is not a number to its end is -1.
unfoldable pub from_hex_str : List ℕ → ℤ
unfolding strtoll16
from_hex_str s = let r = strtoll16 s in if length (r.1) == 0 then r.0 else minus_one

-- `%zx`, the digits in base 16 from the first that is not 0; 16 digits are a size.
unfoldable pub small_digit : ℕ → ℕ
small_digit d = get_or (codes "0123456789abcdef") d 0

unfoldable pub hex_text : ℕ → ℕ → List ℕ
unfolding small_digit
hex_text zero n = []
hex_text (suc digits) n =
    (if n / 16 == 0 then [] else hex_text digits (n / 16)) ++ small_digit (n % 16) ∷ []
