-- ===== src/Util.antt =====
-- The text helpers of include/angel/util.h, and `check_ip` of src/util.cc.
pub mod Split
pub mod Tests
use angel.Prelude.{
  ℕ, zero, suc, ◌+◌, ◌-◌, ◌*◌, ◌^◌, ◌≡◌, List, [], ◌∷◌, ◌++◌, Bool, true, false, not, Option, none,
  some, ◌&&◌, ◌||◌, length, take, drop, map, min, ltb, leb, ◌==◌, if◌then◌else◌,
}
use mathlib.Core.List.{reverse}
use mathlib.Core.Option
use angel.Buffer.Search.{lower, search_first}

-- `::isspace` and `::isdigit` in the C locale.
unfoldable pub is_space : ℕ → Bool
is_space c = c == b' ' || (leb 9 c && leb c 13)

unfoldable pub is_digit : ℕ → Bool
is_digit c = leb b'0' c && leb c b'9'

abbrev pub same : List ℕ → List ℕ → Bool
same [] [] = true
same [] (y ∷ ys) = false
same (x ∷ xs) [] = false
same (x ∷ xs) (y ∷ ys) = x == y && same xs ys

-- `strncasecmp` over two texts of one size; it stops where both have a zero byte.
unfoldable pub equal_case : List ℕ → List ℕ → Bool
unfolding lower
equal_case [] [] = true
equal_case [] (y ∷ ys) = false
equal_case (x ∷ xs) [] = false
equal_case (x ∷ xs) (y ∷ ys) =
    lower x == lower y && (if x == 0 then length xs == length ys else equal_case xs ys)

unfoldable pub all_digits : List ℕ → Bool
unfolding is_digit
all_digits [] = true
all_digits (c ∷ s) = is_digit c && all_digits s

unfoldable pub is_digits : List ℕ → Bool
unfolding all_digits
is_digits s = not (length s == 0) && all_digits s

unfoldable pub skip_spaces : List ℕ → List ℕ
unfolding is_space
skip_spaces [] = []
skip_spaces (c ∷ s) = if is_space c then skip_spaces s else c ∷ s

unfoldable pub trim : List ℕ → List ℕ
unfolding skip_spaces
trim s = reverse (skip_spaces (reverse (skip_spaces s)))

-- The fields between the separators; there is one more field than separators.
unfoldable pub split_from : ℕ → List ℕ → List ℕ → List (List ℕ)
split_from c field [] = field ∷ []
split_from c field (x ∷ s) =
    let rest = split_from c [] s in
    let longer = split_from c (field ++ x ∷ []) s in if x == c then field ∷ rest else longer

unfoldable pub split : List ℕ → ℕ → List (List ℕ)
unfolding split_from
split s c = split_from c [] s

-- The digits read by `from_chars`, all of the text.
unfoldable pub decimal : ℕ → List ℕ → Option ℕ
unfolding is_digit
decimal acc [] = some acc
decimal acc (c ∷ s) =
    let rest = decimal (acc * 10 + (c - b'0')) s in if is_digit c then rest else none

-- A sign and a size, in the range of `int`.
pub record Integer : Type 0 where
  pub negative : Bool
  pub size : ℕ

unfoldable pub in_range : Bool → Option ℕ → Option Integer
in_range negative none = none
in_range negative (some n) =
    if ltb n (if negative then 2 ^ 31 + 1 else 2 ^ 31)
    then some (record { negative = negative; size = n })
    else none

unfoldable pub svtoi : List ℕ → Option Integer
unfolding decimal in_range
svtoi [] = none
svtoi (c ∷ []) = if c == b'-' then none else in_range false (decimal 0 (c ∷ []))
svtoi (c ∷ d ∷ s) =
    if c == b'-' then in_range true (decimal 0 (d ∷ s)) else in_range false (decimal 0 (c ∷ d ∷ s))

-- `svtoi(s).value_or(256) > 255`
unfoldable pub above_byte : Option Integer → Bool
above_byte none = true
above_byte (some n) = if n.negative then false else ltb 255 n.size

abbrev pub leading_zero : List ℕ → Bool
leading_zero [] = false
leading_zero (c ∷ []) = false
leading_zero (c ∷ d ∷ s) = c == b'0'

unfoldable pub bad_field : List ℕ → Bool
unfolding is_digits svtoi above_byte
bad_field s = length s == 0 || not (is_digits s) || leading_zero s || above_byte (svtoi s)

abbrev pub any_bad : List (List ℕ) → Bool
any_bad [] = false
any_bad (s ∷ fields) = bad_field s || any_bad fields

unfoldable pub check_ip : List ℕ → Bool
unfolding bad_field split
check_ip addr = let fields = split addr b'.' in length fields == 4 && not (any_bad fields)

-- `::toupper` in the C locale.
unfoldable pub upper : ℕ → ℕ
upper c = if leb b'a' c && leb c b'z' then c - 32 else c

unfoldable pub to_lower : List ℕ → List ℕ
unfolding lower
to_lower s = map lower s

unfoldable pub to_upper : List ℕ → List ℕ
unfolding upper
to_upper s = map upper s

unfoldable pub starts_with : List ℕ → List ℕ → Bool
starts_with s prefix = leb (length prefix) (length s) && same (take (length prefix) s) prefix

unfoldable pub starts_with_case : List ℕ → List ℕ → Bool
unfolding equal_case
starts_with_case s prefix =
    leb (length prefix) (length s) && equal_case (take (length prefix) s) prefix

unfoldable pub ends_with : List ℕ → List ℕ → Bool
ends_with s suffix =
    leb (length suffix) (length s) && same (drop (length s - length suffix) s) suffix

unfoldable pub ends_with_case : List ℕ → List ℕ → Bool
unfolding equal_case
ends_with_case s suffix =
    leb (length suffix) (length s) && equal_case (drop (length s - length suffix) s) suffix

-- `none` is the null pointer.
unfoldable pub search : List ℕ → List ℕ → Option ℕ
unfolding search_first
search s pattern = search_first pattern s

unfoldable pub join : List ℕ → List (List ℕ) → List ℕ
join delimiter [] = []
join delimiter (x ∷ []) = x
join delimiter (x ∷ y ∷ c) = x ++ (delimiter ++ join delimiter (y ∷ c))

unfoldable pub catviews : List (List ℕ) → List ℕ
catviews [] = []
catviews (s ∷ views) = s ++ catviews views

unfoldable pub concat : List ℕ → List (List ℕ) → List ℕ
unfolding catviews
concat s args = catviews (s ∷ args)

-- The answer of the kernel to `read` or `write`.
pub data Answer : Type 0 where
  interrupted : Answer
  broken : Answer
  moved : List ℕ → Answer

-- The bytes read; `none` is -1, or that the kernel has not answered yet. A `read` delivers no more
-- than was asked for, and nothing at the end of the file.
unfoldable pub read_file : ℕ → List Answer → Option (List ℕ)
read_file zero answers = some []
read_file (suc len) [] = none
read_file (suc len) (interrupted ∷ answers) = read_file (suc len) answers
read_file (suc len) (broken ∷ answers) = none
read_file (suc len) (moved [] ∷ answers) = some []
read_file (suc len) (moved (x ∷ s) ∷ answers) =
    let got = x ∷ take len s in
    Option.map (λ rest. got ++ rest) (read_file (suc len - length got) answers)
