-- ===== src/Mime/Hex.antt =====
-- include/angel/mime.h: what the two digits of a byte in base 16 are read as.
use angel.Prelude.{
  ℕ, ◌/◌, ◌%◌, ◌<◌, ◌≡◌, refl, [], ◌∷◌, Bool, true, ◌&&◌, ◌==◌, every_below, every_below_lem, arith,
}
use angel.Mime.{hex_digit, to_hex_pair, to_hex_value, from_hex_pair, is_hex_number}

abbrev pub high : ℕ → ℕ
high c = hex_digit (c / 16)

abbrev pub low : ℕ → ℕ
low c = hex_digit (c % 16)

pub to_hex_pair_digits : (mark c : ℕ) → to_hex_pair mark c ≡ mark ∷ high c ∷ low c ∷ []
unfolding to_hex_pair
to_hex_pair_digits mark c = refl

pair_test : ℕ → Bool
pair_test c = is_hex_number (high c) && is_hex_number (low c) && from_hex_pair (high c) (low c) == c

pair_table : every_below pair_test 256 ≡ true
unfolding every_below pair_test is_hex_number from_hex_pair to_hex_value hex_digit
pair_table = refl

-- The two digits of a byte are digits, and are read back as the byte.
pub pair_lem :
    (c : ℕ)
    → c < 256
    → (is_hex_number (high c) ≡ true)
      × (is_hex_number (low c) ≡ true)
      × (from_hex_pair (high c) (low c) ≡ c)
unfolding pair_test
pair_lem c small = let all = every_below_lem pair_test 256 c small pair_table in ground (arith, all)
