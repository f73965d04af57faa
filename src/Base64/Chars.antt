-- ===== src/Base64/Chars.antt =====
-- src/base64.cc: the tables against one another, and the six-bit groups as arithmetic.
use angel.Prelude.{
  ℕ, ◌+◌, ◌*◌, ◌/◌, ◌%◌, ◌<◌, ◌≡◌, refl, ap, ◌∙◌, true, false, arith, bit_and, bit_or,
  bit_or-shifted, bit_and-ones, every_below, every_below_lem, set, ◌==◌, ==_iff,
}
use angel.Base64.{Encode, standard, mime, url_safe, alphabet, map_char, Decoder, feed, accept}

-- The decoding table undoes the alphabet, also at 0.
pub map_char-alphabet : (code : Encode) (q : ℕ) → q < 64 → map_char code (alphabet code q) ≡ q
map_char-alphabet standard q h = (==_iff _ q).0 (every_below_lem _ 64 q h table)
  where
    table : every_below (λ q. map_char standard (alphabet standard q) == q) 64 ≡ true
    table = unfold every_below map_char alphabet in refl
map_char-alphabet mime q h = (==_iff _ q).0 (every_below_lem _ 64 q h table)
  where
    table : every_below (λ q. map_char mime (alphabet mime q) == q) 64 ≡ true
    table = unfold every_below map_char alphabet in refl
map_char-alphabet url_safe q h = (==_iff _ q).0 (every_below_lem _ 64 q h table)
  where
    table : every_below (λ q. map_char url_safe (alphabet url_safe q) == q) 64 ≡ true
    table = unfold every_below map_char alphabet in refl

-- A character of the alphabet other than the first is taken.
pub feed-alphabet :
    (code : Encode) (d : Decoder) (q : ℕ)
    → 0 < q
    → q < 64
    → feed code d (alphabet code q) ≡ accept (record d { c = set d.c d.j q })
unfolding feed
feed-alphabet code d q pos h = let e = map_char-alphabet code q h in rw (e, ne q pos)
  where
    ne : (q : ℕ) → 0 < q → (q == 0) ≡ false
    ne q pos = ground arith

-- What the padding and the line breaks map to.
pub map_char-special :
    (code : Encode) → (map_char code b'=' ≡ 0) × (map_char code 13 ≡ 0) × (map_char code 10 ≡ 0)
unfolding map_char
map_char-special standard = (refl, refl, refl)
map_char-special mime = (refl, refl, refl)
map_char-special url_safe = (refl, refl, refl)

-- The four groups of six bits of three bytes.
abbrev pub sextet0 : ℕ → ℕ
sextet0 a = a / 4

abbrev pub sextet1 : ℕ → ℕ → ℕ
sextet1 a b = a % 4 * 16 + b / 16

abbrev pub sextet2 : ℕ → ℕ → ℕ
sextet2 b c = b % 16 * 4 + c / 64

abbrev pub sextet3 : ℕ → ℕ
sextet3 c = c % 64

pub sextet1_bits : (a b : ℕ) → b < 256 → bit_or (bit_and a 0x03 * 16) (b / 16) ≡ sextet1 a b
sextet1_bits a b h =
    bit_or-shifted 4 (bit_and a 3) (b / 16) (omega arith)
    ∙ ap (λ t. t * 16 + b / 16) (bit_and-ones 2 a)

pub sextet2_bits : (b c : ℕ) → c < 256 → bit_or (bit_and b 0x0f * 4) (c / 64) ≡ sextet2 b c
sextet2_bits b c h =
    bit_or-shifted 2 (bit_and b 15) (c / 64) (omega arith)
    ∙ ap (λ t. t * 4 + c / 64) (bit_and-ones 4 b)

pub last1_bits : (a : ℕ) → bit_and a 0x03 * 16 ≡ sextet1 a 0
last1_bits a = omega (arith, bit_and-ones 2 a)

pub last2_bits : (b : ℕ) → bit_and b 0x0f * 4 ≡ sextet2 b 0
last2_bits b = omega (arith, bit_and-ones 4 b)

-- The bytes put together again from their groups.
pub byte0 : (a b : ℕ) → a < 256 → b < 256 → bit_or (sextet0 a * 4) (sextet1 a b / 16) % 256 ≡ a
byte0 a b p q = omega (arith, bit_or-shifted 2 (sextet0 a) (sextet1 a b / 16) (omega arith))

pub byte1 :
    (a b c : ℕ)
    → a < 256
    → b < 256
    → c < 256
    → bit_or (sextet1 a b * 16) (sextet2 b c / 4) % 256 ≡ b
byte1 a b c p q r = omega (arith, bit_or-shifted 4 (sextet1 a b) (sextet2 b c / 4) (omega arith))

pub byte2 : (b c : ℕ) → b < 256 → c < 256 → bit_or (sextet2 b c * 64) (sextet3 c) % 256 ≡ c
byte2 b c p q = omega (arith, bit_or-shifted 6 (sextet2 b c) (sextet3 c) (omega arith))
