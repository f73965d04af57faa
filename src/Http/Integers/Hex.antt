-- ===== src/Http/Integers/Hex.antt =====
-- `strtoll` of what `%zx` prints, for src/httplib/httplib.cc.
use angel.Prelude.{
  ℕ, zero, suc, ◌+◌, ◌-◌, ◌*◌, ◌/◌, ◌%◌, ◌^◌, ◌<◌, ◌≡◌, refl, ap, sym, subst, ◌∙◌, List, [], ◌∷◌,
  ◌++◌, append_assoc, append-nil, Bool, true, false, ◌&&◌, ◌||◌, some, min, ◌==◌, Bool-cases, inl,
  inr, every_below, every_below_lem, arith,
}
use native.Mathlib.Nat.{pow-suc}
use angel.Connection.Stream.{if-holds}
use angel.Mime.{is_hex_number, to_hex_value}
use angel.Util.{is_space, skip_spaces}
use angel.Http.Integers.{
  pos, small_digit, hex_text, hex_digits, magnitude, signed_text, strtoll16, from_hex_str,
  starts_hex,
}

digit_test : ℕ → Bool
digit_test d = is_hex_number (small_digit d) && to_hex_value (small_digit d) == d

digit_table : every_below digit_test 16 ≡ true
unfolding every_below digit_test is_hex_number to_hex_value small_digit
digit_table = refl

digit_lem :
    (d : ℕ) → d < 16 → (is_hex_number (small_digit d) ≡ true) × (to_hex_value (small_digit d) ≡ d)
unfolding digit_test
digit_lem d h = let all = every_below_lem digit_test 16 d h digit_table in ground (arith, all)

hex_digits-digit :
    (acc d : ℕ) (s : List ℕ)
    → d < 16
    → hex_digits acc (small_digit d ∷ s) ≡ hex_digits (acc * 16 + d) s
unfolding hex_digits
hex_digits-digit acc d s h = let (hex, value) = digit_lem d h in rw (hex, value) refl

-- The digits of a number are read as the number.
hex_digits-hex_text :
    (digits n : ℕ) (s : List ℕ)
    → n < 16 ^ suc digits
    → hex_digits 0 (hex_text (suc digits) n ++ s) ≡ hex_digits n s
unfolding hex_text
hex_digits-hex_text zero n s h =
    let small : n < 16 = omega (arith, pow-suc 16 0) in
    let e : (n / 16 == 0) ≡ true = ground arith in
    let value : 0 * 16 + n % 16 ≡ n = omega arith in
    rw e (hex_digits-digit 0 (n % 16) s (omega arith) ∙ ap (λ k. hex_digits k s) value)
hex_digits-hex_text (suc digits) n s h = elim (Bool-cases (n / 16 == 0)) [
  | inl e ↦
      let value : 0 * 16 + n % 16 ≡ n = ground arith in
      rw e (hex_digits-digit 0 (n % 16) s (omega arith) ∙ ap (λ k. hex_digits k s) value)
  | inr e ↦
      let value : n / 16 * 16 + n % 16 ≡ n = omega arith in
      let fewer : n / 16 < 16 ^ suc digits = omega (arith, pow-suc 16 (suc digits)) in
      rw (e, append_assoc (hex_text (suc digits) (n / 16)) (small_digit (n % 16) ∷ []) s)
        (hex_digits-hex_text digits (n / 16) (small_digit (n % 16) ∷ s) fewer
          ∙ (hex_digits-digit (n / 16) (n % 16) s (omega arith) ∙ ap (λ k. hex_digits k s) value))
]

-- A nonempty text of digits only.
abbrev pub AreHex : List ℕ → Type 0
AreHex [] = Unit {0}
AreHex (c ∷ s) = (is_hex_number c ≡ true) × AreHex s

AreHex-append : (s t : List ℕ) → AreHex s → AreHex t → AreHex (s ++ t)
AreHex-append [] t hs ht = ht
AreHex-append (c ∷ s) t (h, hs) ht = (h, AreHex-append s t hs ht)

pub hex_text-AreHex : (digits n : ℕ) → AreHex (hex_text digits n)
unfolding hex_text
hex_text-AreHex zero n = tt
hex_text-AreHex (suc digits) n =
    let last : AreHex (small_digit (n % 16) ∷ []) = ((digit_lem (n % 16) (omega arith)).0, tt) in
    if-holds (λ s. AreHex (s ++ small_digit (n % 16) ∷ [])) [] (hex_text digits (n / 16))
      (n / 16 == 0) last
      (AreHex-append (hex_text digits (n / 16)) (small_digit (n % 16) ∷ [])
        (hex_text-AreHex digits (n / 16)) last)

not_space : (c : ℕ) → is_hex_number c ≡ true → is_space c ≡ false
unfolding is_hex_number is_space
not_space c h = ground arith

skip_lem : (c : ℕ) (s : List ℕ) → is_hex_number c ≡ true → skip_spaces (c ∷ s) ≡ c ∷ s
unfolding skip_spaces
skip_lem c s h = rw (not_space c h) refl

not_sign : (c : ℕ) → is_hex_number c ≡ true → ((c == b'-') ≡ false) × ((c == b'+') ≡ false)
unfolding is_hex_number
not_sign c h = (ground arith, ground arith)

not_mark : (c : ℕ) → is_hex_number c ≡ true → ((c == b'x') ≡ false) × ((c == b'X') ≡ false)
unfolding is_hex_number
not_mark c h = (ground arith, ground arith)

magnitude_lem :
    (c : ℕ) (s : List ℕ) → AreHex (c ∷ s) → magnitude (c ∷ s) ≡ some (hex_digits 0 (c ∷ s))
unfolding magnitude
magnitude_lem c [] (h, hs) = rw h refl
magnitude_lem c (d ∷ s) (h, hs) =
    let (small, big) = not_mark d (hs.0) in
    let no_mark : ((c == b'0') && (d == b'x' || d == b'X') && starts_hex s) ≡ false =
      ground arith in
    rw (no_mark, h) refl

signed_text_lem :
    (c : ℕ) (s : List ℕ)
    → AreHex (c ∷ s)
    → signed_text (c ∷ s)
      ≡ some (pos (min ((hex_digits 0 (c ∷ s)).0) (2 ^ 63 - 1)), (hex_digits 0 (c ∷ s)).1)
unfolding signed_text
signed_text_lem c s (h, hs) =
    let (minus_sign, plus_sign) = not_sign c h in
    rw (minus_sign, plus_sign, magnitude_lem c s (h, hs)) refl

strtoll16_lem :
    (c : ℕ) (s : List ℕ)
    → AreHex (c ∷ s)
    → strtoll16 (c ∷ s)
      ≡ (pos (min ((hex_digits 0 (c ∷ s)).0) (2 ^ 63 - 1)), (hex_digits 0 (c ∷ s)).1)
unfolding strtoll16
strtoll16_lem c s (h, hs) =
    let e = ap signed_text (skip_lem c s h) ∙ signed_text_lem c s (h, hs) in rw (e, strtoll16) refl

cons_lem : (xs : List ℕ) (y : ℕ) → (c : ℕ) × (s : List ℕ) × (xs ++ y ∷ [] ≡ c ∷ s)
cons_lem [] y = (y, [], refl)
cons_lem (x ∷ xs) y = (x, xs ++ y ∷ [], refl)

hex_text-cons : (digits n : ℕ) → (c : ℕ) × (s : List ℕ) × (hex_text (suc digits) n ≡ c ∷ s)
unfolding hex_text
hex_text-cons digits n = cons_lem _ (small_digit (n % 16))

-- What `%zx` prints is read back as the number, if it is a number of 63 bits.
pub from_hex_str-hex_text : (n : ℕ) → n < 2 ^ 63 → from_hex_str (hex_text 16 n) ≡ pos n
unfolding from_hex_str
from_hex_str-hex_text n small =
    let (c, s, e) = hex_text-cons 15 n in
    let hex : AreHex (c ∷ s) = subst AreHex e (hex_text-AreHex 16 n) in
    let read = hex_digits-hex_text 15 n [] (omega arith) in
    let value : hex_digits 0 (c ∷ s) ≡ (n, []) =
      ap (hex_digits 0) (sym e ∙ sym (append-nil (hex_text 16 n))) ∙ read in
    let low : min n (2 ^ 63 - 1) ≡ n = omega arith in rw (e, strtoll16_lem c s hex, value, low) refl
