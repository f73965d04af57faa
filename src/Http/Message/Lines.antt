-- ===== src/Http/Message/Lines.antt =====
-- src/httplib/httplib.cc: the line with the size of a chunk.
use angel.Prelude.{
  ℕ, zero, suc, ◌+◌, ◌-◌, ◌/◌, ◌^◌, ◌%◌, ◌<◌, ◌≤◌, ◌≡◌, refl, ap, ◌∙◌, List, [], ◌∷◌, ◌++◌, true,
  false, some, length, take, drop, length-append, drop-append_ge, ◌==◌, if◌then◌else◌, arith,
}
use native.Mathlib.Nat.{pow-suc}
use angel.Buffer.Search.{crlf, is_prefix, search_first}
use angel.Connection.Stream.{if-holds}
use angel.Mime.{is_hex_number}
use angel.Http.Integers.{small_digit, hex_text}
use angel.Http.Integers.Hex.{AreHex}
use angel.Http.Response

length-hex_text : (digits n k : ℕ) → n < 16 ^ suc k → length (hex_text digits n) ≤ suc k
unfolding hex_text
length-hex_text zero n k h = omega arith
length-hex_text (suc digits) n zero h =
    let small : n < 16 = omega (arith, pow-suc 16 0) in
    let e : (n / 16 == 0) ≡ true = ground arith in rw e (omega arith)
length-hex_text (suc digits) n (suc k) h =
    let fewer : n / 16 < 16 ^ suc k = omega (arith, pow-suc 16 (suc k)) in
    let rest = length-hex_text digits (n / 16) k fewer in
    let P = λ (s : List ℕ). length s ≤ suc k in
    let first = if-holds P [] (hex_text digits (n / 16)) (n / 16 == 0) (omega arith) rest in
    omega (
      arith,
      first,
      length-append (if n / 16 == 0 then [] else hex_text digits (n / 16))
          (small_digit (n % 16) ∷ []),
    )

take_all : (n : ℕ) (xs : List ℕ) → length xs ≤ n → take n xs ≡ xs
take_all zero [] h = refl
take_all zero (x ∷ xs) h = absurd (omega arith)
take_all (suc n) [] h = refl
take_all (suc n) (x ∷ xs) h = ap (λ s. x ∷ s) (take_all n xs (omega arith))

pub size_line_lem :
    (chunk : List ℕ)
    → length chunk < 2 ^ 52
    → Response.size_line chunk ≡ hex_text 16 (length chunk) ++ crlf
unfolding Response.size_line
size_line_lem chunk h =
    let text = hex_text 16 (length chunk) in
    take_all 15 (text ++ crlf)
      (omega (arith, length-hex_text 16 (length chunk) 12 h, length-append text crlf))

not_cr : (c : ℕ) → is_hex_number c ≡ true → (13 == c) ≡ false
unfolding is_hex_number
not_cr c h = ground arith

-- The first CRLF behind digits.
pub search_line :
    (s rest : List ℕ) → AreHex s → search_first crlf (s ++ (crlf ++ rest)) ≡ some (length s)
unfolding search_first is_prefix
search_line [] rest hex = refl
search_line (c ∷ s) rest (h, hex) =
    let e : (13 == c) ≡ false = not_cr c h in rw (e, search_line s rest hex) refl

pub take-length : (s t : List ℕ) → take (length s) (s ++ t) ≡ s
take-length [] t = refl
take-length (c ∷ s) t = ap (λ r. c ∷ r) (take-length s t)

pub drop-length : (s t : List ℕ) → drop (length s) (s ++ t) ≡ t
drop-length [] t = refl
drop-length (c ∷ s) t = drop-length s t

pub drop_line : (s t : List ℕ) → drop (length s + 2) (s ++ (crlf ++ t)) ≡ t
drop_line s t =
    let e : length s + 2 - length s ≡ 2 = omega arith in
    drop-append_ge (length s + 2) s (crlf ++ t) (omega arith) ∙ ap (λ n. drop n (crlf ++ t)) e
