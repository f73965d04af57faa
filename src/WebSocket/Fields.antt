-- ===== src/WebSocket/Fields.antt =====
-- The fields of a frame of RFC 6455 as src/websocket/ws-server.cc reads them.
use angel.Prelude.{
  ℕ, zero, suc, ◌+◌, ◌*◌, ◌/◌, ◌%◌, ◌^◌, ◌≤◌, ◌<◌, ◌≡◌, refl, ap, ap₂, sym, ◌∙◌, List, [], ◌∷◌,
  ◌++◌, Bool, true, false, not, some, arith, length, get_or, take, drop, ltb, ◌==◌, if◌then◌else◌,
  bit_and, bit_and-ones, bit_xor_twice, take-length-append, drop-length-append, drop-drop, inl, inr,
  Bool-cases,
}
use angel.WebSocket.{extent, decode_payload_len, unmask}
use angel.WebSocket.Wire.{bit, size_field, All}

pub length-unmask : (key : List ℕ) (i : ℕ) (xs : List ℕ) → length (unmask key i xs) ≡ length xs
unfolding unmask
length-unmask key i [] = refl
length-unmask key i (x ∷ xs) = ap suc (length-unmask key (i + 1) xs)

pub get_or-All : (key : List ℕ) (i : ℕ) → All (λ x. x < 256) key → get_or key i 0 < 256
get_or-All [] i h = omega arith
get_or-All (x ∷ xs) zero h = h.0
get_or-All (x ∷ xs) (suc i) h = get_or-All xs i h.1

-- Masking twice with one key gives the bytes back.
pub unmask_twice :
    (key : List ℕ) (i : ℕ) (xs : List ℕ)
    → All (λ x. x < 256) key
    → All (λ x. x < 256) xs
    → unmask key i (unmask key i xs) ≡ xs
unfolding unmask
unmask_twice key i [] k h = refl
unmask_twice key i (x ∷ xs) k h =
    ap₂ ◌∷◌ (bit_xor_twice 8 x (get_or key (i % 4) 0) h.0 (get_or-All key (i % 4) k)).0
      (unmask_twice key (i + 1) xs k h.1)

pub extent-fits :
    (n i : ℕ) (mask : Bool) (r : ℕ)
    → i ≤ 10
    → n < 2 ^ 63
    → i + (if mask then 4 else 0) + n ≤ r
    → extent n i mask r
      ≡ some (record { payload_len = n; key_at = i; payload_at = i + (if mask then 4 else 0) })
unfolding extent
extent-fits n i true r h k fits = ground arith
extent-fits n i false r h k fits = ground arith

abbrev pub size_bits : ℕ → ℕ
size_bits n = if ltb n 126 then n else if ltb n 65536 then 126 else 127

pub be64_back64 :
    (n : ℕ)
    → n < 2 ^ 64
    → (n / 2 ^ 56 % 256 * 2 ^ 24
            + n / 2 ^ 48 % 256 * 2 ^ 16
            + n / 2 ^ 40 % 256 * 2 ^ 8
            + n / 2 ^ 32 % 256)
          * 2 ^ 32
        + (n / 2 ^ 24 % 256 * 2 ^ 24
            + n / 2 ^ 16 % 256 * 2 ^ 16
            + n / 2 ^ 8 % 256 * 2 ^ 8
            + n % 256)
      ≡ n
be64_back64 n h = omega arith

-- The length of a frame is read back from its size field.
pub size_read :
    (h0 m n : ℕ) (mask : Bool) (s : List ℕ) (r : ℕ)
    → n < 2 ^ 63
    → length (size_field m n) < r
    → decode_payload_len (size_bits n) (h0 ∷ (size_field m n ++ s)) r mask
      ≡ extent n (length (size_field m n) + 1) mask r
unfolding decode_payload_len
size_read h0 m n mask s r big fits = elim (Bool-cases (ltb n 126)) [
  | inl small ↦
      let a : (n == 127) ≡ false = ground arith in
      let b : (n == 126) ≡ false = ground arith in rw (small, a, b) refl
  | inr large ↦ elim (Bool-cases (ltb n 65536)) [
    | inl middle ↦
        let here : 3 < r = rw (large, middle) at fits in
        let a : ltb r 4 ≡ false = ground arith in
        let back : n / 256 % 256 * 256 + n % 256 ≡ n = ground arith in
        rw (large, middle, a, back) refl
    | inr huge ↦
        let here : 9 < r = rw (large, huge) at fits in
        let a : ltb r 10 ≡ false = ground arith in
        rw (large, huge, a, be64_back64 n (omega arith)) refl
  ]
]

-- The parts of the first two bytes.
pub first_byte :
    (fin : Bool) (op : ℕ)
    → op < 16
    → (not ((bit fin * 128 + op) / 2 ^ 7 == 0) ≡ fin) × (bit_and (bit fin * 128 + op) 0x0f ≡ op)
first_byte true op h = (ground arith, omega (arith, bit_and-ones 4 (1 * 128 + op)))
first_byte false op h = (ground arith, omega (arith, bit_and-ones 4 (0 * 128 + op)))

pub second_byte :
    (mask : Bool) (k : ℕ)
    → k < 128
    → (not ((bit mask * 128 + k) / 2 ^ 7 == 0) ≡ mask) × (bit_and (bit mask * 128 + k) 0x7f ≡ k)
second_byte true k h = (ground arith, omega (arith, bit_and-ones 7 (1 * 128 + k)))
second_byte false k h = (ground arith, omega (arith, bit_and-ones 7 (0 * 128 + k)))

-- The size field begins with the mask bit and seven bits of the size.
pub size_field_first :
    (m n : ℕ) (s : List ℕ) → get_or (size_field m n ++ s) 0 0 ≡ m * 128 + size_bits n
size_field_first m n s = elim (Bool-cases (ltb n 126)) [
  | inl small ↦ rw small refl
  | inr large ↦ elim (Bool-cases (ltb n 65536)) [
    | inl middle ↦ rw (large, middle) refl
    | inr huge ↦ rw (large, huge) refl
  ]
]

pub drop_head : (h0 : ℕ) (sf s : List ℕ) → drop (length sf + 1) (h0 ∷ (sf ++ s)) ≡ s
drop_head h0 sf s =
    ap (λ k. drop k (h0 ∷ (sf ++ s))) (let e : length sf + 1 ≡ suc (length sf) = omega arith in e)
    ∙ drop-length-append sf s

-- Where the payload stands, and the key before it.
pub plain_at :
    (h0 : ℕ) (sf p rest : List ℕ)
    → take (length p) (drop (length sf + 1 + 0) (h0 ∷ (sf ++ (p ++ rest)))) ≡ p
plain_at h0 sf p rest =
    ap (λ k. take (length p) (drop k (h0 ∷ (sf ++ (p ++ rest)))))
      (let e : length sf + 1 + 0 ≡ length sf + 1 = omega arith in e)
    ∙ ap (take (length p)) (drop_head h0 sf (p ++ rest))
    ∙ take-length-append p rest

pub key_at :
    (h0 : ℕ) (sf key s : List ℕ)
    → length key ≡ 4
    → take 4 (drop (length sf + 1) (h0 ∷ (sf ++ (key ++ s)))) ≡ key
key_at h0 sf key s four =
    ap (take 4) (drop_head h0 sf (key ++ s))
    ∙ ap (λ k. take k (key ++ s)) (sym four)
    ∙ take-length-append key s

pub masked_at :
    (h0 : ℕ) (sf key p rest : List ℕ)
    → length key ≡ 4
    → take (length p) (drop (length sf + 1 + 4) (h0 ∷ (sf ++ (key ++ (p ++ rest))))) ≡ p
masked_at h0 sf key p rest four =
    ap (take (length p)) (
      sym (drop-drop 4 (length sf + 1) (h0 ∷ (sf ++ (key ++ (p ++ rest)))))
      ∙ ap (drop 4) (drop_head h0 sf (key ++ (p ++ rest)))
      ∙ ap (λ k. drop k (key ++ (p ++ rest))) (sym four)
      ∙ drop-length-append key (p ++ rest))
    ∙ take-length-append p rest
