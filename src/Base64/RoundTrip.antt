-- ===== src/Base64/RoundTrip.antt =====
-- src/base64.cc: decoding what was encoded.
use angel.Prelude.{
  ℕ, ◌+◌, ◌*◌, ◌/◌, ◌%◌, ◌<◌, ◌≡◌, refl, ap, ap₂, ◌∙◌, sym, List, [], ◌∷◌, ◌++◌, true, false, arith,
  bit_or, bit_and-ones, length, set, ◌==◌, append_assoc, append-nil, ltb, inl, inr, Bool-cases,
}
use angel.Base64.{
  Encode, standard, mime, url_safe, alphabet, Decoder, more, finish, feed, accept, eq, decode_from,
  decode, encode, encode_from, line_break, max_line_limit,
}
use angel.Base64.Chars.{
  feed-alphabet, map_char-special, sextet0, sextet1, sextet2, sextet3, sextet1_bits, sextet2_bits,
  last1_bits, last2_bits, byte0, byte1, byte2,
}

abbrev filled : ℕ → ℕ → ℕ → ℕ → ℕ → List ℕ → Decoder
filled w x y z j res = record { c = w ∷ x ∷ y ∷ z ∷ []; j = j; res = res }

pub decode_from-more :
    (code : Encode) (d d' : Decoder) (ch : ℕ) (s : List ℕ)
    → feed code d ch ≡ more d'
    → decode_from code d (ch ∷ s) ≡ decode_from code d' s
unfolding decode_from
decode_from-more code d d' ch s h = rw (h, decode_from)

pub decode_from-finish :
    (code : Encode) (d : Decoder) (ch : ℕ) (s res : List ℕ)
    → feed code d ch ≡ finish res
    → decode_from code d (ch ∷ s) ≡ res
unfolding decode_from
decode_from-finish code d ch s res h = rw (h, decode_from)

ne_eq : (q : ℕ) → q < 64 → (q == eq) ≡ false
ne_eq q h = ground arith

-- `++j` below 4.
advance : (d : Decoder) → ltb (d.j + 1) 4 ≡ true → accept d ≡ more (record d { j = d.j + 1 })
unfolding accept
advance d h = rw h

full :
    (q0 q1 q2 q3 : ℕ) (res : List ℕ)
    → (q2 == eq) ≡ false
    → (q3 == eq) ≡ false
    → accept (filled q0 q1 q2 q3 3 res)
      ≡ more (
          filled q0 q1 q2 q3 0 (
            res
            ++ (bit_or (q0 * 4) (q1 / 16) % 256)
              ∷ (bit_or (q1 * 16) (q2 / 4) % 256)
              ∷ (bit_or (q2 * 64) q3 % 256)
              ∷ []))
unfolding accept
full q0 q1 q2 q3 res h2 h3 = rw (h2, h3)

last1 :
    (q0 q1 : ℕ) (res : List ℕ)
    → accept (filled q0 q1 eq eq 3 res) ≡ finish (res ++ (bit_or (q0 * 4) (q1 / 16) % 256) ∷ [])
unfolding accept
last1 q0 q1 res = refl

last2 :
    (q0 q1 q2 : ℕ) (res : List ℕ)
    → (q2 == eq) ≡ false
    → accept (filled q0 q1 q2 eq 3 res)
      ≡ finish (res ++ (bit_or (q0 * 4) (q1 / 16) % 256) ∷ (bit_or (q1 * 16) (q2 / 4) % 256) ∷ [])
unfolding accept
last2 q0 q1 q2 res h2 = rw h2

feed-equals :
    (code : Encode) (d : Decoder)
    → ltb d.j 2 ≡ false
    → feed code d b'=' ≡ accept (record d { c = set (set d.c d.j 0) d.j eq })
unfolding feed
feed-equals code d h = rw ((map_char-special code).0, h)

abbrev pub IsSextet : ℕ → Type 0
IsSextet q = (0 < q) × (q < 64)

-- A character of the alphabet where the group is not yet full.
pub takes :
    (code : Encode) (d : Decoder) (q : ℕ) (s : List ℕ)
    → IsSextet q
    → ltb (d.j + 1) 4 ≡ true
    → decode_from code d (alphabet code q ∷ s)
      ≡ decode_from code (record d { c = set d.c d.j q; j = d.j + 1 }) s
takes code d q s h room =
    decode_from-more code d (record d { c = set d.c d.j q; j = d.j + 1 }) (alphabet code q) s
      (feed-alphabet code d q h.0 h.1 ∙ advance (record d { c = set d.c d.j q }) room)

abbrev decoded3 : ℕ → ℕ → ℕ → ℕ → List ℕ
decoded3 q0 q1 q2 q3 =
    (bit_or (q0 * 4) (q1 / 16) % 256)
    ∷ (bit_or (q1 * 16) (q2 / 4) % 256)
    ∷ (bit_or (q2 * 64) q3 % 256)
    ∷ []

module _ (code : Encode) (q0 q1 : ℕ) (h0 : IsSextet q0) (h1 : IsSextet q1) where
  two :
      (w x y z : ℕ) (res s : List ℕ)
      → decode_from code (filled w x y z 0 res) (alphabet code q0 ∷ alphabet code q1 ∷ s)
        ≡ decode_from code (filled q0 q1 y z 2 res) s
  two w x y z res s =
      takes code (filled w x y z 0 res) q0 (alphabet code q1 ∷ s) h0 refl
      ∙ takes code (filled q0 x y z 1 res) q1 s h1 refl

  three :
      (q2 w x y z : ℕ) (res s : List ℕ)
      → IsSextet q2
      → decode_from code
          (filled w x y z 0 res)
          (alphabet code q0 ∷ alphabet code q1 ∷ alphabet code q2 ∷ s)
        ≡ decode_from code (filled q0 q1 q2 z 3 res) s
  three q2 w x y z res s h2 =
      two w x y z res (alphabet code q2 ∷ s) ∙ takes code (filled q0 q1 y z 2 res) q2 s h2 refl

  -- A whole group gives three bytes.
  four :
      (q2 q3 w x y z : ℕ) (res s : List ℕ)
      → IsSextet q2
      → IsSextet q3
      → decode_from code
          (filled w x y z 0 res)
          (alphabet code q0 ∷ alphabet code q1 ∷ alphabet code q2 ∷ alphabet code q3 ∷ s)
        ≡ decode_from code (filled q0 q1 q2 q3 0 (res ++ decoded3 q0 q1 q2 q3)) s
  four q2 q3 w x y z res s h2 h3 =
      three q2 w x y z res (alphabet code q3 ∷ s) h2
      ∙ decode_from-more code (filled q0 q1 q2 z 3 res)
          (filled q0 q1 q2 q3 0 (res ++ decoded3 q0 q1 q2 q3)) (alphabet code q3) s
          (feed-alphabet code (filled q0 q1 q2 z 3 res) q3 h3.0 h3.1
            ∙ full q0 q1 q2 q3 res (ne_eq q2 h2.1) (ne_eq q3 h3.1))

  -- Two characters and two '=' give one byte.
  two_padded :
      (w x y z : ℕ) (res : List ℕ)
      → decode_from code
          (filled w x y z 0 res)
          (alphabet code q0 ∷ alphabet code q1 ∷ b'=' ∷ b'=' ∷ [])
        ≡ res ++ (bit_or (q0 * 4) (q1 / 16) % 256) ∷ []
  two_padded w x y z res =
      two w x y z res (b'=' ∷ b'=' ∷ [])
      ∙ decode_from-more code (filled q0 q1 y z 2 res) (filled q0 q1 eq z 3 res) b'=' (b'=' ∷ [])
          (feed-equals code (filled q0 q1 y z 2 res) refl ∙ advance (filled q0 q1 eq z 2 res) refl)
      ∙ decode_from-finish code (filled q0 q1 eq z 3 res) b'=' [] _
          (feed-equals code (filled q0 q1 eq z 3 res) refl ∙ last1 q0 q1 res)

  -- Three characters and one '=' give two bytes.
  three_padded :
      (q2 w x y z : ℕ) (res : List ℕ)
      → IsSextet q2
      → decode_from code
          (filled w x y z 0 res)
          (alphabet code q0 ∷ alphabet code q1 ∷ alphabet code q2 ∷ b'=' ∷ [])
        ≡ res ++ (bit_or (q0 * 4) (q1 / 16) % 256) ∷ (bit_or (q1 * 16) (q2 / 4) % 256) ∷ []
  three_padded q2 w x y z res h2 =
      three q2 w x y z res (b'=' ∷ []) h2
      ∙ decode_from-finish code (filled q0 q1 q2 z 3 res) b'=' [] _
          (feed-equals code (filled q0 q1 q2 z 3 res) refl ∙ last2 q0 q1 q2 res (ne_eq q2 h2.1))

-- No group of six bits is 0, the padded ones included: the encoded text has no 'A'.
abbrev pub NoZeroSextet : List ℕ → Type 0
NoZeroSextet [] = Unit {0}
NoZeroSextet (a ∷ []) = (0 < sextet0 a) × (0 < sextet1 a 0)
NoZeroSextet (a ∷ b ∷ []) = (0 < sextet0 a) × (0 < sextet1 a b) × (0 < sextet2 b 0)
NoZeroSextet (a ∷ b ∷ c ∷ rest) =
    ((0 < sextet0 a) × (0 < sextet1 a b) × (0 < sextet2 b c) × (0 < sextet3 c)) × NoZeroSextet rest

abbrev pub AreBytes : List ℕ → Type 0
AreBytes [] = Unit {0}
AreBytes (x ∷ xs) = (x < 256) × AreBytes xs

-- The line breaks of the MIME form are skipped between groups.
skips_break :
    (code : Encode) (j w x y z : ℕ) (res s : List ℕ)
    → (v : ℕ) × (decode_from code (filled w x y z 0 res) ((line_break code j).0 ++ s)
        ≡ decode_from code (filled v x y z 0 res) s)
unfolding line_break
skips_break standard j w x y z res s = (w, refl)
skips_break url_safe j w x y z res s = (w, refl)
skips_break mime j w x y z res s = elim (Bool-cases (j + 4 == max_line_limit)) [
  | inr short ↦ (w, rw short)
  | inl long ↦ (
    0,
    rw long (
        decode_from-more mime (filled w x y z 0 res) (filled 0 x y z 0 res) 13 (10 ∷ s)
          (unfold feed in refl)
        ∙ decode_from-more mime (filled 0 x y z 0 res) (filled 0 x y z 0 res) 10 s
            (unfold feed in refl)),
  )
]

decodes-encode_from :
    (code : Encode) (j w x y z : ℕ) (res text : List ℕ)
    → AreBytes text
    → NoZeroSextet text
    → decode_from code (filled w x y z 0 res) (encode_from code j text) ≡ res ++ text
unfolding encode_from
decodes-encode_from code j w x y z res [] bs ns = unfold decode_from in sym (append-nil res)
decodes-encode_from code j w x y z res (a ∷ []) bs ns = rw (last1_bits a) (
    two_padded code (sextet0 a) (sextet1 a 0) (ns.0, omega (arith, bs.0)) (ns.1, omega arith) w x y
      z res
    ∙ ap (λ t. res ++ t ∷ []) (byte0 a 0 bs.0 (omega arith)))
decodes-encode_from code j w x y z res (a ∷ b ∷ []) bs ns =
    rw (sextet1_bits a b bs.1.0, last2_bits b)
      (three_padded code (sextet0 a) (sextet1 a b) (ns.0, omega (arith, bs.0))
          (ns.1, omega (arith, bs.1.0)) (sextet2 b 0) w x y z res (ns.2, omega arith)
        ∙ ap₂ (λ s t. res ++ s ∷ t ∷ []) (byte0 a b bs.0 bs.1.0)
            (byte1 a b 0 bs.0 bs.1.0 (omega arith)))
decodes-encode_from code j w x y z res (a ∷ b ∷ c ∷ rest) bs ns =
    let q0 = sextet0 a in
    let q1 = sextet1 a b in
    let q2 = sextet2 b c in
    let q3 = sextet3 c in
    let bytes : decoded3 q0 q1 q2 q3 ≡ a ∷ b ∷ c ∷ [] =
      cc (byte0 a b bs.0 bs.1.0, byte1 a b c bs.0 bs.1.0 bs.1.1.0, byte2 b c bs.1.0 bs.1.1.0) in
    let after = (line_break code j).0 ++ encode_from code (line_break code j).1 rest in
    let skipped =
      skips_break code j q0 q1 q2 q3 (res ++ decoded3 q0 q1 q2 q3)
        (encode_from code (line_break code j).1 rest) in
    rw (sextet1_bits a b bs.1.0, sextet2_bits b c bs.1.1.0, bit_and-ones 6 c)
      (four code q0 q1 (ns.0.0, omega (arith, bs.0)) (ns.0.1, omega (arith, bs.1.0)) q2 q3 w x y z
          res after (ns.0.2, omega (arith, bs.1.1.0)) (ns.0.3, omega arith)
        ∙ skipped.1
        ∙ decodes-encode_from code (line_break code j).1 skipped.0 q1 q2 q3
            (res ++ decoded3 q0 q1 q2 q3) rest bs.1.1.1 ns.1
        ∙ append_assoc res (decoded3 q0 q1 q2 q3) rest
        ∙ ap (λ t. res ++ (t ++ rest)) bytes)

-- A text of at least one byte encodes to at least one group.
encode_from-long :
    (code : Encode) (j x : ℕ) (xs : List ℕ) → ltb (length (encode_from code j (x ∷ xs))) 4 ≡ false
unfolding encode_from
encode_from-long code j a [] = refl
encode_from-long code j a (b ∷ []) = refl
encode_from-long code j a (b ∷ c ∷ rest) = ground arith

-- In each of the three forms, decoding the encoding of a byte string none of whose groups of six
-- bits is 0 gives the string back.
pub decode-encode :
    (code : Encode) (text : List ℕ)
    → AreBytes text
    → NoZeroSextet text
    → decode code (encode code text) ≡ text
unfolding decode encode
decode-encode code [] bs ns = unfold encode_from in refl
decode-encode code (x ∷ xs) bs ns =
    rw (encode_from-long code 0 x xs) (decodes-encode_from code 0 0 0 0 0 [] (x ∷ xs) bs ns)
