-- ===== src/Base64/Skipped.antt =====
-- src/base64.cc: the characters that decoding passes over, 'A' among them.
use angel.Prelude.{
  ℕ, zero, suc, ◌+◌, ◌≤◌, ◌<◌, ◌≡◌, refl, ap, ◌∙◌, sym, List, [], ◌∷◌, ◌++◌, false, arith, map,
  bit_and-ones, length, length-append, set, ◌==◌, ltb,
}
use angel.Base64.{
  Encode, standard, mime, url_safe, alphabet, Decoder, Outcome, more, finish, feed, map_char,
  decode_from, decode, encode, start, line_break,
}
use angel.Base64.Chars.{
  sextet0, sextet1, sextet2, sextet3, sextet1_bits, sextet2_bits, map_char-alphabet,
}
use angel.Base64.RoundTrip.{decode_from-more, decode_from-finish, takes}

set-set : (xs : List ℕ) (i v w : ℕ) → set (set xs i v) i w ≡ set xs i w
set-set [] i v w = refl
set-set (x ∷ xs) zero v w = refl
set-set (x ∷ xs) (suc i) v w = ap (λ t. x ∷ t) (set-set xs i v w)

-- What stands in the cell that is filled next does not matter.
feed-set :
    (code : Encode) (d : Decoder) (v ch : ℕ)
    → feed code (record d { c = set d.c d.j v }) ch ≡ feed code d ch
unfolding feed
feed-set code d v ch = rw (set-set d.c d.j v (map_char code ch))

decode_from-set :
    (code : Encode) (d : Decoder) (v : ℕ) (s : List ℕ)
    → decode_from code (record d { c = set d.c d.j v }) s ≡ decode_from code d s
unfolding decode_from
decode_from-set code d v [] = refl
decode_from-set code d v (ch ∷ s) = rw (feed-set code d v ch, decode_from)

decode_from-unmapped :
    (code : Encode) (d : Decoder) (ch : ℕ) (s : List ℕ)
    → map_char code ch ≡ 0
    → (ch == b'=') ≡ false
    → decode_from code d (ch ∷ s) ≡ decode_from code d s
decode_from-unmapped code d ch s h ne = step ∙ decode_from-set code d (map_char code ch) s
  where
    fed : feed code d ch ≡ more (record d { c = set d.c d.j (map_char code ch) })
    fed = unfold feed in rw (h, ne)

    step :
        decode_from code d (ch ∷ s)
        ≡ decode_from code (record d { c = set d.c d.j (map_char code ch) }) s
    step = unfold decode_from in rw (fed, decode_from)

-- Two texts that decode alike from every state do so behind one more character.
after_first :
    (code : Encode) (d : Decoder) (x : ℕ) (s t : List ℕ) (o : Outcome)
    → feed code d x ≡ o
    → ((d' : Decoder) → decode_from code d' s ≡ decode_from code d' t)
    → decode_from code d (x ∷ s) ≡ decode_from code d (x ∷ t)
after_first code d x s t (more d') e same =
    decode_from-more code d d' x s e ∙ same d' ∙ sym (decode_from-more code d d' x t e)
after_first code d x s t (finish res) e same =
    decode_from-finish code d x s res e ∙ sym (decode_from-finish code d x t res e)

decode_from-passes :
    (code : Encode) (d : Decoder) (ch : ℕ) (xs ys : List ℕ)
    → map_char code ch ≡ 0
    → (ch == b'=') ≡ false
    → decode_from code d (xs ++ ch ∷ ys) ≡ decode_from code d (xs ++ ys)
decode_from-passes code d ch [] ys h ne = decode_from-unmapped code d ch ys h ne
decode_from-passes code d ch (x ∷ xs) ys h ne =
    after_first code d x (xs ++ ch ∷ ys) (xs ++ ys) (feed code d x) refl
      (λ d'. decode_from-passes code d' ch xs ys h ne)

-- Decoding passes over every character that the table maps to 0, except '=': with at least four
-- other characters the text decodes as if such a character were not there. The 'A' of both
-- alphabets is one.
pub decode-passes_over :
    (code : Encode) (ch : ℕ) (xs ys : List ℕ)
    → map_char code ch ≡ 0
    → (ch == b'=') ≡ false
    → 4 ≤ length (xs ++ ys)
    → decode code (xs ++ ch ∷ ys) ≡ decode code (xs ++ ys)
unfolding decode
decode-passes_over code ch xs ys h ne long =
    let short : ltb (length (xs ++ ys)) 4 ≡ false = ground arith in
    let short' : ltb (length (xs ++ ch ∷ ys)) 4 ≡ false =
      ground (arith, length-append xs ys, length-append xs (ch ∷ ys)) in
    rw (short, short') (decode_from-passes code start ch xs ys h ne)

alphabet-ne_equals : (code : Encode) → (alphabet code 0 == b'=') ≡ false
unfolding alphabet
alphabet-ne_equals standard = refl
alphabet-ne_equals mime = refl
alphabet-ne_equals url_safe = refl

abbrev Sextets : List ℕ → Type 0
Sextets [] = Unit {0}
Sextets (q ∷ qs) = (q < 64) × Sextets qs

-- Fewer than four characters that count give nothing.
decode_from-few :
    (code : Encode) (d : Decoder) (qs : List ℕ)
    → Sextets qs
    → d.res ≡ []
    → d.j + length qs < 4
    → decode_from code d (map (alphabet code) qs) ≡ []
decode_from-few code d [] b empty h = unfold decode_from in ground (arith, empty)
decode_from-few code d (zero ∷ qs) b empty h =
    decode_from-unmapped code d (alphabet code 0) (map (alphabet code) qs)
      (map_char-alphabet code 0 (omega arith)) (alphabet-ne_equals code)
    ∙ decode_from-few code d qs b.1 empty (omega arith)
decode_from-few code d (suc q ∷ qs) b empty h =
    takes code d (suc q) (map (alphabet code) qs) (omega arith, b.0) (ground arith)
    ∙ decode_from-few code (record d { c = set d.c d.j (suc q); j = d.j + 1 }) qs b.1 empty
        (omega arith)

first_skipped :
    (code : Encode) (q : ℕ) (s : List ℕ)
    → q ≡ 0
    → decode_from code start (alphabet code q ∷ s) ≡ decode_from code start s
first_skipped code q s e =
    ap (λ t. decode_from code start (alphabet code t ∷ s)) e
    ∙ decode_from-unmapped code start (alphabet code 0) s (map_char-alphabet code 0 (omega arith))
        (alphabet-ne_equals code)

encode_three :
    (code : Encode) (a b c : ℕ)
    → b < 256
    → c < 256
    → encode code (a ∷ b ∷ c ∷ [])
      ≡ map (alphabet code) (sextet0 a ∷ sextet1 a b ∷ sextet2 b c ∷ sextet3 c ∷ [])
unfolding encode
encode_three standard a b c p q =
    unfold line_break in rw (sextet1_bits a b p, sextet2_bits b c q, bit_and-ones 6 c) refl
encode_three mime a b c p q =
    unfold line_break in rw (sextet1_bits a b p, sextet2_bits b c q, bit_and-ones 6 c) refl
encode_three url_safe a b c p q =
    unfold line_break in rw (sextet1_bits a b p, sextet2_bits b c q, bit_and-ones 6 c) refl

-- In each form, three bytes of which the first is below 4 are lost: their encoding decodes to the
-- empty string.
pub decode-encode_loses :
    (code : Encode) (a b c : ℕ)
    → a < 4
    → b < 256
    → c < 256
    → decode code (encode code (a ∷ b ∷ c ∷ [])) ≡ []
decode-encode_loses code a b c p q r =
    ap (decode code) (encode_three code a b c q r)
    ∙ unfold decode in
      (first_skipped code (sextet0 a)
          (map (alphabet code) (sextet1 a b ∷ sextet2 b c ∷ sextet3 c ∷ [])) (omega arith)
        ∙ decode_from-few code start (sextet1 a b ∷ sextet2 b c ∷ sextet3 c ∷ []) (omega arith) refl
            (omega arith))
