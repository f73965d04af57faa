-- ===== src/Mime/Qp/RoundTrip.antt =====
-- src/mime/qp.cc: decoding a text that was encoded.
use angel.Prelude.{
  ℕ, ◌+◌, ◌-◌, ◌<◌, ◌≡◌, inl, inr, refl, ap, ap₂, sym, subst, ◌∙◌, List, [], ◌∷◌, ◌++◌,
  append_assoc, append-nil, Bool, true, false, ◌||◌, ltb, ◌==◌, if◌then◌else◌, Bool-cases, arith,
}
use angel.Base64.RoundTrip.{AreBytes}
use angel.Connection.Stream.{if-holds}
use angel.Mime.{to_hex_pair}
use angel.Mime.Hex.{high, low, pair_lem, to_hex_pair_digits}
use angel.Mime.{is_hex_number}
use angel.Mime.Qp.{
  max_line_limit, soft_break, rounds, encode_from, back, pop_back, close_line, encode, decode,
}
use angel.Mime.Qp.Pieces.{
  IsBreak, IsPiece, IsPlaced, rounds-IsPlaced, decode-placed, decode-break, decode-piece,
}

-- The loop's text is read back, whatever is behind it.
decode-encode_from :
    (count : ℕ) (text t : List ℕ)
    → AreBytes text
    → decode ((encode_from count text).0 ++ t) ≡ text ++ decode t
unfolding encode_from
decode-encode_from count [] t bytes = refl
decode-encode_from count (c ∷ text) t (small, bytes) =
    let r = rounds count c in
    let rest = (encode_from (r.1) text).0 in
    ap decode (append_assoc (r.0) rest t)
    ∙ (decode-placed c (r.0) (rest ++ t) small (rounds-IsPlaced count c)
        ∙ ap (λ s. c ∷ s) (decode-encode_from (r.1) text t bytes))

abbrev pub is_blank : ℕ → Bool
is_blank c = c == b' ' || c == 9

pop_back-append :
    (xs : List ℕ) (y : ℕ) (ys : List ℕ)
    → (pop_back (xs ++ y ∷ ys) ≡ xs ++ pop_back (y ∷ ys)) × (back (xs ++ y ∷ ys) ≡ back (y ∷ ys))
pop_back-append [] y ys = (refl, refl)
pop_back-append (x ∷ []) y ys = (refl, refl)
pop_back-append (x ∷ z ∷ xs) y ys =
    let (same_rest, same_back) = pop_back-append (z ∷ xs) y ys in
    (ap (λ s. x ∷ s) same_rest, same_back)

digit_blank : (d : ℕ) → is_hex_number d ≡ true → is_blank d ≡ false
unfolding is_hex_number
digit_blank d h = ground arith

-- What a text that ends in a blank loses with it, and the blank.
Loses : List ℕ → List ℕ → ℕ → Type 0
Loses s before c = (pop_back s ≡ before) × (back s ≡ c)

piece_lem :
    (c : ℕ) (before piece : List ℕ)
    → c < 256
    → IsPiece c piece
    → is_blank (back (before ++ piece)) ≡ true
    → Loses (before ++ piece) before c
unfolding Loses
piece_lem c before piece small (inl (e, h)) blank =
    let (rest, last) = pop_back-append before c [] in rw e (rest ∙ append-nil before, last)
piece_lem c before piece small (inr e) blank =
    let pair = e ∙ to_hex_pair_digits b'=' c in
    let last = (pop_back-append before b'=' (high c ∷ low c ∷ [])).1 in
    let blank' : is_blank (low c) ≡ true =
      sym (ap is_blank (ap (λ p. back (before ++ p)) pair ∙ last)) ∙ blank in
    let no_blank = digit_blank (low c) ((pair_lem c small).1) in absurd (ground arith)

placed_lem :
    (c : ℕ) (s y : List ℕ)
    → c < 256
    → IsPlaced c s
    → is_blank (back s) ≡ true
    → (decode (pop_back s ++ y) ≡ decode y) × (back s ≡ c)
unfolding Loses
placed_lem c s y small (before, piece, e, break, found) blank =
    let (rest, last) =
      piece_lem c before piece small found (sym (ap (λ t. is_blank (back t)) e) ∙ blank) in
    (
      ap (λ t. decode (pop_back t ++ y)) e
          ∙ (ap (λ t. decode (t ++ y)) rest ∙ decode-break before y break),
      ap back e ∙ last,
    )

abbrev IsCons : List ℕ → Type 0
IsCons s = (x : ℕ) × (xs : List ℕ) × (s ≡ x ∷ xs)

append-IsCons : (s t : List ℕ) → IsCons t → IsCons (s ++ t)
append-IsCons [] t h = h
append-IsCons (x ∷ s) t h = (x, s ++ t, refl)

IsCons-append : (s t : List ℕ) → IsCons s → IsCons (s ++ t)
IsCons-append s t (x, xs, e) = (x, xs ++ t, ap (λ s'. s' ++ t) e)

piece-IsCons : (c : ℕ) (s : List ℕ) → IsPiece c s → IsCons s
piece-IsCons c s (inl (e, h)) = (c, [], e)
piece-IsCons c s (inr e) = (b'=', high c ∷ low c ∷ [], e ∙ to_hex_pair_digits b'=' c)

placed-IsCons : (c : ℕ) (s : List ℕ) → IsPlaced c s → IsCons s
placed-IsCons c s (before, piece, e, break, found) =
    let (x, xs, e') = append-IsCons before piece (piece-IsCons c piece found) in (x, xs, e ∙ e')

-- The text of the loop without its last byte, when that is a blank.
loop_lem :
    (count c : ℕ) (text y : List ℕ)
    → AreBytes (c ∷ text)
    → is_blank (back (encode_from count (c ∷ text)).0) ≡ true
    → (decode (pop_back (encode_from count (c ∷ text)).0 ++ y) ≡ pop_back (c ∷ text) ++ decode y)
      × (back (encode_from count (c ∷ text)).0 ≡ back (c ∷ text))
unfolding encode_from
loop_lem count c [] y (small, bytes) blank =
    let r = rounds count c in
    let e = append-nil (r.0) in
    let (read, last) =
      placed_lem c (r.0) y small (rounds-IsPlaced count c)
        (ap (λ s. is_blank (back s)) (sym e) ∙ blank) in
    (ap (λ s. decode (pop_back s ++ y)) e ∙ read, ap back e ∙ last)
loop_lem count c (d ∷ text) y (small, bytes) blank =
    let r = rounds count c in
    let rest = (encode_from (r.1) (d ∷ text)).0 in
    let next = rounds (r.1) d in
    let (x, xs, e) =
      IsCons-append (next.0) (encode_from (next.1) text).0
        (placed-IsCons d (next.0) (rounds-IsPlaced (r.1) d)) in
    let (popped, last) = pop_back-append (r.0) x xs in
    let whole = ap (λ s. r.0 ++ s) e in
    let last' = ap back whole ∙ (last ∙ sym (ap back e)) in
    let popped' = ap pop_back whole ∙ (popped ∙ sym (ap (λ s. r.0 ++ pop_back s) e)) in
    let (read, same_back) = loop_lem (r.1) d text y bytes (ap is_blank (sym last') ∙ blank) in
    (
      ap (λ s. decode (s ++ y)) popped'
          ∙ (ap decode (append_assoc (r.0) (pop_back rest) y)
              ∙ (decode-placed c (r.0) (pop_back rest ++ y) small (rounds-IsPlaced count c)
                  ∙ ap (λ s. c ∷ s) read)),
      last' ∙ same_back,
    )

pub snoc_lem : (c : ℕ) (text : List ℕ) → pop_back (c ∷ text) ++ back (c ∷ text) ∷ [] ≡ c ∷ text
snoc_lem c [] = refl
snoc_lem c (d ∷ text) = ap (λ s. c ∷ s) (snoc_lem d text)

back_byte : (c : ℕ) (text : List ℕ) → AreBytes (c ∷ text) → back (c ∷ text) < 256
back_byte c [] (small, bytes) = small
back_byte c (d ∷ text) (small, bytes) = back_byte d text bytes

-- The break before the last pair, if there is no place for it.
abbrev pub last_break : ℕ → List ℕ
last_break count = if ltb max_line_limit (count - 1 + 3) then soft_break else []

pub close_blank :
    (res : List ℕ) (count : ℕ)
    → is_blank (back res) ≡ true
    → close_line (res, count) ≡ pop_back res ++ (last_break count ++ to_hex_pair b'=' (back res))
unfolding close_line
close_blank res count e = rw e refl

pub close_plain :
    (res : List ℕ) (count : ℕ) → is_blank (back res) ≡ false → close_line (res, count) ≡ res
unfolding close_line
close_plain res count e = rw e refl

last_break-IsBreak : (count : ℕ) → IsBreak (last_break count)
last_break-IsBreak count =
    if-holds IsBreak soft_break [] (ltb max_line_limit (count - 1 + 3)) (inr refl) (inl refl)

decode_nil : decode [] ≡ []
unfolding decode
decode_nil = refl

-- Decoding the quoted-printable text of any bytes gives the bytes back, wherever lines are broken
-- and whatever the last byte is.
pub decode-encode_lines : (text : List ℕ) → AreBytes text → decode (encode text) ≡ text
unfolding encode
decode-encode_lines [] bytes = decode_nil
decode-encode_lines (c ∷ text) bytes =
    let looped = encode_from 0 (c ∷ text) in
    let res = looped.0 in
    let count = looped.1 in
    let last = back (c ∷ text) in
    elim (Bool-cases (is_blank (back res))) [
      | inl e ↦
          let pair = to_hex_pair b'=' (back res) in
          let (read, same_back) = loop_lem 0 c text (last_break count ++ pair) bytes e in
          let small = subst (λ d. d < 256) (sym same_back) (back_byte c text bytes) in
          let one = decode-piece (back res) pair [] small (inr refl) in
          ap decode (close_blank res count e)
          ∙ (read
              ∙ (ap (λ s. pop_back (c ∷ text) ++ s)
                    (decode-break (last_break count) pair (last_break-IsBreak count)
                      ∙ (ap decode (sym (append-nil pair))
                          ∙ (one ∙ ap₂ (λ d s. d ∷ s) same_back decode_nil)))
                  ∙ snoc_lem c text))
      | inr e ↦
          ap decode (close_plain res count e ∙ sym (append-nil res))
          ∙ (decode-encode_from 0 (c ∷ text) [] bytes
              ∙ (ap (λ s. c ∷ (text ++ s)) decode_nil ∙ append-nil (c ∷ text)))
    ]
