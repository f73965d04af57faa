-- ===== src/Http/Uri/RoundTrip.antt =====
-- src/httplib/httplib.cc: decoding an address that was encoded.
use angel.Prelude.{
  ℕ, ◌<◌, ◌≡◌, refl, List, [], ◌∷◌, ◌++◌, true, false, ◌==◌, Bool-cases, inl, inr, arith,
}
use angel.Base64.RoundTrip.{AreBytes}
use angel.Mime.{to_hex_pair, from_hex_pair, is_hex_number}
use angel.Mime.Hex.{high, low, pair_lem, to_hex_pair_digits}
use angel.Util.{is_digit}
use angel.Http.Uri.{is_plain, encode, decode}

-- A byte that is no '%' is copied.
pub decode-plain :
    (c : ℕ) (uri : List ℕ)
    → (c == b'%') ≡ false
    → decode (c ∷ uri) ≡ ((decode uri).0, c ∷ (decode uri).1)
unfolding decode
decode-plain c [] h = rw h
decode-plain c (c1 ∷ []) h = rw (h, decode)
decode-plain c (c1 ∷ c2 ∷ uri) h = rw (h, decode)

-- A pair of digits is read back as its byte.
decode-pair :
    (c1 c2 : ℕ) (uri : List ℕ)
    → is_hex_number c1 ≡ true
    → is_hex_number c2 ≡ true
    → decode (b'%' ∷ c1 ∷ c2 ∷ uri) ≡ ((decode uri).0, from_hex_pair c1 c2 ∷ (decode uri).1)
unfolding decode
decode-pair c1 c2 uri h1 h2 = rw (h1, h2) refl

decode-encoded :
    (c : ℕ) (uri : List ℕ)
    → c < 256
    → decode (to_hex_pair b'%' c ++ uri) ≡ ((decode uri).0, c ∷ (decode uri).1)
decode-encoded c uri small =
    let (h1, h2, value) = pair_lem c small in
    rw (to_hex_pair_digits b'%' c, decode-pair (high c) (low c) uri h1 h2, value) refl

plain_percent : (c : ℕ) → is_plain c ≡ true → (c == b'%') ≡ false
unfolding is_plain is_digit
plain_percent c h = ground arith

-- Decoding what was encoded gives the bytes back, whatever they are.
pub decode-encode_escapes : (uri : List ℕ) → AreBytes uri → decode (encode uri) ≡ (true, uri)
unfolding decode encode
decode-encode_escapes [] bytes = refl
decode-encode_escapes (c ∷ uri) (small, bytes) =
    let rest = decode-encode_escapes uri bytes in
    elim (Bool-cases (is_plain c)) [
      | inl p ↦ rw (p, decode-plain c (encode uri) (plain_percent c p), rest) refl
      | inr p ↦ rw (p, decode-encoded c (encode uri) small, rest) refl
    ]
