-- ===== src/Mime/Qp/Tests.antt =====
-- Tests of src/mime/qp.cc and src/mime/codec.cc on concrete texts.
use angel.Prelude.{◌≤◌, ℕ, ◌≡◌, refl, List, [], ◌∷◌, ◌++◌, codes, arith}
use angel.Base64.RoundTrip.{AreBytes}
use angel.Mime.{to_hex_pair, from_hex_pair, to_hex_value, is_hex_number, hex_digit}
use angel.Mime.Qp.{
  max_line_limit, encode, decode, encode_from, rounds, place, is_qp_char, close_line, escaped,
}
use angel.Mime.Qp.Columns.{widest}
use angel.Mime.Qp.Lines.{encode-max_line_limit}
use angel.Mime.Qp.RoundTrip.{decode-encode_lines}

abbrev text : List ℕ
text = codes "a=b " ++ 200 ∷ 9 ∷ []

encode_sample : encode text ≡ codes "a=3Db =C8=09"
unfolding encode encode_from rounds place is_qp_char close_line to_hex_pair hex_digit
encode_sample = refl

-- The byte behind a sequence that is no pair is lost with it.
decode_illegal : decode (codes "=4xy") ≡ codes "=4y"
unfolding decode escaped is_hex_number from_hex_pair to_hex_value
decode_illegal = refl

text-AreBytes : AreBytes text
text-AreBytes =
    (omega arith, (omega arith, (omega arith, (omega arith, (omega arith, (omega arith, tt))))))

decode-encode_lines_example : decode (encode text) ≡ text
decode-encode_lines_example = decode-encode_lines text text-AreBytes

encode-max_line_limit_example : widest 0 (encode text) ≤ max_line_limit
encode-max_line_limit_example = encode-max_line_limit text text-AreBytes
