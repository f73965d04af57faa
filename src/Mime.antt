-- ===== src/Mime.antt =====
-- The codecs of MIME: include/angel/mime.h, src/mime/codec.cc and src/mime/qp.cc.
pub mod Qp
pub mod Hex
use angel.Prelude.{
  ℕ, zero, suc, ◌+◌, ◌-◌, ◌*◌, ◌/◌, ◌%◌, ◌≡◌, List, [], ◌∷◌, Bool, true, false, ◌&&◌, ◌||◌, bit_or,
  bit_and, codes, get_or, leb, ltb, ◌==◌, if◌then◌else◌,
}
use angel.Base64.{encode, decode, mime}

-- A digit of `tohex`.
unfoldable pub hex_digit : ℕ → ℕ
hex_digit d = get_or (codes "0123456789ABCDEF") d 0

-- An unsigned byte behind a mark: its two digits in base 16.
unfoldable pub to_hex_pair : ℕ → ℕ → List ℕ
unfolding hex_digit
to_hex_pair leading_char c = leading_char ∷ hex_digit (c / 16) ∷ hex_digit (c % 16) ∷ []

-- -1 as a byte is 255.
unfoldable pub to_hex_value : ℕ → ℕ
to_hex_value c =
    if leb b'0' c && leb c b'9'
    then c - b'0'
    else if leb b'A' c && leb c b'F'
    then c - b'A' + 10
    else if leb b'a' c && leb c b'f'
    then c - b'a' + 10
    else 255

unfoldable pub from_hex_pair : ℕ → ℕ → ℕ
unfolding to_hex_value
from_hex_pair c1 c2 = bit_or (to_hex_value c1 * 16) (to_hex_value c2) % 256

-- `ishexnumber`, a digit in base 16.
unfoldable pub is_hex_number : ℕ → Bool
is_hex_number c =
    (leb b'0' c && leb c b'9') || (leb b'A' c && leb c b'F') || (leb b'a' c && leb c b'f')

unfoldable pub encode_base64 : List ℕ → List ℕ
encode_base64 text = encode mime text

unfoldable pub decode_base64 : List ℕ → List ℕ
decode_base64 text = decode mime text

unfoldable pub decode_ascii : List ℕ → Bool
decode_ascii [] = true
decode_ascii (c ∷ text) = bit_and c 0x80 == 0 && decode_ascii text

unfoldable pub encode_7or8bit : List ℕ → List ℕ
unfolding decode_ascii
encode_7or8bit text = if decode_ascii text then codes "7bit" else codes "8bit"
