-- ===== src/Sha1.antt =====
-- The SHA-1 digest: include/angel/sha1.h and src/sha1.cc.
-- A copy of a negative number of bytes, which throws, is `none`.
pub mod Standard
pub mod Rounds
pub mod Chunks
pub mod Padding
pub mod Updates
pub mod Tests
use angel.Prelude.{
  ℕ, zero, suc, ◌+◌, ◌-◌, ◌*◌, ◌/◌, ◌%◌, ◌^◌, ◌≡◌, List, [], ◌∷◌, ◌++◌, Bool, true, false, Option,
  none, some, bit_and, bit_or, bit_xor, min, length, get_or, take, drop, replicate, codes, ltb, leb,
  ◌==◌, if◌then◌else◌, u32, be32, be64, from_be32,
}
use mathlib.Core.Option

abbrev pub chunk_words : ℕ
chunk_words = 16

abbrev pub chunk_bytes : ℕ
chunk_bytes = chunk_words * 4

-- The five words `h`.
pub record State : Type 0 where
  pub h0 : ℕ
  pub h1 : ℕ
  pub h2 : ℕ
  pub h3 : ℕ
  pub h4 : ℕ

-- Rotate left.
unfoldable pub rls : ℕ → ℕ → ℕ
rls x n = bit_or (u32 (x * 2 ^ n)) (x / 2 ^ (32 - n))

-- `~x` on 32 bits.
abbrev complement : ℕ → ℕ
complement x = 2 ^ 32 - 1 - x

-- The function of the round `i`, and its constant.
unfoldable pub mix : ℕ → ℕ → ℕ → ℕ → ℕ
mix i b c d =
    if ltb i 20
    then bit_xor (bit_and b c) (bit_and (complement b) d)
    else if ltb i 40
    then bit_xor (bit_xor b c) d
    else if ltb i 60
    then bit_xor (bit_xor (bit_and b c) (bit_and b d)) (bit_and c d)
    else bit_xor (bit_xor b c) d

unfoldable pub constant : ℕ → ℕ
constant i =
    if ltb i 20
    then 0x5A827999
    else if ltb i 40
    then 0x6ED9EBA1
    else if ltb i 60
    then 0x8F1BBCDC
    else 0xCA62C1D6

-- `w[i]`: a word of the chunk for the first 16 rounds, and from earlier words after that.
unfoldable pub schedule : List ℕ → List ℕ → ℕ → ℕ
unfolding rls
schedule chunk w i =
    if ltb i 16
    then from_be32 (get_or chunk (4 * i) 0) (get_or chunk (4 * i + 1) 0)
        (get_or chunk (4 * i + 2) 0) (get_or chunk (4 * i + 3) 0)
    else rls
        (bit_xor (bit_xor (bit_xor (get_or w (i - 3) 0) (get_or w (i - 8) 0)) (get_or w (i - 14) 0))
          (get_or w (i - 16) 0))
        1

-- The local variables of `__chunk_cal`; `w` holds the words made so far.
pub record Round : Type 0 where
  pub a : ℕ
  pub b : ℕ
  pub c : ℕ
  pub d : ℕ
  pub e : ℕ
  pub w : List ℕ

unfoldable pub round : List ℕ → ℕ → Round → Round
unfolding mix constant schedule
round chunk i r =
    let wi = schedule chunk r.w i in
    let t = u32 (rls r.a 5 + mix i r.b r.c r.d + r.e + constant i + wi) in
    record { a = t; b = r.a; c = rls r.b 30; d = r.c; e = r.d; w = r.w ++ wi ∷ [] }

-- The rounds from `i` on, with `left` of them to go.
unfoldable pub rounds : List ℕ → ℕ → ℕ → Round → Round
unfolding round
rounds chunk zero i r = r
rounds chunk (suc left) i r = rounds chunk left (i + 1) (round chunk i r)

unfoldable pub one_chunk : List ℕ → State → State
unfolding rounds
one_chunk chunk h =
    let r =
      rounds chunk 80 0 (record { a = h.h0; b = h.h1; c = h.h2; d = h.h3; e = h.h4; w = [] }) in
    record {
      h0 = u32 (h.h0 + r.a);
      h1 = u32 (h.h1 + r.b);
      h2 = u32 (h.h2 + r.c);
      h3 = u32 (h.h3 + r.d);
      h4 = u32 (h.h4 + r.e);
    }

unfoldable pub chunk_cal : ℕ → List ℕ → State → State
chunk_cal zero text h = h
chunk_cal (suc chunks) text h =
    chunk_cal chunks (drop chunk_bytes text) (one_chunk (take chunk_bytes text) h)

abbrev pub initial : State
initial = record {
  h0 = 0x67452301;
  h1 = 0xEFCDAB89;
  h2 = 0x98BADCFE;
  h3 = 0x10325476;
  h4 = 0xC3D2E1F0;
}

pub record Sha1 : Type 0 where
  pub h : State
  pub buf : List ℕ
  pub payload : ℕ

abbrev pub init : Sha1
init = record { h = initial; buf = []; payload = 0 }

-- The numbers of `padding`, for a text of `size` bytes.
unfoldable pub bit_offset : ℕ → ℕ
bit_offset size = (size + 1) * 8 % 512

unfoldable pub extra_chunk : ℕ → ℕ
unfolding bit_offset
extra_chunk size = if leb (bit_offset size) 448 then 0 else 1

unfoldable pub padding_zeros : ℕ → ℕ
unfolding extra_chunk
padding_zeros size = (extra_chunk size * 512 + 448 - bit_offset size) / 8

unfoldable pub padding_bytes : ℕ → ℕ
unfolding padding_zeros
padding_bytes size = 1 + padding_zeros size + 8

-- The last bytes of the text, the bit '1', the zeros and the number of bits. `none` is the
-- exception that `append` throws where `remain_bytes` is negative.
unfoldable pub padding : List ℕ → ℕ → Option (List ℕ)
unfolding padding_bytes
padding buf size =
    let total = chunk_bytes * (extra_chunk size + 1) in
    let remain_bytes = total - padding_bytes size in
    if ltb total (padding_bytes size)
    then none
    else if ltb (length buf) remain_bytes
    then none
    else some (
        drop (length buf - remain_bytes) buf
        ++ 0x80 ∷ (replicate (padding_zeros size) 0 ++ be64 (size * 8)))

unfoldable pub final_cal : Sha1 → Option Sha1
unfolding padding
final_cal s =
    Option.map
      (λ padded. record s { h = chunk_cal (length padded / chunk_bytes) padded s.h; buf = [] })
      (padding s.buf s.payload)

-- The part of `update` that fills a chunk which an earlier call began: the bytes that it leaves.
unfoldable pub top_up : Sha1 → List ℕ → Sha1 × List ℕ
top_up s text =
    let len = min (chunk_bytes - length s.buf) (length text) in
    let filled = s.buf ++ take len text in
    if length filled == chunk_bytes
    then (record s { h = chunk_cal 1 filled s.h; buf = [] }, drop len text)
    else (record s { buf = filled }, drop len text)

-- The rest of `update`: the whole chunks, and the bytes that are kept for later.
unfoldable pub absorb : Sha1 × List ℕ → Sha1
absorb (s, text) =
    let chunks = length text / chunk_bytes in
    let remain_bytes = length text % chunk_bytes in
    record {
      h = chunk_cal chunks text s.h;
      buf = if ltb 0 remain_bytes then s.buf ++ drop (length text - remain_bytes) text else s.buf;
      payload = s.payload + length text;
    }

unfoldable pub update : Sha1 → List ℕ → Sha1
unfolding top_up absorb
update s text = if length s.buf == 0 then absorb (s, text) else absorb (top_up s text)

-- What `read_file` returns for the next 16 KiB: the bytes, none at the end, or an error.
pub data Read : Type 0 where
  block : List ℕ → Read
  failed : Read

-- The loop of `file` over the reads; `false` is a read that failed.
unfoldable pub file : Sha1 → List Read → Sha1 × Bool
file s [] = (s, true)
file s (failed ∷ reads) = (s, false)
file s (block [] ∷ reads) = (s, true)
file s (block (x ∷ xs) ∷ reads) = file (update s (x ∷ xs)) reads

-- The five words as bytes, and the state that the digest leaves.
unfoldable pub digest : Sha1 → Option (List ℕ × Sha1)
unfolding final_cal
digest s =
    Option.map
      (λ f. (be32 f.h.h0 ++ be32 f.h.h1 ++ be32 f.h.h2 ++ be32 f.h.h3 ++ be32 f.h.h4, init))
      (final_cal s)

abbrev to_hex : List ℕ
to_hex = codes "0123456789ABCDEF"

abbrev pub hex_word : ℕ → List ℕ
hex_word h =
    let nibble = λ (k : ℕ). get_or to_hex (bit_and (h / 2 ^ (4 * k)) 0x0f) 0 in
    nibble 7 ∷ nibble 6 ∷ nibble 5 ∷ nibble 4 ∷ nibble 3 ∷ nibble 2 ∷ nibble 1 ∷ nibble 0 ∷ []

unfoldable pub hex_digest : Sha1 → Option (List ℕ × Sha1)
unfolding final_cal
hex_digest s =
    Option.map
      (λ f. (
        hex_word f.h.h0 ++ hex_word f.h.h1 ++ hex_word f.h.h2 ++ hex_word f.h.h3 ++ hex_word f.h.h4,
        init,
      ))
      (final_cal s)
