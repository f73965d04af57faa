-- ===== src/Sha1/Standard.antt =====
-- The SHA-1 of FIPS 180-4, section by section, written without the definitions of src/sha1.cc: only
-- the record of five words is shared. The Prelude has the numbers' bit operations and bytes.
use angel.Prelude.{
  ℕ, zero, suc, ◌+◌, ◌-◌, ◌*◌, ◌/◌, ◌%◌, ◌^◌, List, [], ◌∷◌, ◌++◌, if◌then◌else◌, bit_and, bit_or,
  bit_xor, length, take, drop, replicate, get_or, ltb, u32, be32, be64, from_be32,
}
use angel.Sha1.{State}

-- 2.2.2 and 3.2: ROTL and the complement of a 32-bit word.
unfoldable pub rotl : ℕ → ℕ → ℕ
rotl n x = bit_or (u32 (x * 2 ^ n)) (x / 2 ^ (32 - n))

-- 4.1.1: the functions f_t.
abbrev ch : ℕ → ℕ → ℕ → ℕ
ch x y z = bit_xor (bit_and x y) (bit_and (2 ^ 32 - 1 - x) z)

abbrev parity : ℕ → ℕ → ℕ → ℕ
parity x y z = bit_xor (bit_xor x y) z

abbrev maj : ℕ → ℕ → ℕ → ℕ
maj x y z = bit_xor (bit_xor (bit_and x y) (bit_and x z)) (bit_and y z)

unfoldable pub f : ℕ → ℕ → ℕ → ℕ → ℕ
f t x y z =
    if ltb t 20
    then ch x y z
    else if ltb t 40
    then parity x y z
    else if ltb t 60
    then maj x y z
    else parity x y z

-- 4.2.1: the constants K_t.
unfoldable pub k : ℕ → ℕ
k t =
    if ltb t 20
    then 1518500249
    else if ltb t 40
    then 1859775393
    else if ltb t 60
    then 2400959708
    else 3395469782

-- 6.1.2: the word W_t of a message block, from the words before it.
unfoldable pub word : List ℕ → List ℕ → ℕ → ℕ
unfolding rotl
word block before t =
    if ltb t 16
    then from_be32 (get_or block (4 * t) 0) (get_or block (4 * t + 1) 0)
        (get_or block (4 * t + 2) 0) (get_or block (4 * t + 3) 0)
    else rotl 1 (
        bit_xor
          (bit_xor (bit_xor (get_or before (t - 3) 0) (get_or before (t - 8) 0))
            (get_or before (t - 14) 0))
          (get_or before (t - 16) 0))

-- The words W_0 to W_(t - 1).
unfoldable pub words_before : List ℕ → ℕ → List ℕ
unfolding word
words_before block zero = []
words_before block (suc t) = let w = words_before block t in w ++ word block w t ∷ []

pub record Variables : Type 0 where
  pub a : ℕ
  pub b : ℕ
  pub c : ℕ
  pub d : ℕ
  pub e : ℕ

-- The working variables after the first rounds of a block.
unfoldable pub variables : List ℕ → State → ℕ → Variables
unfolding f k word words_before
variables block h zero = record { a = h.h0; b = h.h1; c = h.h2; d = h.h3; e = h.h4 }
variables block h (suc t) =
    let v = variables block h t in
    let w = word block (words_before block t) t in
    record {
      a = u32 (rotl 5 v.a + f t v.b v.c v.d + v.e + k t + w);
      b = v.a;
      c = rotl 30 v.b;
      d = v.c;
      e = v.d;
    }

unfoldable pub compress : List ℕ → State → State
unfolding variables
compress block h =
    let v = variables block h 80 in
    record {
      h0 = u32 (h.h0 + v.a);
      h1 = u32 (h.h1 + v.b);
      h2 = u32 (h.h2 + v.c);
      h3 = u32 (h.h3 + v.d);
      h4 = u32 (h.h4 + v.e);
    }

-- 5.3.1, and the hash value after the first blocks of a padded message.
unfoldable pub hash_value : List ℕ → ℕ → State
unfolding compress
hash_value message zero = record {
  h0 = 1732584193;
  h1 = 4023233417;
  h2 = 2562383102;
  h3 = 271733878;
  h4 = 3285377520;
}
hash_value message (suc i) = compress (take 64 (drop (64 * i) message)) (hash_value message i)

-- 5.1.1: a text followed by a bit '1', zeros up to 8 bytes short of a whole block, and its size in
-- bits (on 64 bits).
abbrev pub suffix : ℕ → List ℕ
suffix size = 0x80 ∷ (replicate ((119 - size % 64) % 64) 0 ++ be64 (size * 8))

abbrev pub padded : List ℕ → List ℕ
padded text = text ++ suffix (length text)

abbrev pub words : State → List ℕ
words h = be32 h.h0 ++ be32 h.h1 ++ be32 h.h2 ++ be32 h.h3 ++ be32 h.h4

-- The digest of a text.
abbrev pub sha1_of : List ℕ → List ℕ
sha1_of text = words (hash_value (padded text) (length (padded text) / 64))
