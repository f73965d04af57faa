-- ===== src/Buffer.antt =====
-- The input and output buffer: include/angel/buffer.h and src/buffer.cc.
-- A write through a pointer that would leave `buf` is `none`.
pub mod Laws
pub mod Queue
pub mod Runs
pub mod Search
pub mod Tests
use angel.Prelude.{
  ℕ, zero, suc, ◌+◌, ◌-◌, ◌≡◌, List, [], ◌∷◌, ◌++◌, Bool, true, false, Option, none, some, ◌&&◌,
  length, take, drop, replicate, set, ltb, leb, ◌==◌, if◌then◌else◌,
}
use mathlib.Core.Option

pub record Buffer : Type 0 where
  pub buf : List ℕ
  pub read_index : ℕ
  pub write_index : ℕ

abbrev pub init_size : ℕ
init_size = 1024

unfoldable pub sized : ℕ → Buffer
sized size = record { buf = replicate size 0; read_index = 0; write_index = 0 }

unfoldable pub empty : Buffer
unfolding sized
empty = sized init_size

abbrev pub prependable : Buffer → ℕ
prependable b = b.read_index

abbrev pub readable : Buffer → ℕ
readable b = b.write_index - b.read_index

abbrev pub writeable : Buffer → ℕ
writeable b = length b.buf - b.write_index

-- The bytes between `peek()` and `end()`.
abbrev pub contents : Buffer → List ℕ
contents b = drop b.read_index (take b.write_index b.buf)

infixl 5 ◌>>=◌
abbrev ◌>>=◌ {ℓ κ} : {A : Type ℓ} {B : Type κ} → Option A → (A → Option B) → Option B
none >>= f = none
some a >>= f = f a

-- `std::copy` to a position of the vector, byte by byte.
unfoldable pub overwrite : List ℕ → List ℕ → Option (List ℕ)
overwrite [] buf = some buf
overwrite (x ∷ xs) [] = none
overwrite (x ∷ xs) (b ∷ buf) = Option.map (λ rest. x ∷ rest) (overwrite xs buf)

unfoldable pub copy_to : List ℕ → ℕ → List ℕ → Option (List ℕ)
unfolding overwrite
copy_to xs zero buf = overwrite xs buf
copy_to [] (suc i) [] = none
copy_to (x ∷ xs) (suc i) [] = none
copy_to xs (suc i) (b ∷ buf) = Option.map (λ rest. b ∷ rest) (copy_to xs i buf)

-- Moves the contents to the front, or makes the vector longer.
unfoldable pub make_space : Buffer → ℕ → Option Buffer
unfolding copy_to
make_space b len =
    if ltb (writeable b) len
    then if leb len (writeable b + prependable b)
      then Option.map (λ moved. record { buf = moved; read_index = 0; write_index = readable b })
          (copy_to (contents b) 0 b.buf)
      else some (record b { buf = b.buf ++ replicate (b.write_index + len - length b.buf) 0 })
    else some b

unfoldable pub append : Buffer → List ℕ → Option Buffer
unfolding make_space
append b s = do
  spaced ← make_space b (length s)
  written ← copy_to s spaced.write_index spaced.buf
  some (record spaced { buf = written; write_index = spaced.write_index + length s })

unfoldable pub retrieve : Buffer → ℕ → Buffer
retrieve b len =
    if ltb len (readable b)
    then record b { read_index = b.read_index + len }
    else record b { read_index = 0; write_index = 0 }

unfoldable pub retrieve_all : Buffer → Buffer
unfolding retrieve
retrieve_all b = retrieve b (readable b)

-- The string that `c_str` returns a pointer to runs up to this zero byte.
unfoldable pub c_str : Buffer → Option Buffer
unfolding make_space
c_str b = do
  spaced ← make_space b 1
  written ← copy_to (0 ∷ []) spaced.write_index spaced.buf
  some (record spaced { buf = written })

abbrev pub swap : Buffer → Buffer → Buffer × Buffer
swap b other = (other, b)

abbrev pub extrabuf_size : ℕ
extrabuf_size = 65536

-- What `readv` did: an error, or the bytes it put first into the free space of the vector and
-- then into `extrabuf`. No byte means the end of the stream.
pub data Received : Type 0 where
  failed : Received
  bytes : List ℕ → Received

-- The part that fills the vector, and the rest, which `readv` left in `extrabuf`.
spill : Buffer → List ℕ → Option Buffer
spill b s = do
  filled ← copy_to (take (writeable b) s) b.write_index b.buf
  append (record b { buf = filled; write_index = b.write_index + writeable b })
      (drop (writeable b) s)

unfoldable pub read_fd : Buffer → Received → Option Buffer
unfolding append spill
read_fd b failed = some b
read_fd b (bytes s) =
    if ltb 0 (length s)
    then if leb (length s) (writeable b)
      then Option.map (λ t. record b { buf = t; write_index = b.write_index + length s })
          (copy_to s b.write_index b.buf)
      else spill b s
    else some b
