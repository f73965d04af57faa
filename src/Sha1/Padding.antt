-- ===== src/Sha1/Padding.antt =====
-- src/sha1.cc against the SHA-1 of Sha1/Standard: the digest of a text given in one piece.
use mathlib.Core.Option
use angel.Prelude.{
  ℕ, ◌+◌, ◌-◌, ◌*◌, ◌/◌, ◌%◌, ◌≤◌, ◌≡◌, ◌≢◌, refl, ap, ap₂, sym, ◌∙◌, List, [], ◌++◌, some, none,
  true, false, arith, length, take, drop, replicate, be64, drop-length, length-drop, length-take,
  length-append, length-replicate, take-append-drop, append_assoc, Bool-cases, inl, inr, ltb,
}
use angel.Sha1.{
  Sha1, init, initial, update, absorb, digest, final_cal, padding, padding_bytes, padding_zeros,
  extra_chunk, chunk_cal,
}
use angel.Sha1.Standard.{suffix, padded, words, sha1_of}
use angel.Sha1.Rounds.{chunk_cal-hash_value}
use angel.Sha1.Chunks.{chunk_cal-append, chunk_cal-whole}

pub length-padded : (text : List ℕ) → length (padded text) % 64 ≡ 0
length-padded text = omega (
  arith,
  length-append text (suffix (length text)),
  length-append (replicate ((119 - length text % 64) % 64) 0) (be64 (length text * 8)),
  length-replicate {A = ℕ} ((119 - length text % 64) % 64) 0,
)

-- The arithmetic of `padding`.
pub zeros_lem : (size : ℕ) → padding_zeros size ≡ (119 - size % 64) % 64
unfolding padding_zeros
zeros_lem size = ground arith

pub remain_lem :
    (size : ℕ) → size % 64 ≢ 63 → 64 * (extra_chunk size + 1) ≡ size % 64 + padding_bytes size
unfolding padding_bytes
remain_lem size h = ground arith

pub remain_negative :
    (size : ℕ) → size % 64 ≡ 63 → ltb (64 * (extra_chunk size + 1)) (padding_bytes size) ≡ true
unfolding padding_bytes
remain_negative size h = ground arith

-- `padding` keeps the last `size % 64` bytes of the buffer.
pub padding_lem :
    (buf : List ℕ) (size : ℕ)
    → size % 64 ≢ 63
    → size % 64 ≤ length buf
    → padding buf size ≡ some (drop (length buf - size % 64) buf ++ suffix size)
unfolding padding
padding_lem buf size h fits =
    let remain = remain_lem size h in
    let r : 64 * (extra_chunk size + 1) - padding_bytes size ≡ size % 64 = omega arith in
    let fine : ltb (64 * (extra_chunk size + 1)) (padding_bytes size) ≡ false = ground arith in
    let inside : ltb (length buf) (size % 64) ≡ false = ground arith in
    rw (fine, r, inside, zeros_lem size)

pub padding_throws : (buf : List ℕ) (size : ℕ) → size % 64 ≡ 63 → padding buf size ≡ none
unfolding padding
padding_throws buf size h = rw (remain_negative size h)

-- The state after one `update`.
pub update-init :
    (text : List ℕ)
    → update init text ≡ record {
      h = chunk_cal (length text / 64) text initial;
      buf = drop (length text - length text % 64) text;
      payload = length text;
    }
unfolding update absorb
update-init text =
    let counted : 0 + length text ≡ length text = omega arith in
    elim (Bool-cases (ltb 0 (length text % 64))) [
      | inl left ↦ rw (left, counted) refl
      | inr whole ↦
          rw (whole, counted, drop-length (length text - length text % 64) text (ground arith)) refl
    ]

-- The chunks of the text and then those of the rest are the chunks of the padded text.
module _ (text tail : List ℕ) where
  abbrev whole : ℕ
  whole = length text / 64

  abbrev kept : List ℕ
  kept = drop (64 * whole) text

  chunks_in_two :
      chunk_cal (length (kept ++ tail) / 64) (kept ++ tail) (chunk_cal whole text initial)
      ≡ chunk_cal (length (text ++ tail) / 64) (text ++ tail) initial
  chunks_in_two =
      let head = take (64 * whole) text in
      let size : length head ≡ 64 * whole = omega (arith, length-take (64 * whole) text) in
      let parts : head ++ kept ≡ text = take-append-drop (64 * whole) text in
      let all : head ++ (kept ++ tail) ≡ text ++ tail =
        sym (append_assoc head kept tail) ∙ ap (λ t. t ++ tail) parts in
      let count : whole + length (kept ++ tail) / 64 ≡ length (text ++ tail) / 64 =
        omega (
          arith,
          length-append kept tail,
          length-append text tail,
          length-drop (64 * whole) text,
        ) in
      ap (chunk_cal (length (kept ++ tail) / 64) (kept ++ tail)) (
        ap (λ t. chunk_cal whole t initial) (sym parts)
        ∙ chunk_cal-whole whole head kept initial size)
      ∙ sym (chunk_cal-append whole (length (kept ++ tail) / 64) head (kept ++ tail) initial size)
      ∙ ap₂ (λ k t. chunk_cal k t initial) count all

pub digest_of :
    (s : Sha1) (p : List ℕ)
    → padding s.buf s.payload ≡ some p
    → digest s ≡ some (words (chunk_cal (length p / 64) p s.h), init)
unfolding digest final_cal
digest_of s p e = rw (e, final_cal, digest)

kept-eq :
    (text : List ℕ)
    → drop (length text - length text % 64) text ≡ drop (64 * (length text / 64)) text
kept-eq text =
    ap (λ k. drop k text)
      (let e : length text - length text % 64 ≡ 64 * (length text / 64) = omega arith in e)

-- A text of any length that does not leave the remainder 63 by 64, given in one piece, has the
-- digest of SHA-1 as FIPS 180-4 defines it (its own constants, functions, schedule of words, rounds
-- and padding, in Sha1/Standard), and the object is ready for another text.
pub digest-update :
    (text : List ℕ) → length text % 64 ≢ 63 → digest (update init text) ≡ some (sha1_of text, init)
digest-update text h =
    let size = length text in
    let rest = kept text [] in
    let short : length rest ≡ size % 64 = omega (arith, length-drop (64 * (size / 64)) text) in
    let pads : padding rest size ≡ some (rest ++ suffix size) =
      padding_lem rest size h (omega arith)
      ∙ ap (λ k. some (drop k rest ++ suffix size))
          (let e : length rest - size % 64 ≡ 0 = omega arith in e) in
    ap digest (
      update-init text
      ∙ ap (λ b. record { h = chunk_cal (size / 64) text initial; buf = b; payload = size })
          (kept-eq text))
    ∙ digest_of (record { h = chunk_cal (size / 64) text initial; buf = rest; payload = size })
        (rest ++ suffix size) pads
    ∙ ap (λ h. some (words h, init))
        (chunks_in_two text (suffix size)
          ∙ chunk_cal-hash_value (length (padded text) / 64) (padded text))

-- A text whose length leaves the remainder 63 by 64 has no digest: `padding` throws.
pub digest-throws : (text : List ℕ) → length text % 64 ≡ 63 → digest (update init text) ≡ none
unfolding digest
digest-throws text h = rw (
  update-init text,
  padding_throws (drop (length text - length text % 64) text) (length text) h,
  Option.map,
)
