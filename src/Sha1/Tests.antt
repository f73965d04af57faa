-- ===== src/Sha1/Tests.antt =====
-- Runs of src/sha1.cc.
use mathlib.Core.Option
use angel.Prelude.{
  ◌≡◌, refl, [], ◌∷◌, ◌++◌, codes, some, none, length, drop, replicate, arith, true,
}
use angel.Sha1.{hex_digest, digest, file, update, init, chunk_cal, one_chunk}
use angel.Sha1.Standard.{sha1_of, hash_value, variables}
use angel.Sha1.Padding.{digest-update, digest-throws}
use angel.Sha1.Updates.{concat, blocks, file-blocks, digest-update_short}

abc :
    Option.map (λ r. r.0) (hex_digest (update init (codes "abc")))
    ≡ some (codes "A9993E364706816ABA3E25717850C26C9CD0D89D")
unfolding hex_digest update chunk_cal one_chunk
abc = refl

-- The digest of FIPS 180-4 for its first example.
standard_abc :
    sha1_of (codes "abc")
    ≡ 0xA9 ∷ 0x99 ∷ 0x3E ∷ 0x36 ∷ 0x47 ∷ 0x06 ∷ 0x81 ∷ 0x6A ∷ 0xBA ∷ 0x3E ∷ 0x25 ∷ 0x71 ∷ 0x78
      ∷ 0x50 ∷ 0xC2 ∷ 0x6C ∷ 0x9C ∷ 0xD0 ∷ 0xD8 ∷ 0x9D ∷ []
unfolding hash_value variables
standard_abc = refl

digest-update_example : digest (update init (codes "abc")) ≡ some (sha1_of (codes "abc"), init)
digest-update_example = digest-update (codes "abc") (λ e. omega (arith, e))

digest-throws_example : digest (update init (replicate 63 97)) ≡ none
digest-throws_example = digest-throws (replicate 63 97) refl

file-blocks_example :
    file init (blocks (replicate 64 98 ∷ replicate 128 99 ∷ []) (codes "end"))
    ≡ (update init (concat (replicate 64 98 ∷ replicate 128 99 ∷ []) ++ codes "end"), true)
file-blocks_example =
    file-blocks init (replicate 64 98 ∷ replicate 128 99 ∷ []) (codes "end") refl
      (omega arith, refl, (omega arith, refl, omega arith))

digest-update_short_example :
    digest (update (update init (codes "ab")) (codes "c"))
    ≡ digest (update init (drop (length (codes "c")) (codes "ab" ++ codes "c")))
digest-update_short_example =
    digest-update_short (codes "ab") (codes "c") (omega arith) (omega arith) (omega arith)
