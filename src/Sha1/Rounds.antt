-- ===== src/Sha1/Rounds.antt =====
-- src/sha1.cc: the rounds of a chunk and the chunks of a text compute the hash value of SHA-1.
use angel.Prelude.{
  ℕ, zero, suc, ◌+◌, ◌*◌, ◌≡◌, refl, ap, ap₂, ◌∙◌, List, [], arith, take, drop, drop-drop, u32,
}
use angel.Sha1.{
  State, Round, round, rounds, one_chunk, chunk_cal, initial, mix, constant, schedule, rls,
}
use angel.Sha1.Standard.{rotl, f, k, word, words_before, variables, compress, hash_value}

-- The local variables of a chunk before the round `i`.
abbrev at_round : List ℕ → State → ℕ → Round
at_round block h i =
    let v = variables block h i in
    record { a = v.a; b = v.b; c = v.c; d = v.d; e = v.e; w = words_before block i }

round_lem :
    (block : List ℕ) (h : State) (i : ℕ)
    → round block i (at_round block h i) ≡ at_round block h (suc i)
unfolding round mix constant schedule rls rotl f k word words_before variables
round_lem block h i = refl

rounds_lem :
    (block : List ℕ) (h : State) (left i : ℕ)
    → rounds block left i (at_round block h i) ≡ at_round block h (i + left)
unfolding rounds
rounds_lem block h zero i = ap (at_round block h) (let z : i ≡ i + 0 = omega arith in z)
rounds_lem block h (suc left) i =
    ap₂ (rounds block left) (let s : i + 1 ≡ suc i = omega arith in s) (round_lem block h i)
    ∙ rounds_lem block h left (suc i)
    ∙ ap (at_round block h) (let s : suc i + left ≡ i + suc left = omega arith in s)

-- The words of the chunk added to those of before.
abbrev added : State → Round → State
added h r = record {
  h0 = u32 (h.h0 + r.a);
  h1 = u32 (h.h1 + r.b);
  h2 = u32 (h.h2 + r.c);
  h3 = u32 (h.h3 + r.d);
  h4 = u32 (h.h4 + r.e);
}

first_round :
    (block : List ℕ) (h : State)
    → record { a = h.h0; b = h.h1; c = h.h2; d = h.h3; e = h.h4; w = [] } ≡ at_round block h 0
unfolding variables words_before
first_round block h = refl

pub one_chunk-compress : (block : List ℕ) (h : State) → one_chunk block h ≡ compress block h
unfolding one_chunk compress
one_chunk-compress block h =
    ap (λ r. added h (rounds block 80 0 r)) (first_round block h)
    ∙ ap (added h) (rounds_lem block h 80 0)

-- The chunks behind the first `i` continue the hash value of those.
chunk_cal-from :
    (n i : ℕ) (message : List ℕ)
    → chunk_cal n (drop (64 * i) message) (hash_value message i) ≡ hash_value message (i + n)
unfolding chunk_cal
chunk_cal-from zero i message = ap (hash_value message) (let z : i ≡ i + 0 = omega arith in z)
chunk_cal-from (suc n) i message =
    let rest = drop (64 * i) message in
    let next : drop 64 rest ≡ drop (64 * suc i) message =
      drop-drop 64 (64 * i) message
      ∙ ap (λ j. drop j message) (let s : 64 * i + 64 ≡ 64 * suc i = omega arith in s) in
    let here : one_chunk (take 64 rest) (hash_value message i) ≡ hash_value message (suc i) =
      unfold hash_value in one_chunk-compress (take 64 rest) (hash_value message i) in
    ap₂ (chunk_cal n) next here
    ∙ chunk_cal-from n (suc i) message
    ∙ ap (hash_value message) (let s : suc i + n ≡ i + suc n = omega arith in s)

first_value : (message : List ℕ) → initial ≡ hash_value message 0
unfolding hash_value
first_value message = refl

pub chunk_cal-hash_value :
    (n : ℕ) (message : List ℕ) → chunk_cal n message initial ≡ hash_value message n
chunk_cal-hash_value n message =
    ap₂ (chunk_cal n) (let z : message ≡ drop (64 * 0) message = refl in z) (first_value message)
    ∙ chunk_cal-from n 0 message
    ∙ ap (hash_value message) (let z : 0 + n ≡ n = omega arith in z)
