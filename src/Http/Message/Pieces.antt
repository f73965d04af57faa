-- ===== src/Http/Message/Pieces.antt =====
-- src/httplib/httplib.cc: a body of a given length that arrives in pieces.
use angel.Prelude.{
  ℕ, ◌+◌, ◌-◌, ◌<◌, ◌≡◌, refl, ◌∙◌, List, [], ◌∷◌, ◌++◌, true, false, arith, leb, length, take,
  length-append, append_assoc, Option, none, some, Bool-cases, inl, inr, take-append_ge,
  drop-append_ge,
}
use angel.Http.Message.{Message, Headers, Outcome, parsed, overrun, by_content_length}
use angel.Http.Status.{StatusCode, continue}

abbrev pub together : List (List ℕ) → List ℕ
together [] = []
together (piece ∷ pieces) = piece ++ together pieces

-- The code of every piece but the last, which may complete the body.
abbrev pub feed : Message → List (List ℕ) → List ℕ → Outcome
feed m [] last = by_content_length m last
feed m (piece ∷ pieces) last = elim (by_content_length m piece) [
  | parsed continue m' rest ↦ feed m' pieces last
  | o ↦ o
]

-- What a reader sees: the code, the fields, the body and the unread bytes.
abbrev pub seen : Outcome → Option (StatusCode × Headers × List ℕ × List ℕ)
seen (parsed code m rest) = some (code, m.headers, m.body, rest)
seen overrun = none

abbrev after : Message → List ℕ → Message
after m piece = record m { body = m.body ++ piece; length_left = m.length_left - length piece }

piece_lem :
    (m : Message) (piece : List ℕ)
    → length piece < m.length_left
    → by_content_length m piece ≡ parsed continue (after m piece) []
unfolding by_content_length
piece_lem m piece short =
    let few : leb m.length_left (length piece) ≡ false = ground arith in rw few refl

split_lem :
    (m : Message) (piece rest : List ℕ)
    → length piece < m.length_left
    → seen (by_content_length (after m piece) rest) ≡ seen (by_content_length m (piece ++ rest))
unfolding by_content_length
split_lem m piece rest short =
    let n = m.length_left in
    let size : length (piece ++ rest) ≡ length piece + length rest = length-append piece rest in
    elim (Bool-cases (leb n (length piece + length rest))) [
      | inl e ↦
          let e' : leb (n - length piece) (length rest) ≡ true = ground arith in
          rw
            (
              size,
              e,
              e',
              take-append_ge n piece rest (omega arith),
              drop-append_ge n piece rest (omega arith),
              append_assoc m.body piece (take (n - length piece) rest),
            )
            refl
      | inr e ↦
          let e' : leb (n - length piece) (length rest) ≡ false = ground arith in
          rw (size, e, e', append_assoc m.body piece rest) refl
    ]

-- A body of a given length that arrives in pieces is read as if it arrived at once: the code, the
-- body, the fields and the bytes left for the next request are the same, wherever the pieces are
-- cut. (All but the last piece are less than the length together.)
pub feed-by_content_length :
    (m : Message) (pieces : List (List ℕ)) (last : List ℕ)
    → length (together pieces) < m.length_left
    → seen (feed m pieces last) ≡ seen (by_content_length m (together pieces ++ last))
feed-by_content_length m [] last short = refl
feed-by_content_length m (piece ∷ pieces) last short =
    let size = length-append piece (together pieces) in
    let first = piece_lem m piece (omega arith) in
    let rest = feed-by_content_length (after m piece) pieces last (omega arith) in
    rw (first, seen, feed)
      (rest
        ∙ (split_lem m piece (together pieces ++ last) (omega arith)
            ∙ rw (append_assoc piece (together pieces) last) refl))
