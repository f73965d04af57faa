-- ===== src/Mime/Qp/Pieces.antt =====
-- src/mime/qp.cc: what one byte becomes, and how it is read back.
use angel.Prelude.{
  ℕ, ◌+◌, ◌-◌, ◌<◌, ◌≡◌, ◌⊎◌, inl, inr, refl, subst, ◌∙◌, List, [], ◌∷◌, ◌++◌, append_assoc, true,
  false, ◌&&◌, Option, none, some, leb, ◌==◌, Bool-cases, Option-cases, arith,
}
use angel.Connection.Stream.{if-holds}
use angel.Mime.{to_hex_pair, from_hex_pair, is_hex_number}
use angel.Mime.Hex.{high, low, pair_lem, to_hex_pair_digits}
use angel.Mime.Qp.{max_line_limit, soft_break, is_qp_char, place, rounds, escaped, decode}

-- A byte that is no '=' is copied.
pub decode-plain : (c : ℕ) (t : List ℕ) → (c == b'=') ≡ false → decode (c ∷ t) ≡ c ∷ decode t
unfolding decode
decode-plain c [] h = rw h refl
decode-plain c (c1 ∷ []) h = rw (h, decode) refl
decode-plain c (c1 ∷ c2 ∷ t) h = rw (h, decode) refl

decode-digits :
    (c1 c2 : ℕ) (t : List ℕ)
    → is_hex_number c1 ≡ true
    → is_hex_number c2 ≡ true
    → decode (b'=' ∷ c1 ∷ c2 ∷ t) ≡ from_hex_pair c1 c2 ∷ decode t
unfolding decode escaped
decode-digits c1 c2 t h1 h2 = rw (h1, h2) refl

decode-pair : (c : ℕ) (t : List ℕ) → c < 256 → decode (to_hex_pair b'=' c ++ t) ≡ c ∷ decode t
decode-pair c t small =
    let (h1, h2, value) = pair_lem c small in
    rw (to_hex_pair_digits b'=' c, decode-digits (high c) (low c) t h1 h2, value) refl

pub decode-soft_break : (t : List ℕ) → decode (soft_break ++ t) ≡ decode t
unfolding decode escaped is_hex_number
decode-soft_break t = refl

-- What may stand before a byte, and what the byte becomes.
abbrev pub IsBreak : List ℕ → Type 0
IsBreak s = (s ≡ []) ⊎ (s ≡ soft_break)

abbrev pub IsPiece : ℕ → List ℕ → Type 0
IsPiece c s = ((s ≡ c ∷ []) × (is_qp_char c ≡ true)) ⊎ (s ≡ to_hex_pair b'=' c)

pub decode-break : (s t : List ℕ) → IsBreak s → decode (s ++ t) ≡ decode t
decode-break s t (inl e) = rw e refl
decode-break s t (inr e) = rw e (decode-soft_break t)

not_eq : (c : ℕ) → is_qp_char c ≡ true → (c == b'=') ≡ false
unfolding is_qp_char
not_eq c h = ground arith

pub decode-piece : (c : ℕ) (s t : List ℕ) → c < 256 → IsPiece c s → decode (s ++ t) ≡ c ∷ decode t
decode-piece c s t small (inl (e, h)) = rw e (decode-plain c t (not_eq c h))
decode-piece c s t small (inr e) = rw e (decode-pair c t small)

-- The bytes of a branch that is taken.
abbrev MaybePiece : ℕ → Option (List ℕ × ℕ) → Type 0
MaybePiece c none = Unit {0}
MaybePiece c (some r) = IsPiece c (r.0)

place-MaybePiece : (count c : ℕ) → MaybePiece c (place count c)
unfolding place
place-MaybePiece count c =
    elim (Bool-cases (leb (count + 1) (max_line_limit - 1) && is_qp_char c)) [
      | inl e ↦ let text : is_qp_char c ≡ true = ground arith in rw e (inl (refl, text))
      | inr e ↦
          rw e (if-holds (MaybePiece c) _ _ (leb (count + 3) (max_line_limit - 1)) (inr refl) tt)
    ]

-- At the begin of a line there is place for every byte.
pub place-zero : (c : ℕ) → (r : List ℕ × ℕ) × (place 0 c ≡ some r)
unfolding place
place-zero c = elim (Bool-cases (is_qp_char c)) [
  | inl e ↦ ((c ∷ [], 1), rw e refl)
  | inr e ↦ ((to_hex_pair b'=' c, 3), rw e refl)
]

-- What the rounds for a byte append: a break or nothing, and the byte.
abbrev pub IsPlaced : ℕ → List ℕ → Type 0
IsPlaced c s =
    (before : List ℕ) × (piece : List ℕ) × (s ≡ before ++ piece) × IsBreak before × IsPiece c piece

pub rounds-IsPlaced : (count c : ℕ) → IsPlaced c (rounds count c).0
unfolding rounds
rounds-IsPlaced count c = elim (Option-cases (place count c)) [
  | inl e ↦
      let (r, e0) = place-zero c in
      let piece : MaybePiece c (some r) = subst (MaybePiece c) e0 (place-MaybePiece 0 c) in
      rw (e, e0, rounds) (soft_break, r.0, refl, inr refl, piece)
  | inr (r, e) ↦
      let piece : MaybePiece c (some r) = subst (MaybePiece c) e (place-MaybePiece count c) in
      rw (e, rounds) ([], r.0, refl, inl refl, piece)
]

-- What the rounds for a byte append is read back as the byte.
pub decode-placed : (c : ℕ) (s t : List ℕ) → c < 256 → IsPlaced c s → decode (s ++ t) ≡ c ∷ decode t
decode-placed c s t small (before, piece, e, break, found) =
    rw (e, append_assoc before piece t)
      (decode-break before (piece ++ t) break ∙ decode-piece c piece t small found)
