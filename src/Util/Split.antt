-- ===== src/Util/Split.antt =====
-- include/angel/util.h: `split` against `join`.
use angel.Prelude.{
  ℕ, ◌≡◌, refl, ap, sym, ◌∙◌, List, [], ◌∷◌, ◌++◌, false, inl, inr, Bool-cases, ◌==◌, ==_iff,
  append-nil, append_assoc,
}
use angel.Util.{split, split_from, join}

-- The text does not have the character.
abbrev pub Lacks : ℕ → List ℕ → Type 0
Lacks c [] = Unit {0}
Lacks c (x ∷ s) = ((x == c) ≡ false) × Lacks c s

abbrev pub AllLack : ℕ → List (List ℕ) → Type 0
AllLack c [] = Unit {0}
AllLack c (field ∷ fields) = Lacks c field × AllLack c fields

Lacks-append : (c x : ℕ) (s : List ℕ) → Lacks c s → (x == c) ≡ false → Lacks c (s ++ x ∷ [])
Lacks-append c x [] l e = (e, tt)
Lacks-append c x (y ∷ s) l e = (l.0, Lacks-append c x s l.1 e)

-- There is a first field.
join-split_from_later :
    (c : ℕ) (delimiter first field s : List ℕ)
    → join delimiter (first ∷ split_from c field s)
      ≡ first ++ (delimiter ++ join delimiter (split_from c field s))
unfolding join split_from
join-split_from_later c delimiter first field [] = refl
join-split_from_later c delimiter first field (x ∷ s) = elim (Bool-cases (x == c)) [
  | inl e ↦ rw e refl
  | inr e ↦ rw e (join-split_from_later c delimiter first (field ++ x ∷ []) s)
]

join-split_from : (c : ℕ) (field s : List ℕ) → join (c ∷ []) (split_from c field s) ≡ field ++ s
unfolding split_from
join-split_from c field [] = unfold join in sym (append-nil field)
join-split_from c field (x ∷ s) = elim (Bool-cases (x == c)) [
  | inl e ↦
      let same : x ≡ c = (==_iff x c).0 e in
      rw e (
        join-split_from_later c (c ∷ []) field [] s
        ∙ ap (λ t. field ++ (c ∷ t)) (join-split_from c [] s)
        ∙ ap (λ d. field ++ d ∷ s) (sym same))
  | inr e ↦ rw e (join-split_from c (field ++ x ∷ []) s ∙ append_assoc field (x ∷ []) s)
]

split_from-AllLack : (c : ℕ) (field s : List ℕ) → Lacks c field → AllLack c (split_from c field s)
unfolding split_from
split_from-AllLack c field [] l = (l, tt)
split_from-AllLack c field (x ∷ s) l = elim (Bool-cases (x == c)) [
  | inl e ↦ rw e (l, split_from-AllLack c [] s tt)
  | inr e ↦ rw e (split_from-AllLack c (field ++ x ∷ []) s (Lacks-append c x field l e))
]

-- The fields of `split` have no separator, and joined with the separator they are the text.
pub join-split : (s : List ℕ) (c : ℕ) → (join (c ∷ []) (split s c) ≡ s) × AllLack c (split s c)
unfolding split
join-split s c = (join-split_from c [] s, split_from-AllLack c [] s tt)
