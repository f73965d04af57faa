-- ===== src/Buffer/Search.antt =====
-- `find`, `starts_with` and `starts_with_case` of include/angel/buffer.h.
use angel.Prelude.{
  subst, sym, ℕ, zero, suc, ◌+◌, ◌<◌, ◌≡◌, refl, List, [], ◌∷◌, ◌++◌, Bool, true, false, Option,
  none, some, arith, length, drop, ◌==◌, ◌&&◌, leb, if◌then◌else◌, Bool-cases, inl, inr,
}
use angel.Buffer.{Buffer, contents}
use mathlib.Core.Option

-- `readable() >= s.size() && memcmp(peek(), s.data(), s.size()) == 0`
unfoldable pub is_prefix : List ℕ → List ℕ → Bool
is_prefix [] xs = true
is_prefix (p ∷ ps) [] = false
is_prefix (p ∷ ps) (x ∷ xs) = p == x && is_prefix ps xs

unfoldable pub starts_with : Buffer → List ℕ → Bool
unfolding is_prefix
starts_with b s = is_prefix s (contents b)

-- `::tolower` in the C locale.
unfoldable pub lower : ℕ → ℕ
lower c = if leb b'A' c && leb c b'Z' then c + 32 else c

-- `strncasecmp` stops where both texts end in a zero byte.
unfoldable pub is_prefix_case : List ℕ → List ℕ → Bool
unfolding lower
is_prefix_case [] xs = true
is_prefix_case (p ∷ ps) [] = false
is_prefix_case (p ∷ ps) (x ∷ xs) =
    lower p == lower x && (if p == 0 then leb (length ps) (length xs) else is_prefix_case ps xs)

unfoldable pub starts_with_case : Buffer → List ℕ → Bool
unfolding is_prefix_case
starts_with_case b s = is_prefix_case s (contents b)

-- `std::search`: the offset of the first occurrence. At the end of the text it is `none`, the
-- -1 of `find`.
unfoldable pub search_first : List ℕ → List ℕ → Option ℕ
unfolding is_prefix
search_first pattern [] = none
search_first pattern (x ∷ xs) =
    if is_prefix pattern (x ∷ xs) then some 0 else Option.map suc (search_first pattern xs)

unfoldable pub find : Buffer → List ℕ → Option ℕ
unfolding search_first
find b pattern = search_first pattern (contents b)

abbrev pub crlf : List ℕ
crlf = 13 ∷ 10 ∷ []

unfoldable pub find_crlf : Buffer → Option ℕ
unfolding find
find_crlf b = find b crlf

unfoldable pub find_lf : Buffer → Option ℕ
unfolding find
find_lf b = find b (10 ∷ [])

-- A prefix test finds the pattern at the head.
is_prefix-append : (ps xs : List ℕ) → is_prefix ps xs ≡ true → xs ≡ ps ++ drop (length ps) xs
unfolding is_prefix
is_prefix-append [] xs h = refl
is_prefix-append (p ∷ ps) [] h = absurd (ground arith)
is_prefix-append (p ∷ ps) (x ∷ xs) h = ground (arith, is_prefix-append ps xs)

pub is_prefix_self : (ps xs : List ℕ) → is_prefix ps (ps ++ xs) ≡ true
unfolding is_prefix
is_prefix_self [] xs = refl
is_prefix_self (p ∷ ps) xs = ground (arith, is_prefix_self ps xs)

-- Where the search stops, the pattern stands there and at no place before it; where it finds
-- nothing, the pattern stands at no place of the text.
pub record IsFirst (pattern text : List ℕ) (i : ℕ) : Type 0 where
  pub here : is_prefix pattern (drop i text) ≡ true
  pub earlier : (j : ℕ) → j < i → is_prefix pattern (drop j text) ≡ false

abbrev pub Finds : List ℕ → List ℕ → Option ℕ → Type 0
Finds pattern text none = (j : ℕ) → j < length text → is_prefix pattern (drop j text) ≡ false
Finds pattern text (some i) = (i < length text) × IsFirst pattern text i

Finds-later :
    (pattern : List ℕ) (x : ℕ) (xs : List ℕ) (found : Option ℕ)
    → is_prefix pattern (x ∷ xs) ≡ false
    → Finds pattern xs found
    → Finds pattern (x ∷ xs) (Option.map suc found)
Finds-later pattern x xs none miss f = λ j h. later j h
  where
    later : (j : ℕ) → j < suc (length xs) → is_prefix pattern (drop j (x ∷ xs)) ≡ false
    later zero h = miss
    later (suc j) h = f j (omega arith)
Finds-later pattern x xs (some i) miss f =
    (omega (arith, f.0), record { here = f.1.here; earlier = before })
  where
    before : (j : ℕ) → j < suc i → is_prefix pattern (drop j (x ∷ xs)) ≡ false
    before zero h = miss
    before (suc j) h = f.1.earlier j (omega arith)

search_first-Finds : (pattern text : List ℕ) → Finds pattern text (search_first pattern text)
unfolding search_first
search_first-Finds pattern [] = λ j h. absurd (omega arith)
search_first-Finds pattern (x ∷ xs) = elim (Bool-cases (is_prefix pattern (x ∷ xs))) [
  | inl hit ↦
      subst
        (λ t.
          Finds pattern (x ∷ xs) (if t then some 0 else Option.map suc (search_first pattern xs)))
        (sym hit) (omega arith, record { here = hit; earlier = λ j h. absurd (omega arith) })
  | inr miss ↦
      subst
        (λ t.
          Finds pattern (x ∷ xs) (if t then some 0 else Option.map suc (search_first pattern xs)))
        (sym miss) (Finds-later pattern x xs _ miss (search_first-Finds pattern xs))
]

-- `find` returns the offset of the first occurrence of the pattern in the unread bytes, and -1
-- exactly when no offset holds one.
pub find-Finds : (b : Buffer) (pattern : List ℕ) → Finds pattern (contents b) (find b pattern)
unfolding find
find-Finds b pattern = search_first-Finds pattern (contents b)
