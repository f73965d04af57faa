-- ===== src/Mime/Qp/Columns.antt =====
-- src/mime/qp.cc: the columns that a text takes.
use angel.Prelude.{
  ℕ, max, ◌+◌, ◌≤◌, ◌≡◌, refl, ap, sym, subst, ◌∙◌, List, [], ◌∷◌, ◌++◌, ◌==◌, if◌then◌else◌,
  Bool-cases, inl, inr, arith,
}

-- The longest line, CR and LF not counted, and the last column, of a text that begins in a column.
abbrev pub widest : ℕ → List ℕ → ℕ
widest col [] = col
widest col (c ∷ s) =
    let fresh = widest 0 s in
    let same = widest col s in
    let further = widest (col + 1) s in
    if c == 10 then max col fresh else if c == 13 then same else further

abbrev pub column : ℕ → List ℕ → ℕ
column col [] = col
column col (c ∷ s) =
    let fresh = column 0 s in
    let same = column col s in
    let further = column (col + 1) s in if c == 10 then fresh else if c == 13 then same else further

-- What a byte does in any column: it begins a line, is not counted, or is one column.
Steps : ℕ → (ℕ → ℕ) → Type 0
Steps c move =
    (col : ℕ) (s : List ℕ)
    → (widest col (c ∷ s) ≡ max col (widest (move col) s))
      × (column col (c ∷ s) ≡ column (move col) s)

widest-start : (col : ℕ) (s : List ℕ) → col ≤ widest col s
widest-start col [] = omega arith
widest-start col (c ∷ s) = ground (arith, widest-start col s, widest-start (col + 1) s)

step_lem : (c : ℕ) → (move : ℕ → ℕ) × Steps c move
unfolding Steps
step_lem c = elim (Bool-cases (c == 10)) [
  | inl e ↦ (λ col. 0, λ col s. (rw e refl, rw e refl))
  | inr e ↦ elim (Bool-cases (c == 13)) [
    | inl e' ↦ (
      λ col. col,
      λ col s. let start = widest-start col s in (rw (e, e') (omega arith), rw (e, e') refl),
    )
    | inr e' ↦ (
      λ col. col + 1,
      λ col s. let start = widest-start (col + 1) s in (rw (e, e') (omega arith), rw (e, e') refl),
    )
  ]
]

pub widest-append :
    (col : ℕ) (s t : List ℕ)
    → widest col s ≤ 76
    → widest (column col s) t ≤ 76
    → widest col (s ++ t) ≤ 76
unfolding Steps
widest-append col [] t h h' = h'
widest-append col (c ∷ s) t h h' =
    let (move, steps) = step_lem c in
    let (wide, last) = steps col s in
    let rest =
      widest-append (move col) s t (omega (arith, wide)) (subst (λ k. widest k t ≤ 76) last h') in
    omega (arith, wide, rest, (steps col (s ++ t)).0)

pub widest-prefix : (col : ℕ) (s t : List ℕ) → widest col s ≤ widest col (s ++ t)
unfolding Steps
widest-prefix col [] t = widest-start col t
widest-prefix col (c ∷ s) t =
    let (move, steps) = step_lem c in
    omega (arith, (steps col s).0, (steps col (s ++ t)).0, widest-prefix (move col) s t)

pub column-append : (col : ℕ) (s t : List ℕ) → column col (s ++ t) ≡ column (column col s) t
unfolding Steps
column-append col [] t = refl
column-append col (c ∷ s) t =
    let (move, steps) = step_lem c in
    (steps col (s ++ t)).1
    ∙ (column-append (move col) s t ∙ ap (λ k. column k t) (sym (steps col s).1))

-- From a column to a column, in lines of at most 76 bytes.
unfoldable pub Leads : ℕ → List ℕ → ℕ → Type 0
Leads col s col' = (widest col s ≤ 76) × (column col s ≡ col')

pub Leads-append : (a b c : ℕ) (s t : List ℕ) → Leads a s b → Leads b t c → Leads a (s ++ t) c
unfolding Leads
Leads-append a b c s t (wide, last) (wide', last') = (
  widest-append a s t wide (subst (λ k. widest k t ≤ 76) (sym last) wide'),
  column-append a s t ∙ (ap (λ k. column k t) last ∙ last'),
)

pub empty-Leads : (col : ℕ) → col ≤ 75 → Leads col [] col
unfolding Leads
empty-Leads col h = (omega arith, refl)
