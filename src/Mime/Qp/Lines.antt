-- ===== src/Mime/Qp/Lines.antt =====
-- src/mime/qp.cc: the lines of an encoded text.
use angel.Prelude.{
  ℕ, ◌+◌, ◌-◌, ◌≤◌, ◌<◌, ◌≡◌, refl, ap, sym, subst, List, [], ◌∷◌, ◌++◌, true, false, ◌&&◌, Option,
  none, some, leb, ltb, ◌==◌, Bool-cases, Option-cases, inl, inr, arith,
}
use angel.Base64.RoundTrip.{AreBytes}
use angel.Mime.{to_hex_pair, is_hex_number}
use angel.Mime.Hex.{high, low, pair_lem, to_hex_pair_digits}
use angel.Mime.Qp.{
  max_line_limit, soft_break, is_qp_char, place, rounds, encode_from, back, pop_back, encode,
}
use angel.Mime.Qp.Pieces.{place-zero}
use angel.Mime.Qp.RoundTrip.{is_blank, snoc_lem, last_break, close_blank, close_plain}
use angel.Mime.Qp.Columns.{
  widest, column, widest-append, widest-prefix, column-append, Leads, Leads-append, empty-Leads,
}

soft_break-Leads : (col : ℕ) → col ≤ 75 → Leads col soft_break 0
unfolding Leads
soft_break-Leads col h = (omega arith, refl)

one-Leads :
    (col c : ℕ) → col ≤ 75 → (c == 10) ≡ false → (c == 13) ≡ false → Leads col (c ∷ []) (col + 1)
unfolding Leads
one-Leads col c h e e' = (rw (e, e') (omega arith), rw (e, e') refl)

digit_lem : (d : ℕ) → is_hex_number d ≡ true → ((d == 10) ≡ false) × ((d == 13) ≡ false)
unfolding is_hex_number
digit_lem d h = (ground arith, ground arith)

pair-Leads : (col c : ℕ) → c < 256 → col + 3 ≤ 76 → Leads col (to_hex_pair b'=' c) (col + 3)
unfolding Leads
pair-Leads col c small h =
    let (h1, h2, value) = pair_lem c small in
    let (a, b) = digit_lem (high c) h1 in
    let (a', b') = digit_lem (low c) h2 in
    let three : col + 1 + 1 + 1 ≡ col + 3 = omega arith in
    rw (to_hex_pair_digits b'=' c, a, b, a', b') (omega arith, three)

-- What is appended leads to the new count, which leaves place for the '=' of a break.
abbrev LeadsOn : ℕ → List ℕ × ℕ → Type 0
LeadsOn count r = Leads count (r.0) (r.1) × (r.1 ≤ 75)

abbrev MaybeLeads : ℕ → Option (List ℕ × ℕ) → Type 0
MaybeLeads count none = Unit {0}
MaybeLeads count (some r) = LeadsOn count r

qp_lem : (c : ℕ) → is_qp_char c ≡ true → ((c == 10) ≡ false) × ((c == 13) ≡ false)
unfolding is_qp_char
qp_lem c h = (ground arith, ground arith)

place-MaybeLeads : (count c : ℕ) → c < 256 → count ≤ 75 → MaybeLeads count (place count c)
unfolding place
place-MaybeLeads count c small h =
    elim (Bool-cases (leb (count + 1) (max_line_limit - 1) && is_qp_char c)) [
      | inl e ↦
          let text : is_qp_char c ≡ true = ground arith in
          let room : count + 1 ≤ 75 = ground arith in
          let (a, b) = qp_lem c text in rw e (one-Leads count c h a b, room)
      | inr e ↦ elim (Bool-cases (leb (count + 3) (max_line_limit - 1))) [
        | inl e' ↦
            let room : count + 3 ≤ 75 = ground arith in
            rw (e, e') (pair-Leads count c small (omega arith), room)
        | inr e' ↦ rw (e, e') tt
      ]
    ]

rounds-LeadsOn : (count c : ℕ) → c < 256 → count ≤ 75 → LeadsOn count (rounds count c)
unfolding rounds
rounds-LeadsOn count c small h = elim (Option-cases (place count c)) [
  | inl e ↦
      let (r, e0) = place-zero c in
      let (leads, few) : LeadsOn 0 r =
        subst (MaybeLeads 0) e0 (place-MaybeLeads 0 c small (omega arith)) in
      rw (e, e0, rounds)
        (Leads-append count 0 (r.1) soft_break (r.0) (soft_break-Leads count h) leads, few)
  | inr (r, e) ↦
      let leads : LeadsOn count r = subst (MaybeLeads count) e (place-MaybeLeads count c small h) in
      rw (e, rounds) leads
]

encode_from-LeadsOn :
    (count : ℕ) (text : List ℕ)
    → AreBytes text
    → count ≤ 75
    → LeadsOn count (encode_from count text)
unfolding encode_from
encode_from-LeadsOn count [] bytes h = (empty-Leads count h, h)
encode_from-LeadsOn count (c ∷ text) (small, bytes) h =
    let (leads, few) = rounds-LeadsOn count c small h in
    let r = rounds count c in
    let (leads', few') = encode_from-LeadsOn (r.1) text bytes few in
    (Leads-append count (r.1) _ (r.0) _ leads leads', few')

blank_byte : (c : ℕ) → is_blank c ≡ true → (c < 256) × ((c == 10) ≡ false) × ((c == 13) ≡ false)
blank_byte c h = (ground arith, ground arith, ground arith)

-- The last pair, on the line of the blank that it stands for or on a new one.
last_pair-short :
    (count c : ℕ)
    → c < 256
    → count ≤ 75
    → widest (count - 1) (last_break count ++ to_hex_pair b'=' c) ≤ 76
unfolding Leads
last_pair-short count c small h =
    let pair = to_hex_pair b'=' c in
    let fresh = pair-Leads 0 c small (omega arith) in
    let broken =
      Leads-append (count - 1) 0 3 soft_break pair (soft_break-Leads (count - 1) (omega arith))
        fresh in
    elim (Bool-cases (ltb max_line_limit (count - 1 + 3))) [
      | inl e ↦ rw e (broken.0)
      | inr e ↦
          let room : count - 1 + 3 ≤ 76 = ground arith in
          rw e ((pair-Leads (count - 1) c small room).0)
    ]

-- A text that leads to a count and ends in a blank: without the blank it leads one column less far.
popped-Leads :
    (s : List ℕ) (count : ℕ)
    → is_blank (back s) ≡ true
    → Leads 0 s count
    → Leads 0 (pop_back s) (count - 1)
unfolding Leads
popped-Leads [] count blank leads = absurd (ground arith)
popped-Leads (x ∷ xs) count blank (wide, last) =
    let p = pop_back (x ∷ xs) in
    let b = back (x ∷ xs) in
    let whole = snoc_lem x xs in
    let (small, a, a') = blank_byte b blank in
    let part = widest-prefix 0 p (b ∷ []) in
    let wide' = subst (λ s. widest 0 s ≤ 76) (sym whole) wide in
    let one : column (column 0 p) (b ∷ []) ≡ column 0 p + 1 = rw (a, a') refl in
    let cols = ap (column 0) whole in
    (omega (arith, part, wide'), omega (arith, column-append 0 p (b ∷ []), one, cols, last))

-- No line of an encoded text is longer than 76 bytes, its line break not counted, whatever the
-- bytes are.
pub encode-max_line_limit :
    (text : List ℕ) → AreBytes text → widest 0 (encode text) ≤ max_line_limit
unfolding encode Leads
encode-max_line_limit [] bytes = omega arith
encode-max_line_limit (c ∷ text) bytes =
    let looped = encode_from 0 (c ∷ text) in
    let res = looped.0 in
    let count = looped.1 in
    let (leads, few) = encode_from-LeadsOn 0 (c ∷ text) bytes (omega arith) in
    elim (Bool-cases (is_blank (back res))) [
      | inl e ↦
          let (wide, last) = popped-Leads res count e leads in
          let (small, a, a') = blank_byte (back res) e in
          let y = last_break count ++ to_hex_pair b'=' (back res) in
          let short : widest (column 0 (pop_back res)) y ≤ 76 =
            subst (λ k. widest k y ≤ 76) (sym last) (last_pair-short count (back res) small few) in
          subst (λ s. widest 0 s ≤ 76) (sym (close_blank res count e))
            (widest-append 0 (pop_back res) y wide short)
      | inr e ↦ subst (λ s. widest 0 s ≤ 76) (sym (close_plain res count e)) (leads.0)
    ]
