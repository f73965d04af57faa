-- ===== src/Http/Ranges/Bounds.antt =====
-- src/httplib/httplib.cc: the ranges that a request can ask for.
use angel.Prelude.{
  ℕ, zero, suc, ◌<◌, ◌≤◌, subst, List, [], ◌∷◌, ◌++◌, not, ◌||◌, Option, none, some, arith, codes,
  leb, ltb, ◌==◌, length, drop, if◌then◌else◌, Bool-cases, inl, inr, Option-cases,
}
use angel.Connection.Stream.{if-holds}
use angel.Util.{is_digit, split, starts_with, trim}
use angel.Http.Integers.{ℤ, pos, negsuc}
use angel.Http.Status.{StatusCode}
use angel.Http.Ranges.{
  ByteRange, upto, byte_pos, parse_last, parse_positions, parse_fields, parse_byte_range_spec,
  suffix, parse_suffix_byte_range_spec, parse_spec, parse_specs, parse_byte_ranges,
}

-- The positions are in order and inside the file.
abbrev pub IsWithin : ℕ → ByteRange → Type 0
IsWithin filesize r = (r.first_byte_pos ≤ r.last_byte_pos) × (r.last_byte_pos < filesize)

abbrev pub AllWithin : ℕ → List ByteRange → Type 0
AllWithin filesize [] = Unit {0}
AllWithin filesize (r ∷ ranges) = IsWithin filesize r × AllWithin filesize ranges

-- What a parser of one range gives, if anything.
abbrev MaybeWithin : ℕ → Option ByteRange → Type 0
MaybeWithin filesize none = Unit {0}
MaybeWithin filesize (some r) = IsWithin filesize r

AllWithin-snoc :
    (filesize : ℕ) (ranges : List ByteRange) (r : ByteRange)
    → AllWithin filesize ranges
    → IsWithin filesize r
    → AllWithin filesize (ranges ++ r ∷ [])
AllWithin-snoc filesize [] r all h = (h, tt)
AllWithin-snoc filesize (x ∷ ranges) r (h, all) h' = (h, AllWithin-snoc filesize ranges r all h')

upto-MaybeWithin :
    (filesize first last : ℕ)
    → first < filesize
    → first ≤ last
    → MaybeWithin filesize (upto filesize first last)
upto-MaybeWithin filesize first last h h' =
    let P = λ (n : ℕ). (first ≤ n) × (n < filesize) in
    elim (Bool-cases (leb filesize last)) [
      | inl e ↦ rw e (omega arith, omega arith)
      | inr e ↦ let small : last < filesize = ground arith in rw e (h', small)
    ]

module _ (filesize : ℕ) where
  last_lem :
      (first : ℕ) (last : ℤ)
      → first < filesize
      → MaybeWithin filesize (elim last [
        | negsuc n ↦ none
        | pos n ↦ if ltb n first then none else upto filesize first n
      ])
  last_lem first (negsuc n) h = tt
  last_lem first (pos n) h = elim (Bool-cases (ltb n first)) [
    | inl e ↦ rw e tt
    | inr e ↦
        let order : first ≤ n = ground arith in rw e (upto-MaybeWithin filesize first n h order)
  ]

  parse_last-MaybeWithin :
      (first : ℕ) (s : List ℕ)
      → first < filesize
      → MaybeWithin filesize (parse_last filesize first s)
  unfolding parse_last
  parse_last-MaybeWithin first [] h = (omega arith, omega arith)
  parse_last-MaybeWithin first (c ∷ s) h = last_lem first (byte_pos (trim (c ∷ s))) h

  parse_positions-MaybeWithin :
      (first : ℤ) (s : List ℕ) → MaybeWithin filesize (parse_positions filesize first s)
  unfolding parse_positions
  parse_positions-MaybeWithin (negsuc n) s = tt
  parse_positions-MaybeWithin (pos first) s = elim (Bool-cases (leb filesize first)) [
    | inl e ↦ rw e tt
    | inr e ↦
        let small : first < filesize = ground arith in rw e (parse_last-MaybeWithin first s small)
  ]

  parse_fields-MaybeWithin :
      (fields : List (List ℕ)) → MaybeWithin filesize (parse_fields filesize fields)
  parse_fields-MaybeWithin [] = tt
  parse_fields-MaybeWithin (x ∷ []) = tt
  parse_fields-MaybeWithin (x ∷ y ∷ []) = parse_positions-MaybeWithin (byte_pos (trim x)) y
  parse_fields-MaybeWithin (x ∷ y ∷ z ∷ fields) = tt

  suffix-MaybeWithin : (n : ℤ) → 0 < filesize → MaybeWithin filesize (suffix filesize n)
  unfolding suffix
  suffix-MaybeWithin (negsuc n) h = tt
  suffix-MaybeWithin (pos zero) h = tt
  suffix-MaybeWithin (pos (suc n)) h = (omega arith, omega arith)

  parse_spec-MaybeWithin :
      (spec : List ℕ) → 0 < filesize → MaybeWithin filesize (parse_spec filesize spec)
  unfolding parse_spec parse_byte_range_spec parse_suffix_byte_range_spec
  parse_spec-MaybeWithin [] h = tt
  parse_spec-MaybeWithin (c ∷ []) h = tt
  parse_spec-MaybeWithin (c ∷ d ∷ spec) h =
      if-holds (MaybeWithin filesize) _ _ (c == b'-')
        (if-holds (MaybeWithin filesize) _ _ (is_digit d)
          (suffix-MaybeWithin (byte_pos (d ∷ spec)) h) tt)
        (parse_fields-MaybeWithin (split (c ∷ d ∷ spec) b'-'))

  parse_specs-AllWithin :
      (specs : List (List ℕ)) (ranges : List ByteRange)
      → 0 < filesize
      → AllWithin filesize ranges
      → AllWithin filesize (parse_specs filesize specs ranges).1
  unfolding parse_specs
  parse_specs-AllWithin [] ranges h all = all
  parse_specs-AllWithin (spec ∷ specs) ranges h all =
      elim (Option-cases (parse_spec filesize (trim spec))) [
        | inl e ↦ rw (e, parse_specs) all
        | inr (r, e) ↦
            let within : MaybeWithin filesize (some r) =
              subst (MaybeWithin filesize) e (parse_spec-MaybeWithin (trim spec) h) in
            rw (e, parse_specs)
              (parse_specs-AllWithin specs (ranges ++ r ∷ []) h
                (AllWithin-snoc filesize ranges r all within))
      ]

-- Whatever the field `Range` has, every range that is taken from it for a file that is not empty
-- has its positions in order and inside the file.
pub parse_byte_ranges-AllWithin :
    (filesize : ℕ) (range : List ℕ)
    → 0 < filesize
    → AllWithin filesize (parse_byte_ranges filesize range).1
unfolding parse_byte_ranges
parse_byte_ranges-AllWithin filesize range h =
    let P = λ (r : StatusCode × List ByteRange). AllWithin filesize (r.1) in
    if-holds P _ _ (not (starts_with range (codes "bytes=")) || length (drop 6 range) == 0) tt
      (parse_specs-AllWithin filesize (split (drop 6 range) b',') [] h tt)
