-- ===== src/Http/Validators/Tags.antt =====
-- src/httplib/util.cc: what the comparisons of entity tags decide.
use angel.Prelude.{
  ℕ, zero, suc, ◌+◌, ◌≡◌, refl, ap, ◌∙◌, List, [], ◌∷◌, ◌++◌, Bool, true, false, not, ◌&&◌, codes,
  leb, length, drop, length-append, get_or, arith,
}
use angel.Mime.Qp.{back}
use angel.Util.{same, starts_with}
use angel.Http.Validators.{
  is_strong_etag, is_weak_etag, is_etag, strong_etag_equal, weak_etag_equal, opaque, check_date,
  check_date_format, check_time,
}

-- An entity tag: weak or strong, and the text between its quotes.
abbrev pub etag : Bool → List ℕ → List ℕ
etag false s = b'"' ∷ (s ++ b'"' ∷ [])
etag true s = b'W' ∷ b'/' ∷ b'"' ∷ (s ++ b'"' ∷ [])

back-snoc : (c : ℕ) (s : List ℕ) (d : ℕ) → back (c ∷ (s ++ d ∷ [])) ≡ d
back-snoc c [] d = refl
back-snoc c (x ∷ s) d = back-snoc x s d

same-snoc : (s t : List ℕ) (c : ℕ) → same (s ++ c ∷ []) (t ++ c ∷ []) ≡ same s t
same-snoc [] [] c = ground arith
same-snoc [] (y ∷ []) c = ground arith
same-snoc [] (y ∷ z ∷ t) c = ground arith
same-snoc (x ∷ []) [] c = ground arith
same-snoc (x ∷ z ∷ s) [] c = ground arith
same-snoc (x ∷ s) (y ∷ t) c = rw (same-snoc s t c) refl

strong_lem : (s : List ℕ) → is_strong_etag (etag false s) ≡ true
unfolding is_strong_etag
strong_lem s =
    let two : leb 2 (length (etag false s)) ≡ true = ground (arith, length-append s (b'"' ∷ [])) in
    rw (two, back-snoc b'"' s b'"') refl

weak_strong : (s : List ℕ) → is_strong_etag (etag true s) ≡ false
unfolding is_strong_etag
weak_strong s = let two : leb 2 (length (etag true s)) ≡ true = ground arith in rw two refl

same-etag : (s t : List ℕ) → same (etag false s) (etag false t) ≡ same s t
same-etag s t = same-snoc s t b'"'

strong_lem' : (weak : Bool) (s : List ℕ) → is_strong_etag (etag weak s) ≡ not weak
strong_lem' false s = strong_lem s
strong_lem' true s = weak_strong s

starts_lem : (weak : Bool) (s : List ℕ) → starts_with (etag weak s) (codes "W/") ≡ weak
unfolding starts_with
starts_lem false [] = refl
starts_lem false (c ∷ s) =
    let two : leb 2 (length (etag false (c ∷ s))) ≡ true = ground arith in rw two refl
starts_lem true s = let two : leb 2 (length (etag true s)) ≡ true = ground arith in rw two refl

is_etag_lem : (weak : Bool) (s : List ℕ) → is_etag (etag weak s) ≡ true
unfolding is_etag is_weak_etag
is_etag_lem false s = rw (strong_lem s) refl
is_etag_lem true s = rw (weak_strong s, starts_lem true s, strong_lem s) refl

opaque_lem : (weak : Bool) (s : List ℕ) → opaque (etag weak s) ≡ etag false s
opaque_lem false s = rw (starts_lem false s) refl
opaque_lem true s = rw (starts_lem true s) refl

-- Of two entity tags the weak comparison decides whether their opaque texts are the same, and the
-- strong one whether they are and both tags are strong, whatever the texts are.
pub etag_equal_lem :
    (weak1 weak2 : Bool) (s t : List ℕ)
    → (weak_etag_equal (etag weak1 s) (etag weak2 t) ≡ same s t)
      × (strong_etag_equal (etag weak1 s) (etag weak2 t) ≡ (not weak1 && not weak2 && same s t))
unfolding weak_etag_equal strong_etag_equal
etag_equal_lem weak1 weak2 s t = (weak_lem, strong_cases weak1 weak2)
  where
    weak_lem : weak_etag_equal (etag weak1 s) (etag weak2 t) ≡ same s t
    weak_lem =
        rw (is_etag_lem weak1 s, is_etag_lem weak2 t, opaque_lem weak1 s, opaque_lem weak2 t)
          (same-etag s t)

    strong_cases :
        (w1 w2 : Bool) → strong_etag_equal (etag w1 s) (etag w2 t) ≡ (not w1 && not w2 && same s t)
    strong_cases false false = rw (strong_lem s, strong_lem t) (same-etag s t)
    strong_cases true w2 = rw (weak_strong s) refl
    strong_cases false true = rw (strong_lem s, weak_strong t) refl

get_or-drop : (n : ℕ) (s : List ℕ) (i : ℕ) → get_or (drop n s) i 0 ≡ get_or s (n + i) 0
get_or-drop zero s i = ap (λ k. get_or s k 0) (omega arith)
get_or-drop (suc n) [] i = refl
get_or-drop (suc n) (x ∷ s) i =
    let e : suc n + i ≡ suc (n + i) = omega arith in rw e (get_or-drop n s i)

and_false : (b : Bool) → (b && false) ≡ false
and_false true = refl
and_false false = refl

check_time-gmt : (p : List ℕ) → get_or p 11 0 ≡ b'T' → check_time p ≡ false
unfolding check_time
check_time-gmt p e = rw e (ground arith)

-- A date that ends in 'T', as every date in GMT does, is refused, whatever is before it.
pub check_date_format-gmt :
    (date : List ℕ) → get_or date 28 0 ≡ b'T' → check_date_format date ≡ false
unfolding check_date_format
check_date_format-gmt date e =
    let p = drop 12 (drop 5 date) in
    let last : get_or p 11 0 ≡ b'T' =
      get_or-drop 12 (drop 5 date) 11 ∙ (get_or-drop 5 date 23 ∙ e) in
    ap (λ b. check_date date && b) (check_time-gmt p last) ∙ and_false (check_date date)
