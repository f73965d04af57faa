-- ===== src/Http/Validators.antt =====
-- Entity tags and dates: src/httplib/util.cc.
pub mod Tags
use angel.Prelude.{
  ℕ, zero, suc, ◌+◌, ◌-◌, ◌%◌, ◌≡◌, List, [], ◌∷◌, ◌++◌, Bool, true, false, not, ◌&&◌, ◌||◌, Option,
  none, some, codes, leb, ltb, ◌==◌, length, drop, take, get_or, if◌then◌else◌,
}
use angel.Mime.Qp.{back}
use angel.Util.{Integer, same, starts_with, svtoi}

unfoldable pub is_strong_etag : List ℕ → Bool
is_strong_etag etag = leb 2 (length etag) && get_or etag 0 0 == b'"' && back etag == b'"'

unfoldable pub is_weak_etag : List ℕ → Bool
unfolding starts_with is_strong_etag
is_weak_etag etag = starts_with etag (codes "W/") && is_strong_etag (drop 2 etag)

unfoldable pub is_etag : List ℕ → Bool
unfolding is_strong_etag is_weak_etag
is_etag etag = is_strong_etag etag || is_weak_etag etag

unfoldable pub strong_etag_equal : List ℕ → List ℕ → Bool
unfolding is_strong_etag
strong_etag_equal etag1 etag2 = is_strong_etag etag1 && is_strong_etag etag2 && same etag1 etag2

abbrev pub opaque : List ℕ → List ℕ
opaque etag = if starts_with etag (codes "W/") then drop 2 etag else etag

unfoldable pub weak_etag_equal : List ℕ → List ℕ → Bool
unfolding is_etag starts_with
weak_etag_equal etag1 etag2 = is_etag etag1 && is_etag etag2 && same (opaque etag1) (opaque etag2)

abbrev pub wkdays : List (List ℕ)
wkdays =
    codes "Mon"
    ∷ codes "Tue"
    ∷ codes "Wed"
    ∷ codes "Thu"
    ∷ codes "Fri"
    ∷ codes "Sat"
    ∷ codes "Sun"
    ∷ []

abbrev pub months : List (List ℕ)
months =
    codes "Jan"
    ∷ codes "Feb"
    ∷ codes "Mar"
    ∷ codes "Apr"
    ∷ codes "May"
    ∷ codes "Jun"
    ∷ codes "Jul"
    ∷ codes "Aug"
    ∷ codes "Sep"
    ∷ codes "Oct"
    ∷ codes "Nov"
    ∷ codes "Dec"
    ∷ []

-- The number of a text in a table, from 1 on.
abbrev pub place : List (List ℕ) → List ℕ → Option ℕ
place [] s = none
place (x ∷ xs) s =
    let rest = place xs s in
    if same x s then some 1 else elim rest [ none ↦ none | some n ↦ some (suc n) ]

abbrev pub days : Bool → List ℕ
days leap =
    0 ∷ 31 ∷ (if leap then 29 else 28) ∷ 31 ∷ 30 ∷ 31 ∷ 30 ∷ 31 ∷ 31 ∷ 30 ∷ 31 ∷ 30 ∷ 31 ∷ []

unfoldable pub is_leap : ℕ → Bool
is_leap year = (year % 4 == 0 && not (year % 100 == 0)) || year % 400 == 0

-- A number from one bound to another.
abbrev pub between : ℕ → ℕ → Option Integer → Bool
between lo hi none = false
between lo hi (some n) = leb lo n.size && leb n.size hi && (not n.negative || n.size == 0)

abbrev pub positive : Option Integer → Option ℕ
positive none = none
positive (some n) = if n.negative || n.size == 0 then none else some n.size

abbrev pub part : ℕ → ℕ → List ℕ → List ℕ
part first len s = take len (drop first s)

-- The day of the month, behind the weekday.
abbrev pub check_day : Option ℕ → Option ℕ → Option Integer → Bool
check_day none month day = false
check_day (some year) none day = false
check_day (some year) (some month) day = between 1 (get_or (days (is_leap year)) month 0) day

unfoldable pub check_time : List ℕ → Bool
unfolding svtoi
check_time p =
    get_or p 2 0 == b':'
    && get_or p 5 0 == b':'
    && get_or p 8 0 == b' '
    && not (get_or p 0 0 == b'-' || get_or p 3 0 == b'-' || get_or p 6 0 == b'-')
    && between 0 23 (svtoi (part 0 2 p))
    && between 0 59 (svtoi (part 3 2 p))
    && between 0 59 (svtoi (part 6 2 p))
    && (get_or p 9 0 == b'G' && get_or p 10 0 == b'M' && get_or p 11 0 == b'P')

-- The size, the weekday, and the day, as in 'Wed, 15 Nov 1995 '.
unfoldable pub check_date : List ℕ → Bool
unfolding svtoi is_leap
check_date date =
    let p = drop 5 date in
    length date == 29
    && (elim (place wkdays (part 0 3 date)) [ none ↦ false | some n ↦ true ])
    && (get_or date 3 0 == b',' && get_or date 4 0 == b' ')
    && (get_or p 2 0 == b' ' && get_or p 6 0 == b' ' && get_or p 11 0 == b' ')
    && check_day (positive (svtoi (part 7 4 p))) (place months (part 3 3 p)) (svtoi (part 0 2 p))

unfoldable pub check_date_format : List ℕ → Bool
unfolding check_date
check_date_format date = check_date date && check_time (drop 12 (drop 5 date))
