-- ===== src/Http/Client/Pool/Runs.antt =====
-- src/httplib/httplib.cc: over every run of a pool no connection is in it twice.
use angel.Prelude.{
  ℕ, suc, ◌+◌, ◌≡◌, ◌≤◌, ◌<◌, refl, ap, sym, subst, List, [], ◌∷◌, ◌++◌, Bool, true, false, none,
  some, ◌==◌, ltb, length, length-append, if◌then◌else◌, inl, inr, Bool-cases, arith,
}
use angel.Mime.Qp.{back, pop_back}
use angel.Http.Client.Pool.{
  Pool, has, last_first, take_off, create_connection, lease_connection, release_connection,
  remove_connection, active_conns, acquire,
}

abbrev pub count : ℕ → List ℕ → ℕ
count c [] = 0
count c (x ∷ xs) = (if x == c then 1 else 0) + count c xs

-- How often a connection is in the pool.
abbrev pub places : ℕ → Pool → ℕ
places c p = count c p.leased + count c p.avail

-- No connection is in the pool twice, and there are not more than the bound.
abbrev pub IsValid : ℕ → Pool → Type 0
IsValid bound p = ((c : ℕ) → places c p ≤ 1) × (active_conns p ≤ bound)

count-append : (c : ℕ) (xs ys : List ℕ) → count c (xs ++ ys) ≡ count c xs + count c ys
count-append c [] ys = omega arith
count-append c (x ∷ xs) ys = omega (arith, count-append c xs ys)

last_lem :
    (c x : ℕ) (xs : List ℕ)
    → (count c (back (x ∷ xs) ∷ pop_back (x ∷ xs)) ≡ count c (x ∷ xs))
      × (length (pop_back (x ∷ xs)) ≡ length xs)
last_lem c x [] = (refl, refl)
last_lem c x (y ∷ xs) =
    let (same_count, same_length) = last_lem c y xs in
    (omega (arith, same_count), omega (arith, same_length))

last_first-lem :
    (d : ℕ) (xs : List ℕ)
    → (count d (last_first xs) ≡ count d xs) × (length (last_first xs) ≡ length xs)
last_first-lem d [] = (refl, refl)
last_first-lem d (x ∷ xs) =
    let (same_count, same_length) = last_lem d x xs in (same_count, omega (arith, same_length))

-- One place of a connection less, and one connection less.
IsTaken : ℕ → ℕ → List ℕ → List ℕ → Type 0
IsTaken c d xs ys =
    (count d ys + (if c == d then 1 else 0) ≡ count d xs) × (suc (length ys) ≡ length xs)

take_off-IsTaken : (c d : ℕ) (xs : List ℕ) → has c xs ≡ true → IsTaken c d xs (take_off c xs)
unfolding IsTaken
take_off-IsTaken c d [] h = absurd (ground arith)
take_off-IsTaken c d (x ∷ xs) h = elim (Bool-cases (x == c)) [
  | inl e ↦
      let same : x ≡ c = ground arith in
      let (moved, size) = last_first-lem d xs in rw (e, moved, size) (rw same (omega arith), refl)
  | inr e ↦
      let inside : has c xs ≡ true = ground arith in
      let (fewer, size) = take_off-IsTaken c d xs inside in rw e (omega (arith, fewer), ap suc size)
]

take_off-absent : (c : ℕ) (xs : List ℕ) → has c xs ≡ false → take_off c xs ≡ xs
take_off-absent c [] h = refl
take_off-absent c (x ∷ xs) h =
    let other : (x == c) ≡ false = ground arith in
    let absent : has c xs ≡ false = ground arith in rw (other, take_off-absent c xs absent) refl

take_off-fewer :
    (c d : ℕ) (xs : List ℕ)
    → (count d (take_off c xs) ≤ count d xs) × (length (take_off c xs) ≤ length xs)
unfolding IsTaken
take_off-fewer c d xs = elim (Bool-cases (has c xs)) [
  | inl e ↦
      let (fewer, size) = take_off-IsTaken c d xs e in (omega (arith, fewer), omega (arith, size))
  | inr e ↦ rw (take_off-absent c xs e) (omega arith, omega arith)
]

-- The calls of the client. A new connection is none of those in the pool.
pub data Call : Type 0 where
  acquired : ℕ → Call
  released : ℕ → Call
  removed : Bool → ℕ → Call

abbrev pub perform : ℕ → Call → Pool → Pool
perform bound (acquired fresh) p = elim (acquire bound fresh p) [ none ↦ p | some p' ↦ p' ]
perform bound (released c) p = release_connection c p
perform bound (removed leased c) p = remove_connection leased c p

abbrev pub IsFresh : Call → Pool → Type 0
IsFresh (acquired fresh) p = places fresh p ≡ 0
IsFresh (released c) p = Unit {0}
IsFresh (removed leased c) p = Unit {0}

abbrev pub run : ℕ → List Call → Pool → Pool
run bound [] p = p
run bound (call ∷ calls) p = run bound calls (perform bound call p)

abbrev pub AreFresh : ℕ → List Call → Pool → Type 0
AreFresh bound [] p = Unit {0}
AreFresh bound (call ∷ calls) p = IsFresh call p × AreFresh bound calls (perform bound call p)

create-IsValid :
    (bound fresh : ℕ) (p : Pool)
    → IsValid bound p
    → places fresh p ≡ 0
    → active_conns p < bound
    → IsValid bound (create_connection fresh p)
unfolding create_connection active_conns
create-IsValid bound fresh p (once, few) new room =
    (once', omega (arith, length-append p.leased (fresh ∷ [])))
  where
    once' : (c : ℕ) → places c (create_connection fresh p) ≤ 1
    once' c = elim (Bool-cases (fresh == c)) [
      | inl e ↦
          let same : fresh ≡ c = ground arith in
          let none_there = subst (λ n. places n p ≡ 0) same new in
          let one : count c (fresh ∷ []) ≤ 1 = rw e (omega arith) in
          omega (arith, one, none_there, count-append c p.leased (fresh ∷ []))
      | inr e ↦
          let other : count c (fresh ∷ []) ≡ 0 = rw e refl in
          omega (arith, other, once c, count-append c p.leased (fresh ∷ []))
    ]

lease-IsValid :
    (bound x : ℕ) (xs leased : List ℕ) (pending : Bool)
    → IsValid bound (record { avail = x ∷ xs; leased = leased; pending = pending })
    → IsValid bound (record {
      avail = pop_back (x ∷ xs);
      leased = leased ++ back (x ∷ xs) ∷ [];
      pending = pending;
    })
unfolding active_conns
lease-IsValid bound x xs leased pending (once, few) = (
  λ c. omega (arith, once c, (last_lem c x xs).0, count-append c leased (back (x ∷ xs) ∷ [])),
  omega (arith, few, (last_lem 0 x xs).1, length-append leased (back (x ∷ xs) ∷ [])),
)

abbrev pool_of : List ℕ → List ℕ → Bool → Pool
pool_of avail leased pending = record { avail = avail; leased = leased; pending = pending }

acquire-parts :
    (bound fresh : ℕ) (avail leased : List ℕ) (pending : Bool)
    → IsValid bound (pool_of avail leased pending)
    → places fresh (pool_of avail leased pending) ≡ 0
    → IsValid bound (perform bound (acquired fresh) (pool_of avail leased pending))
unfolding acquire lease_connection
acquire-parts bound fresh [] leased pending valid new =
    let p = pool_of [] leased pending in
    elim (Bool-cases (ltb (active_conns p) bound)) [
      | inl e ↦
          let room : active_conns p < bound = ground arith in
          let made : acquire bound fresh p ≡ some (create_connection fresh p) = rw e refl in
          subst (λ o. IsValid bound (elim o [ none ↦ p | some p' ↦ p' ])) (sym made)
            (create-IsValid bound fresh p valid new room)
      | inr e ↦
          let waits : acquire bound fresh p ≡ none = rw e refl in
          subst (λ o. IsValid bound (elim o [ none ↦ p | some p' ↦ p' ])) (sym waits) valid
    ]
acquire-parts bound fresh (x ∷ xs) leased pending valid new =
    lease-IsValid bound x xs leased pending valid

acquire-IsValid :
    (bound fresh : ℕ) (p : Pool)
    → IsValid bound p
    → places fresh p ≡ 0
    → IsValid bound (perform bound (acquired fresh) p)
acquire-IsValid bound fresh p valid new =
    acquire-parts bound fresh p.avail p.leased p.pending valid new

release-IsValid :
    (bound c : ℕ) (p : Pool) → IsValid bound p → IsValid bound (release_connection c p)
unfolding release_connection active_conns IsTaken
release-IsValid bound c p (once, few) = elim (Bool-cases (has c p.leased)) [
  | inl e ↦
      let size = (take_off-IsTaken c c p.leased e).1 in
      rw e (
        λ d.
            omega
              (arith, once d, (take_off-IsTaken c d p.leased e).0, count-append d p.avail (c ∷ [])),
        omega (arith, few, size, length-append p.avail (c ∷ [])),
      )
  | inr e ↦ rw e (once, few)
]

remove-IsValid :
    (bound : ℕ) (leased : Bool) (c : ℕ) (p : Pool)
    → IsValid bound p
    → IsValid bound (remove_connection leased c p)
unfolding remove_connection active_conns
remove-IsValid bound true c p (once, few) = (
  λ d. omega (arith, once d, (take_off-fewer c d p.leased).0),
  omega (arith, few, (take_off-fewer c 0 p.leased).1),
)
remove-IsValid bound false c p (once, few) = (
  λ d. omega (arith, once d, (take_off-fewer c d p.avail).0),
  omega (arith, few, (take_off-fewer c 0 p.avail).1),
)

perform-IsValid :
    (bound : ℕ) (call : Call) (p : Pool)
    → IsValid bound p
    → IsFresh call p
    → IsValid bound (perform bound call p)
perform-IsValid bound (acquired fresh) p valid new = acquire-IsValid bound fresh p valid new
perform-IsValid bound (released c) p valid new = release-IsValid bound c p valid
perform-IsValid bound (removed leased c) p valid new = remove-IsValid bound leased c p valid

-- Over every run of requests, answers and removals, a pool in which no connection stands twice and
-- whose connections are not more than the bound of its route stays such a pool. (A new connection
-- is none of those in the pool.)
pub run-IsValid :
    (bound : ℕ) (calls : List Call) (p : Pool)
    → IsValid bound p
    → AreFresh bound calls p
    → IsValid bound (run bound calls p)
run-IsValid bound [] p valid fresh = valid
run-IsValid bound (call ∷ calls) p valid (new, fresh) =
    run-IsValid bound calls (perform bound call p) (perform-IsValid bound call p valid new) fresh
