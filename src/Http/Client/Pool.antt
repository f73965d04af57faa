-- ===== src/Http/Client/Pool.antt =====
-- `http_connection_pool` of src/httplib/httplib.cc.
pub mod Runs
use angel.Prelude.{
  ℕ, zero, suc, ◌+◌, ◌≡◌, List, [], ◌∷◌, ◌++◌, Bool, true, false, not, ◌&&◌, ◌||◌, Option, none,
  some, ◌==◌, ltb, length, if◌then◌else◌,
}
use angel.Mime.Qp.{back, pop_back}

-- The connections at rest and those with a request, and the flag that a request waits.
pub record Pool : Type 0 where
  pub avail : List ℕ
  pub leased : List ℕ
  pub pending : Bool

abbrev pub has : ℕ → List ℕ → Bool
has c [] = false
has c (x ∷ xs) = x == c || has c xs

-- What is left behind an element that was swapped with the last one, which was taken off.
abbrev pub last_first : List ℕ → List ℕ
last_first [] = []
last_first (x ∷ xs) = back (x ∷ xs) ∷ pop_back (x ∷ xs)

abbrev pub take_off : ℕ → List ℕ → List ℕ
take_off c [] = []
take_off c (x ∷ xs) = let rest = take_off c xs in if x == c then last_first xs else x ∷ rest

unfoldable pub create_connection : ℕ → Pool → Pool
create_connection c p = record p { leased = p.leased ++ c ∷ [] }

-- Only called when there is one at rest; on an empty vector `back` has no meaning.
unfoldable pub lease_connection : Pool → Option Pool
lease_connection p = elim p.avail [
  | [] ↦ none
  | x ∷ xs ↦ some (record p { leased = p.leased ++ back (x ∷ xs) ∷ []; avail = pop_back (x ∷ xs) })
]

unfoldable pub release_connection : ℕ → Pool → Pool
release_connection c p =
    if has c p.leased
    then record p { leased = take_off c p.leased; avail = p.avail ++ c ∷ [] }
    else p

-- Out of the list that `leased` of the connection names.
unfoldable pub remove_connection : Bool → ℕ → Pool → Pool
remove_connection true c p = record p { leased = take_off c p.leased }
remove_connection false c p = record p { avail = take_off c p.avail }

unfoldable pub active_conns : Pool → ℕ
active_conns p = length p.leased + length p.avail

unfoldable pub wakeup : Pool → Pool
wakeup p = record p { pending = false }

-- What `send` of the client does with the pool: a connection at rest is taken, or a new one is
-- made, if there are fewer than the bound; `none` is that the request waits.
unfoldable pub acquire : ℕ → ℕ → Pool → Option Pool
unfolding create_connection lease_connection active_conns
acquire max_conns fresh p = elim p.avail [
  | [] ↦ if ltb (active_conns p) max_conns then some (create_connection fresh p) else none
  | x ∷ xs ↦ lease_connection p
]
