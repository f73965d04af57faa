-- ===== src/Http/Uri.antt =====
-- Addresses: `uri` of src/httplib/httplib.cc.
pub mod RoundTrip
pub mod Tests
use angel.Prelude.{
  ℕ, zero, suc, ◌+◌, ◌≡◌, List, [], ◌∷◌, ◌++◌, Bool, true, false, not, ◌&&◌, ◌||◌, Option, none,
  some, codes, leb, ltb, ◌==◌, length, take, drop, if◌then◌else◌,
}
use angel.Mime.{to_hex_pair, from_hex_pair, is_hex_number}
use angel.Util.{Integer, same, is_digit, split, search, svtoi}
use mathlib.Core.Option

-- `isalnum` in the C locale, and `strchr("-_.~", c)`, which finds the zero byte too.
unfoldable pub is_plain : ℕ → Bool
unfolding is_digit
is_plain c =
    is_digit c
    || (leb b'A' c && leb c b'Z')
    || (leb b'a' c && leb c b'z')
    || (c == b'-' || c == b'_' || c == b'.' || c == b'~' || c == 0)

unfoldable pub encode : List ℕ → List ℕ
unfolding is_plain to_hex_pair
encode [] = []
encode (c ∷ uri) = (if is_plain c then c ∷ [] else to_hex_pair b'%' c) ++ encode uri

-- Whether the text is legal, and what is appended to `res`, in both cases.
unfoldable pub decode : List ℕ → Bool × List ℕ
unfolding is_hex_number from_hex_pair
decode [] = (true, [])
decode (c ∷ []) = if c == b'%' then (false, []) else (true, c ∷ [])
decode (c ∷ c1 ∷ []) =
    let rest = decode (c1 ∷ []) in if c == b'%' then (false, []) else (rest.0, c ∷ rest.1)
decode (c ∷ c1 ∷ c2 ∷ uri) =
    let pair = decode uri in
    let rest = decode (c1 ∷ c2 ∷ uri) in
    if c == b'%'
    then if not (is_hex_number c1) || not (is_hex_number c2)
      then (false, [])
      else (pair.0, from_hex_pair c1 c2 ∷ pair.1)
    else (rest.0, c ∷ rest.1)

-- `std::find`: what is before the byte, and what begins with it.
abbrev pub before : ℕ → List ℕ → List ℕ
before c [] = []
before c (x ∷ s) = let rest = before c s in if x == c then [] else x ∷ rest

abbrev pub from : ℕ → List ℕ → List ℕ
from c [] = []
from c (x ∷ s) = let rest = from c s in if x == c then x ∷ s else rest

abbrev pub Params : Type 0
Params = List (List ℕ × List ℕ)

abbrev pub has_key : List ℕ → Params → Bool
has_key key [] = false
has_key key ((k, v) ∷ params) = same key k || has_key key params

-- A key that is there keeps its value.
unfoldable pub emplace : List ℕ → List ℕ → Params → Params
emplace key value params = if has_key key params then params else params ++ (key, value) ∷ []

unfoldable pub parse_args : List (List ℕ) → Params → Bool × Params
unfolding decode emplace
parse_args [] params = (true, params)
parse_args (arg ∷ args) params =
    let key = decode (before b'=' arg) in
    let value = decode (drop 1 (from b'=' arg)) in
    let rest = parse_args args (emplace key.1 value.1 params) in
    if length (from b'=' arg) == 0 || not key.0 || not value.0 then (false, params) else rest

unfoldable pub parse_params : List ℕ → Params → Bool × Params
unfolding parse_args split
parse_params query params = parse_args (split query b'&') params

pub record Uri : Type 0 where
  pub scheme : List ℕ
  pub host : List ℕ
  pub port : Integer
  pub path : List ℕ
  pub params : Params
  pub fragment : List ℕ

abbrev pub number : ℕ → Integer
number n = record { negative = false; size = n }

-- A port that is no number is -1.
abbrev pub port_or : Option Integer → Integer
port_or none = record { negative = true; size = 1 }
port_or (some n) = n

unfoldable pub clear : Uri → Uri
clear u = record { scheme = []; host = []; port = number 80; path = []; params = []; fragment = [] }

-- `port <= 0`
abbrev pub bad_port : Integer → Bool
bad_port n = n.negative || n.size == 0

-- What `parse` has of an address; a '#' before the '?' makes a range that ends before it begins,
-- and the program has no meaning then.
pub data Parsed : Type 0 where
  parsed : Bool → Uri → Parsed
  reversed : Parsed

unfoldable pub parse_fragment : List ℕ → Uri → Uri
parse_fragment p u =
    if length (from b'#' p) == 0 then u else record u { fragment = drop 1 (from b'#' p) }

-- The parameters are between the '?' and the '#', both found from the path's begin.
unfoldable pub parse_query : List ℕ → Uri → Parsed
unfolding parse_params parse_fragment
parse_query p u =
    let query = from b'?' p in
    let r = parse_params (drop 1 (before b'#' query)) u.params in
    let u' = record u { params = r.1 } in
    if length query == 0
    then parsed true (parse_fragment p u)
    else if ltb (length (before b'#' p)) (length (before b'?' p) + 1)
    then reversed
    else if r.0
    then parsed true (parse_fragment p u')
    else parsed false u'

-- From the '/' behind the host; without one the path is '/'.
unfoldable pub parse_path : List ℕ → Uri → Parsed
unfolding decode parse_query
parse_path [] u = parsed true (record u { path = b'/' ∷ [] })
parse_path (c ∷ p) u =
    let r = decode (before b'?' (c ∷ p)) in
    let u' = record u { path = r.1 } in if r.0 then parse_query (c ∷ p) u' else parsed false u'

-- Behind the scheme. The ':' of a port is sought in all of the rest.
unfoldable pub parse_host : List ℕ → Uri → Parsed
unfolding svtoi parse_path
parse_host p u =
    let behind = drop 1 (from b':' p) in
    let port = port_or (svtoi (before b'/' behind)) in
    let u' = record u { host = before b':' p; port = port } in
    if length (from b':' p) == 0
    then parse_path (from b'/' p) (record u { host = before b'/' p })
    else if bad_port port
    then parsed false u'
    else parse_path (from b'/' behind) u'

unfoldable pub parse_scheme : List ℕ → List ℕ → Uri → Parsed
unfolding parse_host
parse_scheme scheme p u =
    let u' = record u { scheme = scheme } in
    if same scheme (codes "http")
    then parse_host p (record u' { port = number 80 })
    else if same scheme (codes "https")
    then parse_host p (record u' { port = number 443 })
    else parsed false u'

unfoldable pub parse : List ℕ → Uri → Parsed
unfolding clear parse_scheme search
parse uri u = elim (search uri (codes "://")) [
  | none ↦ parsed false (clear u)
  | some i ↦ parse_scheme (take i uri) (drop (i + 3) uri) (clear u)
]
