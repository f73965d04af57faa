-- ===== src/Dns.antt =====
-- src/dns/resolver.cc: domain names on the wire and queries, and src/dns/cache.h.
pub mod Names
pub mod RoundTrip
pub mod Loops
pub mod Tests
use angel.Prelude.{
  ℕ, zero, suc, ◌+◌, ◌-◌, ◌*◌, ◌%◌, ◌^◌, ◌≡◌, List, [], ◌∷◌, ◌++◌, Bool, true, false, not, Option,
  none, some, ◌&&◌, ◌||◌, length, take, drop, get_or, bit_and, be16, u32, codes, ltb, leb, ◌==◌,
  if◌then◌else◌,
}
use mathlib.Core.List.{reverse}
use angel.Util.{split, same, concat}

abbrev pub max_label_size : ℕ
max_label_size = 63

abbrev pub max_name_size : ℕ
max_name_size = 255

abbrev pub max_udp_size : ℕ
max_udp_size = 512

-- Each label behind its size, and the zero byte; `none` for a label of no bytes or too many.
unfoldable pub label_bytes : List (List ℕ) → Option (List ℕ)
label_bytes [] = some (0 ∷ [])
label_bytes (label ∷ labels) = elim (label_bytes labels) [
  | none ↦ none
  | some rest ↦
      if length label == 0 || ltb max_label_size (length label)
      then none
      else some (length label ∷ (label ++ rest))
]

-- The name without a final '.'.
unfoldable pub without_root : List ℕ → List ℕ
without_root [] = []
without_root (c ∷ []) = if c == b'.' then [] else c ∷ []
without_root (c ∷ d ∷ name) = c ∷ without_root (d ∷ name)

abbrev pub not_too_long : Option (List ℕ) → List ℕ
not_too_long none = []
not_too_long (some res) = if ltb max_name_size (length res) then [] else res

-- `[]` is the empty string for an illegal name. `back` of an empty name has no meaning.
unfoldable pub to_dns_name : List ℕ → Option (List ℕ)
unfolding without_root label_bytes split
to_dns_name [] = none
to_dns_name (c ∷ name) = elim (without_root (c ∷ name)) [
  | [] ↦ some []
  | d ∷ rest ↦ some (not_too_long (label_bytes (split (d ∷ rest) b'.')))
]

abbrev pub arpa_of : List (List ℕ) → List ℕ
arpa_of (r0 ∷ r1 ∷ r2 ∷ r3 ∷ []) =
    concat r3 (codes "." ∷ r2 ∷ codes "." ∷ r1 ∷ codes "." ∷ r0 ∷ codes ".in-addr.arpa" ∷ [])
arpa_of r = []

unfoldable pub to_arpa_name : List ℕ → List ℕ
unfolding split
to_arpa_name name = arpa_of (split name b'.')

-- What reading a name returns: the name and the cursor behind it. `undefined` is `back` of an
-- empty string, for the name of the root.
pub data Parsed : Type 0 where
  name : List ℕ → ℕ → Parsed
  undefined : Parsed
  out_of_fuel : Parsed

-- One round of the loop: a result, a jump to an offset with the cursor behind the pointer, or the
-- next round.
pub data Round : Type 0 where
  stop : Parsed → Round
  jump : ℕ → ℕ → Round
  more : List ℕ → ℕ → Round

unfoldable pub parse_label : List ℕ → List ℕ → ℕ → Round
parse_label msg res cur =
    let c = get_or msg cur 0 in
    let offset = bit_and (c * 256 + get_or msg (cur + 1) 0) 0x3fff in
    if leb (length msg) cur
    then stop (name [] cur)
    else if bit_and c 0xc0 == 0xc0
    then if ltb (length msg) (cur + 2)
      then stop (name [] cur)
      else if leb (length msg) offset
      then stop (name [] (cur + 2))
      else jump offset (cur + 2)
    else if c == 0
    then if length res == 0 then stop undefined else stop (name res (cur + 1))
    else if leb (length msg) (cur + 1 + c)
    then stop (name [] (cur + 1))
    else more (res ++ (take c (drop (cur + 1) msg) ++ b'.' ∷ [])) (cur + 1 + c)

-- The labels in front of a pointer, and the name at its offset.
abbrev pub behind_pointer : List ℕ → ℕ → Parsed → Parsed
behind_pointer res cur (name rest p) = name (res ++ rest) cur
behind_pointer res cur undefined = undefined
behind_pointer res cur out_of_fuel = out_of_fuel

unfoldable pub parse_dns_name : ℕ → List ℕ → List ℕ → ℕ → Parsed
unfolding parse_label
parse_dns_name zero msg res cur = out_of_fuel
parse_dns_name (suc fuel) msg res cur = elim (parse_label msg res cur) [
  | stop r ↦ r
  | jump offset next ↦ behind_pointer res next (parse_dns_name fuel msg [] offset)
  | more longer next ↦ parse_dns_name fuel msg longer next
]

-- The message of a query; `none` is the failing assertion on its size.
unfoldable pub pack : ℕ → List ℕ → ℕ → ℕ → Option (List ℕ)
pack id q_name q_type q_class =
    let header = be16 id ++ (be16 0x0100 ++ (be16 1 ++ (be16 0 ++ (be16 0 ++ be16 0)))) in
    let buf = header ++ (q_name ++ (be16 q_type ++ be16 q_class)) in
    if leb (length buf) max_udp_size then some buf else none

pub record CacheItem : Type 0 where
  pub addr_list : List (List ℕ)
  pub expire : ℕ

-- `cache_map`, newest first.
abbrev pub Cache : Type 0
Cache = List (List ℕ × CacheItem)

unfoldable pub get : Cache → List ℕ → Option CacheItem
get [] key = none
get ((k, item) ∷ cache) key = if same k key then some item else get cache key

-- `emplace` leaves an entry that is there. `ttl * 1000` is a product of 32 bits.
unfoldable pub put : Cache → ℕ → List ℕ → List (List ℕ) → ℕ → Cache
unfolding get
put cache now key addrs ttl = elim (get cache key) [
  | some item ↦ cache
  | none ↦ (key, record { addr_list = addrs; expire = now + (ttl * 1000) % 2 ^ 32 }) ∷ cache
]

unfoldable pub evict : Cache → ℕ → Cache
evict [] now = []
evict ((k, item) ∷ cache) now =
    let rest = evict cache now in if leb item.expire now then rest else (k, item) ∷ rest
