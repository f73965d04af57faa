-- ===== src/Dns/Names.antt =====
-- src/dns/resolver.cc: reading back a name that was written as labels.
use angel.Prelude.{
  ℕ, zero, suc, ◌+◌, ◌≤◌, ◌<◌, ◌≡◌, refl, ap, sym, subst, ap₂, ◌∙◌, List, [], ◌∷◌, ◌++◌, true,
  false, arith, some, length, take, drop, get_or, bit_and, leb, ltb, ◌==◌, ◌||◌, append_assoc,
  append-nil, length-append, take-length-append, every_below, every_below_lem, ==_iff,
}
use angel.Dns.{label_bytes, parse_label, parse_dns_name, stop, more, Parsed, name, max_label_size}

-- The labels, each with a '.' behind it.
abbrev pub dotted : List (List ℕ) → List ℕ
dotted [] = []
dotted (label ∷ labels) = label ++ (b'.' ∷ dotted labels)

-- A label as the resolver sends it.
abbrev pub AreLabels : List (List ℕ) → Type 0
AreLabels [] = Unit {0}
AreLabels (label ∷ labels) = (0 < length label) × (length label ≤ 63) × AreLabels labels

abbrev pub wire_of : List (List ℕ) → List ℕ
wire_of [] = 0 ∷ []
wire_of (label ∷ labels) = length label ∷ (label ++ wire_of labels)

pub label_bytes-wire_of :
    (labels : List (List ℕ)) → AreLabels labels → label_bytes labels ≡ some (wire_of labels)
unfolding label_bytes
label_bytes-wire_of [] h = refl
label_bytes-wire_of (label ∷ labels) h =
    let fits : (length label == 0 || ltb max_label_size (length label)) ≡ false =
      ground (arith, h) in
    rw (label_bytes, label_bytes-wire_of labels h.2, fits) refl

low_bits : (n : ℕ) → n < 64 → bit_and n 0xc0 ≡ 0
low_bits n h =
    (==_iff (bit_and n 0xc0) 0).0 (every_below_lem (λ k. bit_and k 0xc0 == 0) 64 n h table)
  where
    table : every_below (λ k. bit_and k 0xc0 == 0) 64 ≡ true
    table = unfold every_below in refl

get_or-behind :
    (pre : List ℕ) (x : ℕ) (post : List ℕ) (d : ℕ) → get_or (pre ++ x ∷ post) (length pre) d ≡ x
get_or-behind [] x post d = refl
get_or-behind (y ∷ pre) x post d = get_or-behind pre x post d

drop-behind_suc :
    (pre : List ℕ) (x : ℕ) (post : List ℕ) → drop (suc (length pre)) (pre ++ x ∷ post) ≡ post
drop-behind_suc [] x post = refl
drop-behind_suc (y ∷ pre) x post = drop-behind_suc pre x post

drop-behind :
    (pre : List ℕ) (x : ℕ) (post : List ℕ) → drop (length pre + 1) (pre ++ x ∷ post) ≡ post
drop-behind pre x post =
    let e : length pre + 1 ≡ suc (length pre) = omega arith in
    ap (λ n. drop n (pre ++ x ∷ post)) e ∙ drop-behind_suc pre x post

parse_label-label :
    (pre label post res : List ℕ)
    → 0 < length label
    → length label ≤ 63
    → 0 < length post
    → parse_label (pre ++ length label ∷ (label ++ post)) res (length pre)
      ≡ more (res ++ (label ++ b'.' ∷ [])) (length pre + 1 + length label)
unfolding parse_label
parse_label-label pre label post res h0 h1 hp =
    let n = length label in
    let msg = pre ++ n ∷ (label ++ post) in
    let size : length msg ≡ length pre + (1 + (n + length post)) =
      omega (arith, length-append pre (n ∷ (label ++ post)), length-append label post) in
    let e0 : get_or msg (length pre) 0 ≡ n = get_or-behind pre n (label ++ post) 0 in
    let e1 : leb (length msg) (length pre) ≡ false = ground (arith, size) in
    let e2 : (bit_and n 0xc0 == 0xc0) ≡ false =
      ap (λ v. v == 0xc0) (low_bits n (omega (arith, h1))) in
    let e3 : (n == 0) ≡ false = ground (arith, h0) in
    let e4 : leb (length msg) (length pre + 1 + n) ≡ false = ground (arith, size, hp) in
    let e5 : take n (drop (length pre + 1) msg) ≡ label =
      ap (λ t. take n t) (drop-behind pre n (label ++ post)) ∙ take-length-append label post in
    rw (e1, e0, e2, e3, e4, e5) refl

parse_label-end :
    (pre post res : List ℕ)
    → 0 < length res
    → parse_label (pre ++ 0 ∷ post) res (length pre) ≡ stop (name res (length pre + 1))
unfolding parse_label
parse_label-end pre post res h =
    let msg = pre ++ 0 ∷ post in
    let e0 : get_or msg (length pre) 0 ≡ 0 = get_or-behind pre 0 post 0 in
    let e1 : leb (length msg) (length pre) ≡ false = ground (arith, length-append pre (0 ∷ post)) in
    let e2 : (length res == 0) ≡ false = ground (arith, h) in rw (e1, e0, e2) refl

some_wire : (labels : List (List ℕ)) (post : List ℕ) → 0 < length (wire_of labels ++ post)
some_wire [] post = omega arith
some_wire (label ∷ labels) post = omega arith

next_round :
    (fuel : ℕ) (msg res longer : List ℕ) (cur next : ℕ)
    → parse_label msg res cur ≡ more longer next
    → parse_dns_name (suc fuel) msg res cur ≡ parse_dns_name fuel msg longer next
unfolding parse_dns_name
next_round fuel msg res longer cur next e = rw (parse_dns_name, e) refl

last_round :
    (fuel : ℕ) (msg res : List ℕ) (cur : ℕ) (r : Parsed)
    → parse_label msg res cur ≡ stop r
    → parse_dns_name (suc fuel) msg res cur ≡ r
unfolding parse_dns_name
last_round fuel msg res cur r e = rw (parse_dns_name, e) refl

-- Reading goes on from any place of a message, behind any labels already read.
pub parse-wire_of :
    (fuel : ℕ) (pre : List ℕ) (labels : List (List ℕ)) (post res : List ℕ)
    → AreLabels labels
    → 0 < length (res ++ dotted labels)
    → length labels < fuel
    → parse_dns_name fuel (pre ++ (wire_of labels ++ post)) res (length pre)
      ≡ name (res ++ dotted labels) (length pre + length (wire_of labels))
parse-wire_of zero pre labels post res h some_byte enough = absurd (omega (arith, enough))
parse-wire_of (suc fuel) pre [] post res h some_byte enough =
    let e : res ++ [] ≡ res = append-nil res in
    last_round fuel (pre ++ 0 ∷ post) res (length pre) (name res (length pre + 1))
      (parse_label-end pre post res (subst (λ r. 0 < length r) e some_byte))
    ∙ ap (λ r. name r (length pre + 1)) (sym e)
parse-wire_of (suc fuel) pre (label ∷ labels) post res h some_byte enough =
    let n = length label in
    let rest = wire_of labels ++ post in
    let read = pre ++ n ∷ label in
    let longer = res ++ (label ++ b'.' ∷ []) in
    let whole : pre ++ n ∷ (label ++ wire_of labels ++ post) ≡ pre ++ n ∷ (label ++ rest) =
      ap (λ t. pre ++ n ∷ t) (append_assoc label (wire_of labels) post) in
    let cursor : length pre + 1 + n ≡ length read = omega (arith, length-append pre (n ∷ label)) in
    let some_longer : 0 < length (longer ++ dotted labels) = omega (
      arith,
      h.0,
      length-append longer (dotted labels),
      length-append res (label ++ b'.' ∷ []),
      length-append label (b'.' ∷ []),
    ) in
    let behind : length read + length (wire_of labels)
        ≡ length pre + suc (length (label ++ wire_of labels)) =
      omega (arith, length-append pre (n ∷ label), length-append label (wire_of labels)) in
    ap (λ m. parse_dns_name (suc fuel) m res (length pre)) whole
    ∙ next_round fuel (pre ++ n ∷ (label ++ rest)) res longer (length pre) (length pre + 1 + n)
        (parse_label-label pre label rest res h.0 h.1 (some_wire labels post))
    ∙ ap₂ (λ m k. parse_dns_name fuel m longer k) (sym (append_assoc pre (n ∷ label) rest)) cursor
    ∙ parse-wire_of fuel read labels post longer h.2 some_longer (omega (arith, enough))
    ∙ ap₂ name
        (append_assoc res (label ++ b'.' ∷ []) (dotted labels)
          ∙ ap (λ t. res ++ t) (append_assoc label (b'.' ∷ []) (dotted labels)))
        behind
