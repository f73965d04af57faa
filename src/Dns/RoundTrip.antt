-- ===== src/Dns/RoundTrip.antt =====
-- src/dns/resolver.cc: `to_dns_name` and `parse_dns_name` are inverse.
use angel.Prelude.{ℕ, List, Option, none, some}

abbrev contents_or : List ℕ → Option (List ℕ) → List ℕ
contents_or d none = d
contents_or d (some x) = x

abbrev IsSome : Option (List ℕ) → Type 0
IsSome none = ⊥
IsSome (some x) = Unit {0}
