-- ===== src/Dns/Tests.antt =====
-- Runs of src/dns/resolver.cc on small names.
use angel.Prelude.{ℕ, ◌≡◌, refl, List, [], ◌∷◌, codes}
use angel.Dns.Loops.{parse-pointer_cycle}
use angel.Dns.{name, parse_dns_name, parse_label, jump, out_of_fuel}

-- The labels "x" and then a pointer back to "bc".
pointed :
    parse_dns_name 5 (2 ∷ b'b' ∷ b'c' ∷ 0 ∷ 1 ∷ b'x' ∷ 0xc0 ∷ 0 ∷ []) [] 4 ≡ name (codes "x.bc.") 8
unfolding parse_dns_name parse_label
pointed = refl

abbrev cycle : List ℕ
cycle = 0xc0 ∷ 2 ∷ 0xc0 ∷ 0 ∷ []

forth : parse_label cycle [] 0 ≡ jump 2 2
unfolding parse_label
forth = refl

back : parse_label cycle [] 2 ≡ jump 0 4
unfolding parse_label
back = refl

parse-pointer_cycle_example : parse_dns_name 100 cycle [] 0 ≡ out_of_fuel
parse-pointer_cycle_example = parse-pointer_cycle 100 cycle 0 2 2 4 forth back
