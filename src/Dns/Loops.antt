-- ===== src/Dns/Loops.antt =====
-- src/dns/resolver.cc: pointers of a name that lead back.
use angel.Prelude.{ℕ, zero, suc, ◌≡◌, refl, ap, ◌∙◌, List, []}
use angel.Dns.{parse_dns_name, parse_label, jump, out_of_fuel, behind_pointer}

pointer_round :
    (fuel : ℕ) (msg : List ℕ) (cur offset next : ℕ)
    → parse_label msg [] cur ≡ jump offset next
    → parse_dns_name (suc fuel) msg [] cur
      ≡ behind_pointer [] next (parse_dns_name fuel msg [] offset)
unfolding parse_dns_name
pointer_round fuel msg cur offset next e = rw (parse_dns_name, e) refl

-- Of two pointers each of which leads to the place of the other, no name is ever read: the
-- recursion has no end, however much fuel there is. (The two may be one.)
pub parse-pointer_cycle :
    (fuel : ℕ) (msg : List ℕ) (here there after_here after_there : ℕ)
    → parse_label msg [] here ≡ jump there after_here
    → parse_label msg [] there ≡ jump here after_there
    → parse_dns_name fuel msg [] here ≡ out_of_fuel
parse-pointer_cycle zero msg here there after_here after_there e d = unfold parse_dns_name in refl
parse-pointer_cycle (suc fuel) msg here there after_here after_there e d =
    pointer_round fuel msg here there after_here e
    ∙ ap (λ r. behind_pointer [] after_here r)
        (parse-pointer_cycle fuel msg there here after_there after_here d e)
