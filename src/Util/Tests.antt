-- ===== src/Util/Tests.antt =====
-- Runs of include/angel/util.h and of `check_ip`.
use angel.Prelude.{◌≡◌, refl, [], ◌∷◌, codes, true, false}
use angel.Util.{split, trim, check_ip, equal_case}

fields : split (codes "a..b") b'.' ≡ codes "a" ∷ [] ∷ codes "b" ∷ []
unfolding split
fields = refl

trimmed : trim (codes "  websocket ") ≡ codes "websocket"
unfolding trim
trimmed = refl

local_ip : check_ip (codes "192.168.0.1") ≡ true
unfolding check_ip
local_ip = refl

large_field : check_ip (codes "192.168.0.256") ≡ false
unfolding check_ip
large_field = refl

octal_field : check_ip (codes "192.168.0.01") ≡ false
unfolding check_ip
octal_field = refl

any_case : equal_case (codes "WebSocket") (codes "websocket") ≡ true
unfolding equal_case
any_case = refl
