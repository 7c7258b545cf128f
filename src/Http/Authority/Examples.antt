-- ===== src/Http/Authority/Examples.antt =====
-- The authority of a host at a port that is not the scheme's.
use ip_tools.Base.{◌≡◌, inl, inr, matches_count, refl, true, Text, text, arith, done}
use ip_tools.Target.{parse}
use ip_tools.Target.RoundTrip.{in_brackets}
use ip_tools.Http.Authority.{wire_authority}
use ip_tools.Http.Authority.Parsed.{wire_authority-parse}

abbrev named : Text
unfolding text
named = text "example.com"

abbrev local_v6 : Text
unfolding text
local_v6 = text "::1"

wire_authority-parse_example :
    parse (wire_authority (in_brackets local_v6) 8443 true) 443
    ≡ done (record { host = in_brackets local_v6; port = 8443 })
unfolding local_v6 matches_count
wire_authority-parse_example =
    wire_authority-parse (in_brackets local_v6) 8443 true (inr (local_v6, refl, refl, refl, refl))
      (omega arith) (omega arith)

wire_authority-parse_test :
    parse (wire_authority named 8443 true) 443 ≡ done (record { host = named; port = 8443 })
unfolding named
wire_authority-parse_test =
    wire_authority-parse named 8443 true (inl (refl, refl)) (omega arith) (omega arith)
