-- ===== src/Target/Examples.antt =====
-- Targets at sample arguments.
use ip_tools.Base.{◌≡◌, inl, inr, refl, Text, text, ◌∷◌, ◌++◌, decimal, arith, done}
use ip_tools.Target.{parse}
use ip_tools.Target.RoundTrip.{in_brackets, parse-host_port}
use ip_tools.Target.Accepted.{Meets, IsTarget, parse-Meets}

abbrev named : Text
unfolding text
named = text "example.com"

abbrev local_v6 : Text
unfolding text
local_v6 = text "::1"

parse-host_port_example :
    parse (in_brackets local_v6 ++ (b':' ∷ decimal 8080)) 443
    ≡ done (record { host = in_brackets local_v6; port = 8080 })
unfolding local_v6
parse-host_port_example =
    parse-host_port (in_brackets local_v6) 8080 443 (inr (local_v6, refl, refl, refl)) (omega arith)

parse-host_port_test :
    parse (named ++ (b':' ∷ decimal 8080)) 443 ≡ done (record { host = named; port = 8080 })
unfolding named
parse-host_port_test = parse-host_port named 8080 443 (inl (refl, refl)) (omega arith)

abbrev loopback : Text
unfolding text
loopback = text "[::1]:8443"

parse-Meets_example : Meets IsTarget (parse loopback 443)
parse-Meets_example = parse-Meets loopback 443 (omega arith)
