-- ===== src/Net/Tests.antt =====
-- The display and the parsing of addresses at sample texts.
use ip_tools.Base.{◌≡◌, refl, none, some, text}
use ip_tools.Net.{v4, v6, show_addr}
use ip_tools.Net.Parse.{parse_ip}

show_v4_test : show_addr (record { ip = v4 0x7F000001; port = 443 }) ≡ text "127.0.0.1:443"
unfolding show_addr
show_v4_test = refl

show_v6_test :
    show_addr (record { ip = v6 0x20010DB8000000000000000000000001; port = 80 })
    ≡ text "[2001:db8::1]:80"
unfolding show_addr
show_v6_test = refl

parse_v4_test : parse_ip (text "192.0.2.1") ≡ some (v4 0xC0000201)
unfolding parse_ip text
parse_v4_test = refl

parse_v6_test : parse_ip (text "2001:db8::1") ≡ some (v6 0x20010DB8000000000000000000000001)
unfolding parse_ip text
parse_v6_test = refl

parse_mapped_test : parse_ip (text "::ffff:1.2.3.4") ≡ some (v6 0xFFFF01020304)
unfolding parse_ip text
parse_mapped_test = refl

parse_ip_errors : (parse_ip (text "1.2.3.04") ≡ none) × (parse_ip (text "1::2::3") ≡ none)
unfolding parse_ip text
parse_ip_errors = (refl, refl)
