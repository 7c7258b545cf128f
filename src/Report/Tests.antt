-- ===== src/Report/Tests.antt =====
-- Certificate lifetimes and names at sample texts.
use ip_tools.Base.{
  ◌≡◌, refl, true, false, [], ◌∷◌, some, text, pos, ◌-ℤ◌, ◌+ℤ◌, ◌*ℤ◌, get_range, parse_i64,
  strip_suffix, strip_prefix, split_once, split, trim_start_matches, trim_end_matches,
  to_ascii_lowercase, text_beq,
}
use ip_tools.Net.Parse.{parse_ip}
use ip_tools.Report.Lifetime.{days_until_from_rfc3339, rfc3339_is_in_past}
use ip_tools.Report.Coverage.{cert_covers_hostname}

days_until_test : days_until_from_rfc3339 (some 86400) (text "1970-01-07T00:00:00Z") ≡ some (pos 5)
unfolding days_until_from_rfc3339 ◌-ℤ◌ get_range parse_i64 text
days_until_test = refl

in_past_test : rfc3339_is_in_past (some 86400) (text "1970-01-02T00:00:00Z") ≡ true
unfolding rfc3339_is_in_past ◌+ℤ◌ ◌*ℤ◌ strip_suffix split_once split parse_i64 text
in_past_test = refl

wildcard_test :
    (cert_covers_hostname (text "a.Example.com") (text "*.example.com" ∷ []) ≡ true)
    × (cert_covers_hostname (text "a.b.example.com") (text "*.example.com" ∷ []) ≡ false)
    × (cert_covers_hostname (text "[2001:db8::1]") (text "2001:DB8::1" ∷ []) ≡ true)
unfolding cert_covers_hostname trim_start_matches trim_end_matches to_ascii_lowercase strip_prefix
    split_once text parse_ip text_beq
wildcard_test = (refl, refl, refl)
