-- ===== src/Tls/Examples.antt =====
-- Dates of certificates at sample time stamps.
use ip_tools.Base.{Text, arith, false, ◌≡◌, refl, none, some, text, decimal, digits, pos, negsuc}
use ip_tools.Tls.{civil, format_utc}
use ip_tools.Tls.Written.{format_utc-is_in_past}
use ip_tools.Report.Lifetime.{rfc3339_is_in_past}
use ip_tools.Tls.Civil.{IsDate, day_number, civil-day_number}

epoch_test : format_utc (pos 0) ≡ some (text "1970-01-01T00:00:00Z")
unfolding format_utc text digits decimal
epoch_test = refl

leap_day_test : format_utc (pos 1709251199) ≡ some (text "2024-02-29T23:59:59Z")
unfolding format_utc text digits decimal
leap_day_test = refl

before_epoch_test : format_utc (negsuc 0) ≡ none
unfolding format_utc
before_epoch_test = refl

civil-day_number_example : IsDate (civil 19782) × (day_number (civil 19782) ≡ pos 19782)
civil-day_number_example = civil-day_number 19782

canonical_test : format_utc (pos 946782245) ≡ some (text "2000-01-02T03:04:05Z")
unfolding format_utc text digits decimal
canonical_test = refl

format_utc-is_in_past_example :
    (written : Text) × (format_utc (pos 946782245) ≡ some written)
    × (rfc3339_is_in_past (some 946782244) written ≡ false)
format_utc-is_in_past_example =
    format_utc-is_in_past 946782244 946782245 (omega arith) (omega arith)
