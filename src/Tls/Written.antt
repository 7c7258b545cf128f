-- ===== src/Tls/Written.antt =====
-- src/tls.rs and src/report.rs: the check for a certificate in the past reads the dates that
-- `format_utc` writes.
use ip_tools.Base.{
  ℕ, zero, suc, ◌+◌, ◌-◌, ◌*◌, ◌/◌, ◌%◌, ◌≤◌, ◌<◌, ◌≡◌, refl, ap, ◌∙◌, inl, inr, ltb, leb, nat_eq,
  ◌==◌, if◌then◌else◌, Bool, true, false, [], ◌∷◌, ◌++◌, all, Bool-cases, Text, some, decimal,
  length, replicate, is_digit, split, arith, pos, parse_i64, i64_max, is_empty, filter_map, leb_ℤ,
  ◌||◌,
}
use ip_tools.Base.Decimal.{
  decimal-digits, decimal-nonempty, parse_i64-digits, scan_digits-zeros, scan_digits-decimal,
}
use ip_tools.Base.Splitting.{split_once-first, split-fields, strip_suffix-append}
use ip_tools.Base.Trimmed.{all-append}
use ip_tools.Tls.{
  padded, date_text, time_text, year_of_era, day_of_year, month_from_march, from_january, civil,
  format_utc,
}
use ip_tools.Tls.Civil.{
  day_number, IsDate, civil-day_number, year_of_era_bound, pos-times, pos-plus,
}
use ip_tools.Report.Lifetime.{is_past, rfc3339_is_in_past}

all-zeros : (k : ℕ) → all is_digit (replicate k b'0') ≡ true
all-zeros zero = refl
all-zeros (suc k) = all-zeros k

padded-digits : (w n : ℕ) → all is_digit (padded w n) ≡ true
padded-digits w n =
    rw
      (
        all-append is_digit (replicate (w - length (decimal n)) b'0') (decimal n),
        all-zeros (w - length (decimal n)),
        decimal-digits n,
      )
      refl

append-nonempty : (s t : Text) → is_empty t ≡ false → is_empty (s ++ t) ≡ false
append-nonempty [] t h = h
append-nonempty (c ∷ s) t h = refl

parse_i64-padded : (w n : ℕ) → n ≤ i64_max → parse_i64 (padded w n) ≡ some (pos n)
parse_i64-padded w n h =
    parse_i64-digits (padded w n) n (padded-digits w n)
      (append-nonempty (replicate (w - length (decimal n)) b'0') (decimal n) (decimal-nonempty n))
      (scan_digits-zeros i64_max (w - length (decimal n)) (decimal n)
        ∙ scan_digits-decimal i64_max n h)

abbrev is_date_byte : ℕ → Bool
is_date_byte c = is_digit c || c == b'-'

all-date_byte : (s : Text) → all is_digit s ≡ true → all is_date_byte s ≡ true
all-date_byte [] h = refl
all-date_byte (c ∷ s) h = ground (arith, all-date_byte s (ground (arith, h)), h)

date_text-bytes : (yr mo d : ℕ) → all is_date_byte (date_text (yr, mo, d)) ≡ true
date_text-bytes yr mo d =
    rw
      (
        all-append is_date_byte (padded 4 yr) (b'-' ∷ (padded 2 mo ++ (b'-' ∷ padded 2 d))),
        all-append is_date_byte (padded 2 mo) (b'-' ∷ padded 2 d),
        all-date_byte (padded 4 yr) (padded-digits 4 yr),
        all-date_byte (padded 2 mo) (padded-digits 2 mo),
        all-date_byte (padded 2 d) (padded-digits 2 d),
      )
      refl

read_fields :
    (yr mo d secs : ℕ)
    → yr ≤ i64_max
    → mo ≤ 12
    → d ≤ 31
    → secs < 86400
    → filter_map parse_i64 (split b'-' (date_text (yr, mo, d)) ++ split b':' (time_text secs))
      ≡ pos yr ∷ pos mo ∷ pos d ∷ pos (secs / 3600) ∷ pos (secs % 3600 / 60) ∷ pos (secs % 60) ∷ []
read_fields yr mo d secs h k l m =
    rw
      (
        split-fields b'-' (padded 4 yr) (padded 2 mo) (padded 2 d) refl (padded-digits 4 yr)
            (padded-digits 2 mo) (padded-digits 2 d),
        split-fields b':' (padded 2 (secs / 3600)) (padded 2 (secs % 3600 / 60))
            (padded 2 (secs % 60)) refl (padded-digits 2 (secs / 3600))
            (padded-digits 2 (secs % 3600 / 60)) (padded-digits 2 (secs % 60)),
        parse_i64-padded 4 yr h,
        parse_i64-padded 2 mo (omega arith),
        parse_i64-padded 2 d (omega arith),
        parse_i64-padded 2 (secs / 3600) (omega arith),
        parse_i64-padded 2 (secs % 3600 / 60) (omega arith),
        parse_i64-padded 2 (secs % 60) (omega arith),
      )
      refl

le→leb : (a b : ℕ) → a ≤ b → leb a b ≡ true
le→leb a b h = ground (arith, h)

leb_ℤ-pos : (a b : ℕ) → leb_ℤ (pos a) (pos b) ≡ leb a b
leb_ℤ-pos a b =
    let left : a + 0 ≡ a = omega arith in
    let right : b + 0 ≡ b = omega arith in rw (left, right) refl

is_past-fields :
    (now yr mo d days secs : ℕ)
    → day_number (yr, mo, d) ≡ pos days
    → now ≤ i64_max
    → is_past (some now) (
        pos yr ∷ pos mo ∷ pos d ∷ pos (secs / 3600) ∷ pos (secs % 3600 / 60) ∷ pos (secs % 60) ∷ [])
      ≡ leb (days * 86400 + secs) now
unfolding is_past
is_past-fields now yr mo d days secs e h =
    let clock : leb now i64_max ≡ true = le→leb now i64_max h in
    let sum : days * 86400 + secs / 3600 * 3600 + secs % 3600 / 60 * 60 + secs % 60
        ≡ days * 86400 + secs =
      omega arith in
    rw e (
      rw clock (
        rw (pos-times days 86400) (
          rw (pos-times (secs / 3600) 3600) (
            rw (pos-times (secs % 3600 / 60) 60) (
              rw (pos-plus (days * 86400) (secs / 3600 * 3600)) (
                rw (pos-plus (days * 86400 + secs / 3600 * 3600) (secs % 3600 / 60 * 60)) (
                  rw
                    (pos-plus (days * 86400 + secs / 3600 * 3600 + secs % 3600 / 60 * 60)
                      (secs % 60))
                    (rw sum (leb_ℤ-pos (days * 86400 + secs) now)))))))))

date-is_past :
    (now yr mo d days secs : ℕ)
    → day_number (yr, mo, d) ≡ pos days
    → yr ≤ i64_max
    → IsDate (yr, mo, d)
    → secs < 86400
    → now ≤ i64_max
    → rfc3339_is_in_past
        (some now)
        ((date_text (yr, mo, d) ++ (b'T' ∷ time_text secs)) ++ (b'Z' ∷ []))
      ≡ leb (days * 86400 + secs) now
unfolding rfc3339_is_in_past
date-is_past now yr mo d days secs e h (mo_min, mo_max, d_min, d_max) k l =
    rw
      (
        rfc3339_is_in_past,
        strip_suffix-append (date_text (yr, mo, d) ++ (b'T' ∷ time_text secs)) b'Z',
      )
      (rw
        (split_once-first is_date_byte b'T' (date_text (yr, mo, d)) (time_text secs) refl
          (date_text-bytes yr mo d))
        (rw (read_fields yr mo d secs h mo_max d_max k) (is_past-fields now yr mo d days secs e l)))

from_january-year : (y mp d : ℕ) → (from_january y mp d).0 ≤ y + 1
from_january-year y mp d = elim (Bool-cases (leb (if ltb mp 10 then mp + 3 else mp - 9) 2)) [
  | inl e ↦ rw e (omega arith)
  | inr e ↦ rw e (omega arith)
]

year_le : (days : ℕ) → (civil days).0 ≤ days + 800000
unfolding civil
year_le days =
    let doe : ℕ = (days + 719468) % 146097 in
    let y : ℕ = year_of_era doe + (days + 719468) / 146097 * 400 in
    let mp : ℕ = month_from_march (day_of_year doe) in
    let era : year_of_era doe ≤ 399 = year_of_era_bound doe (omega arith) in
    let far : (days + 719468) / 146097 * 400 ≤ days + 719468 = omega arith in
    let step : (civil days).0 ≤ y + 1 =
      from_january-year y mp (day_of_year doe - (153 * mp + 2) / 5 + 1) in
    omega (arith, step, era, far)

year_bound : (ts : ℕ) → ts ≤ i64_max → (civil (ts / 86400)).0 ≤ i64_max
year_bound ts h = omega (arith, year_le (ts / 86400), h)

-- The text that format_utc writes for a time stamp is found to be in the past exactly if the clock
-- has reached that stamp, where the clock and the stamp are numbers of i64.
pub format_utc-is_in_past :
    (now ts : ℕ)
    → now ≤ i64_max
    → ts ≤ i64_max
    → (written : Text) × (format_utc (pos ts) ≡ some written)
      × (rfc3339_is_in_past (some now) written ≡ leb ts now)
unfolding format_utc
format_utc-is_in_past now ts h k =
    let (date, number) = civil-day_number (ts / 86400) in
    let whole : ts / 86400 * 86400 + ts % 86400 ≡ ts = omega arith in
    (
      _,
      refl,
      date-is_past now (civil (ts / 86400)).0 (civil (ts / 86400)).1 (civil (ts / 86400)).2
            (ts / 86400) (ts % 86400) number (year_bound ts k) date (omega arith) h
          ∙ ap (λ t. leb t now) whole,
    )
