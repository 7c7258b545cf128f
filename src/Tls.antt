-- ===== src/Tls.antt =====
-- src/tls.rs: how the validity of a certificate is written.
use ip_tools.Base.{
  ℕ, suc, ◌+◌, ◌-◌, ◌*◌, ◌/◌, ◌%◌, Bool, List, [], ◌∷◌, ◌++◌, Option, none, some, ltb, leb,
  if◌then◌else◌, Text, decimal, length, replicate, ℤ, pos, negsuc,
}
pub mod Civil
pub mod Written
mod Examples

-- The year of its era (400 years), and the day of its year, of the `doe`-th day of an era.
abbrev pub year_of_era : ℕ → ℕ
year_of_era doe = (doe - doe / 1460 + doe / 36524 - doe / 146096) / 365

abbrev pub day_of_year : ℕ → ℕ
day_of_year doe = let yoe = year_of_era doe in doe - (365 * yoe + yoe / 4 - yoe / 100)

-- The months are counted from March.
abbrev pub month_from_march : ℕ → ℕ
month_from_march doy = (5 * doy + 2) / 153

-- Year, month and day, with the month and the year counted from January.
abbrev pub from_january : ℕ → ℕ → ℕ → ℕ × ℕ × ℕ
from_january y mp d =
    let mo = if ltb mp 10 then mp + 3 else mp - 9 in
    let yr = if leb mo 2 then y + 1 else y in (yr, mo, d)

-- The civil date that a number of days after 1970-01-01 falls on.
unfoldable pub civil : ℕ → ℕ × ℕ × ℕ
civil days =
    let z = days + 719468 in
    let era = z / 146097 in
    let doe = z % 146097 in
    let y = year_of_era doe + era * 400 in
    let doy = day_of_year doe in
    let mp = month_from_march doy in let d = doy - (153 * mp + 2) / 5 + 1 in from_january y mp d

-- `{n:0w}`.
abbrev pub padded : ℕ → ℕ → Text
padded w n = let s = decimal n in replicate (w - length s) b'0' ++ s

abbrev pub date_text : ℕ × ℕ × ℕ → Text
date_text (yr, mo, d) = padded 4 yr ++ (b'-' ∷ (padded 2 mo ++ (b'-' ∷ padded 2 d)))

abbrev pub time_text : ℕ → Text
time_text secs =
    padded 2 (secs / 3600)
    ++ (b':' ∷ (padded 2 (secs % 3600 / 60) ++ (b':' ∷ padded 2 (secs % 60))))

-- Every number of the algorithm is at least 0 once `ts` is.
unfoldable pub format_utc : ℤ → Option Text
unfolding civil
format_utc (negsuc n) = none
format_utc (pos ts) =
    some ((date_text (civil (ts / 86400)) ++ (b'T' ∷ time_text (ts % 86400))) ++ (b'Z' ∷ []))
