-- ===== src/Tls/Civil.antt =====
-- src/tls.rs and src/report.rs: the date that `format_utc` writes is the one that
-- `days_from_civil` reads.
use ip_tools.Base.{
  ℕ, ◌+◌, ◌-◌, ◌*◌, ◌/◌, ◌%◌, ◌≤◌, ◌<◌, ◌≡◌, ap, ◌∙◌, inl, inr, ltb, leb, ltb_ℤ, leb_ℤ, true, false,
  Bool-cases, ℤ, pos, ◌+ℤ◌, ◌-ℤ◌, ◌*ℤ◌, arith,
}
use ip_tools.Report.Lifetime.{days_from_civil}
use ip_tools.Tls.{year_of_era, day_of_year, month_from_march, from_january, civil}

pos-minus : (a b : ℕ) → b ≤ a → pos a -ℤ pos b ≡ pos (a - b)
unfolding ◌-ℤ◌
pos-minus a b h = ground (arith, h)

pub pos-plus : (a b : ℕ) → pos a +ℤ pos b ≡ pos (a + b)
unfolding ◌+ℤ◌
pos-plus a b = ground arith

pub pos-times : (a k : ℕ) → pos a *ℤ pos k ≡ pos (a * k)
unfolding ◌*ℤ◌
pos-times a k = ground arith

-- The day number of a day of a month that is counted from March.
abbrev march_days : ℕ → ℕ → ℕ → ℕ
march_days y mp d =
    y / 400 * 146097 + (y % 400 * 365 + y % 400 / 4 - y % 400 / 100 + ((153 * mp + 2) / 5 + d - 1))

march_sum :
    (y mp d : ℕ)
    → 1 ≤ d
    → 719468 ≤ march_days y mp d
    → pos (y / 400) *ℤ pos 146097
        +ℤ (pos (y % 400) *ℤ pos 365
            +ℤ pos (y % 400 / 4)
            -ℤ pos (y % 400 / 100)
            +ℤ (pos ((153 * mp + 2) / 5) +ℤ pos d -ℤ pos 1))
        -ℤ pos 719468
      ≡ pos (march_days y mp d - 719468)
march_sum y mp d k l =
    let leap : y % 400 / 100 ≤ y % 400 * 365 + y % 400 / 4 = omega arith in
    let day : 1 ≤ (153 * mp + 2) / 5 + d = omega (arith, k) in
    rw (pos-times (y / 400) 146097) (
      rw (pos-times (y % 400) 365) (
        rw (pos-plus (y % 400 * 365) (y % 400 / 4)) (
          rw (pos-minus (y % 400 * 365 + y % 400 / 4) (y % 400 / 100) leap) (
            rw (pos-plus ((153 * mp + 2) / 5) d) (
              rw (pos-minus ((153 * mp + 2) / 5 + d) 1 day) (
                rw
                  (pos-plus (y % 400 * 365 + y % 400 / 4 - y % 400 / 100)
                    ((153 * mp + 2) / 5 + d - 1))
                  (rw
                    (pos-plus (y / 400 * 146097)
                      (y % 400 * 365 + y % 400 / 4 - y % 400 / 100 + ((153 * mp + 2) / 5 + d - 1)))
                    (pos-minus (march_days y mp d) 719468 l))))))))

late_months :
    (y mo d : ℕ)
    → 3 ≤ mo
    → 1 ≤ d
    → 719468 ≤ march_days y (mo - 3) d
    → days_from_civil (pos y) (pos mo) (pos d) ≡ pos (march_days y (mo - 3) d - 719468)
unfolding days_from_civil
late_months y mo d h k l =
    let late : leb_ℤ (pos mo) (pos 2) ≡ false = ground (arith, h) in
    let march : ltb_ℤ (pos 2) (pos mo) ≡ true = ground (arith, h) in
    rw late (
      rw march (
        rw (pos-minus mo 3 h) (
          rw (pos-times 153 (mo - 3))
            (rw (pos-plus (153 * (mo - 3)) 2) (march_sum y (mo - 3) d k l)))))

early_months :
    (y mo d : ℕ)
    → mo ≤ 2
    → 1 ≤ d
    → 719468 ≤ march_days y (mo + 9) d
    → days_from_civil (pos (y + 1)) (pos mo) (pos d) ≡ pos (march_days y (mo + 9) d - 719468)
unfolding days_from_civil
early_months y mo d h k l =
    let early : leb_ℤ (pos mo) (pos 2) ≡ true = ground (arith, h) in
    let march : ltb_ℤ (pos 2) (pos mo) ≡ false = ground (arith, h) in
    let year : y + 1 - 1 ≡ y = omega arith in
    rw early (
      rw march (
        rw (pos-minus (y + 1) 1 (omega arith)) (
          rw year (
            rw (pos-plus mo 9) (
              rw (pos-times 153 (mo + 9))
                (rw (pos-plus (153 * (mo + 9)) 2) (march_sum y (mo + 9) d k l)))))))

pub year_of_era_bound : (doe : ℕ) → doe < 146097 → year_of_era doe ≤ 399
year_of_era_bound doe h = omega arith

day_of_year_eq :
    (doe : ℕ)
    → doe < 146097
    → let yoe = year_of_era doe in 365 * yoe + yoe / 4 - yoe / 100 + day_of_year doe ≡ doe
day_of_year_eq doe h = omega arith

day_of_year_bound : (doe : ℕ) → doe < 146097 → day_of_year doe ≤ 365
day_of_year_bound doe h = omega arith

month_bound :
    (doy : ℕ)
    → doy ≤ 365
    → (month_from_march doy ≤ 11)
      × ((153 * month_from_march doy + 2) / 5 ≤ doy)
      × (doy ≤ (153 * month_from_march doy + 2) / 5 + 30)
month_bound doy h = (omega (arith, h), omega (arith, h), omega (arith, h))

-- The day number that the civil date stands for.
abbrev pub day_number : ℕ × ℕ × ℕ → ℤ
day_number (yr, mo, d) = days_from_civil (pos yr) (pos mo) (pos d)

abbrev pub IsDate : ℕ × ℕ × ℕ → Type 0
IsDate (yr, mo, d) = (1 ≤ mo) × (mo ≤ 12) × (1 ≤ d) × (d ≤ 31)

from_january-day_number :
    (y mp d : ℕ)
    → mp ≤ 11
    → 1 ≤ d
    → d ≤ 31
    → 719468 ≤ march_days y mp d
    → IsDate (from_january y mp d)
      × (day_number (from_january y mp d) ≡ pos (march_days y mp d - 719468))
from_january-day_number y mp d h k u l = elim (Bool-cases (ltb mp 10)) [
  | inl e ↦
      let late : leb (mp + 3) 2 ≡ false = ground arith in
      let back : mp + 3 - 3 ≡ mp = omega arith in
      let days = late_months y (mp + 3) d (omega arith) k (rw back l) in
      rw (e, late)
        (
          (omega arith, ground (arith, e), k, u),
          days ∙ ap (λ m. pos (march_days y m d - 719468)) back,
        )
  | inr e ↦
      let early : leb (mp - 9) 2 ≡ true = ground (arith, h) in
      let back : mp - 9 + 9 ≡ mp = ground (arith, e) in
      let days = early_months y (mp - 9) d (omega (arith, h)) k (rw back l) in
      rw (e, early)
        (
          (ground (arith, e), omega (arith, h), k, u),
          days ∙ ap (λ m. pos (march_days y m d - 719468)) back,
        )
]

march_days-parts :
    (era yoe mp doy : ℕ)
    → yoe ≤ 399
    → (153 * mp + 2) / 5 ≤ doy
    → march_days (yoe + era * 400) mp (doy - (153 * mp + 2) / 5 + 1)
      ≡ era * 146097 + (365 * yoe + yoe / 4 - yoe / 100 + doy)
march_days-parts era yoe mp doy h k =
    let whole : (yoe + era * 400) / 400 ≡ era = omega (arith, h) in
    let rest : (yoe + era * 400) % 400 ≡ yoe = omega (arith, h) in
    rw (whole, rest) (omega (arith, k))

march_days-civil :
    (era doe : ℕ)
    → doe < 146097
    → march_days
        (year_of_era doe + era * 400)
        (month_from_march (day_of_year doe))
        (day_of_year doe - (153 * month_from_march (day_of_year doe) + 2) / 5 + 1)
      ≡ era * 146097 + doe
march_days-civil era doe h =
    let (mp_max, mp_low, mp_high) = month_bound (day_of_year doe) (day_of_year_bound doe h) in
    march_days-parts era (year_of_era doe) (month_from_march (day_of_year doe)) (day_of_year doe)
      (year_of_era_bound doe h) mp_low
    ∙ ap (λ x. era * 146097 + x) (day_of_year_eq doe h)

-- The date that format_utc writes for a day has a month of 1 to 12 and a day of 1 to 31, and
-- days_from_civil gives the day back.
pub civil-day_number : (days : ℕ) → IsDate (civil days) × (day_number (civil days) ≡ pos days)
unfolding civil
civil-day_number days =
    let z : ℕ = days + 719468 in
    let doe : ℕ = z % 146097 in
    let y : ℕ = year_of_era doe + z / 146097 * 400 in
    let mp : ℕ = month_from_march (day_of_year doe) in
    let d : ℕ = day_of_year doe - (153 * mp + 2) / 5 + 1 in
    let small : doe < 146097 = omega arith in
    let (mp_max, mp_low, mp_high) = month_bound (day_of_year doe) (day_of_year_bound doe small) in
    let whole : z / 146097 * 146097 + doe ≡ days + 719468 = omega arith in
    let sum : march_days y mp d ≡ days + 719468 = march_days-civil (z / 146097) doe small ∙ whole in
    let (date, number) =
      from_january-day_number y mp d mp_max (omega arith) (omega (arith, mp_high))
        (omega (arith, sum)) in
    (date, number ∙ ap (λ x. pos (x - 719468)) sum ∙ ap pos (omega arith))
