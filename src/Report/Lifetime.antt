-- ===== src/Report/Lifetime.antt =====
-- src/report.rs: the days that a certificate has left. `now` is the system clock in seconds since
-- the epoch, `none` if it stands before it.
use ip_tools.Base.{
  ℕ, ◌/◌, ◌≡◌, refl, Bool, false, List, [], ◌∷◌, ◌++◌, Option, none, some, leb, if◌then◌else◌, Text,
  get_range, strip_suffix, split_once, split, filter_map, ℤ, pos, ◌+ℤ◌, ◌-ℤ◌, ◌*ℤ◌, ltb_ℤ, leb_ℤ,
  div_euclid, rem_euclid, div_trunc, parse_i64, i64_max,
}

-- Days since 1970-01-01 for a civil date.
unfoldable pub days_from_civil : ℤ → ℤ → ℤ → ℤ
unfolding ◌+ℤ◌ ◌-ℤ◌ ◌*ℤ◌
days_from_civil y m d =
    let y' = if leb_ℤ m (pos 2) then y -ℤ pos 1 else y in
    let era = div_euclid y' 400 in
    let yoe = rem_euclid y' 400 in
    let mp = if ltb_ℤ (pos 2) m then m -ℤ pos 3 else m +ℤ pos 9 in
    let doy = div_trunc (pos 153 *ℤ mp +ℤ pos 2) 5 +ℤ d -ℤ pos 1 in
    let doe = yoe *ℤ pos 365 +ℤ div_trunc yoe 4 -ℤ div_trunc yoe 100 +ℤ doy in
    era *ℤ pos 146097 +ℤ doe -ℤ pos 719468

infixl 5 ◌>>=◌
abbrev ◌>>=◌ {ℓ κ} : {A : Type ℓ} {B : Type κ} → Option A → (A → Option B) → Option B
none >>= f = none
some a >>= f = f a

-- `i64::try_from` of a `u64`.
abbrev as_i64 : ℕ → Option ℤ
as_i64 n = if leb n i64_max then some (pos n) else none

unfoldable pub days_until_from_rfc3339 : Option ℕ → Text → Option ℤ
unfolding days_from_civil
days_until_from_rfc3339 now rfc3339 = do
  date ← get_range rfc3339 0 10
  y ← get_range date 0 4
  mo ← get_range date 5 7
  d ← get_range date 8 10
  year ← parse_i64 y
  month ← parse_i64 mo
  day ← parse_i64 d
  secs ← now
  now_days ← as_i64 (secs / 86400)
  some (days_from_civil year month day -ℤ now_days)

-- The seconds of the clock, 0 where it cannot be read.
abbrev now_secs : Option ℕ → ℤ
now_secs none = pos 0
now_secs (some n) = if leb n i64_max then pos n else pos 0

-- Exactly six fields that are numbers, the fields that are none left out.
unfoldable pub is_past : Option ℕ → List ℤ → Bool
unfolding days_from_civil
is_past now (y ∷ mo ∷ d ∷ h ∷ mi ∷ s ∷ []) =
    leb_ℤ (days_from_civil y mo d *ℤ pos 86400 +ℤ h *ℤ pos 3600 +ℤ mi *ℤ pos 60 +ℤ s) (now_secs now)
is_past now _ = false

unfoldable pub rfc3339_is_in_past : Option ℕ → Text → Bool
unfolding is_past
rfc3339_is_in_past now rfc3339 = elim (strip_suffix (b'Z' ∷ []) rfc3339) [
  | none ↦ false
  | some timestamp ↦ elim (split_once b'T' timestamp) [
    | none ↦ false
    | some (date, time) ↦ is_past now (filter_map parse_i64 (split b'-' date ++ split b':' time))
  ]
]

-- `RENDER_CERT_EXPIRY_WINDOW_DAYS`.
abbrev pub render_cert_expiry_window_days : ℕ
render_cert_expiry_window_days = 30

epoch_day : days_from_civil (pos 1970) (pos 1) (pos 1) ≡ pos 0
unfolding days_from_civil
epoch_day = refl

canonical_day : days_from_civil (pos 2000) (pos 1) (pos 2) ≡ pos 10958
unfolding days_from_civil
canonical_day = refl
