-- ===== src/Report/Certificates.antt =====
-- src/report.rs: the summary of a certificate. `now` is the system clock.
use ip_tools.Base.{
  ℕ, ◌+◌, Bool, false, ◌&&◌, ◌||◌, is_empty, Option, none, some, List, [], ◌∷◌, nat_eq, ◌==◌,
  if◌then◌else◌, Text, text, decimal, concat, join, trim_end_matches, ℤ, pos, negsuc, ltb_ℤ, leb_ℤ,
}
use ip_tools.Model.{CertificateSummary}
use ip_tools.Report.Lifetime.{
  days_until_from_rfc3339, rfc3339_is_in_past, render_cert_expiry_window_days,
}
use ip_tools.Report.Coverage.{cert_covers_hostname}
use ip_tools.Style.{Style, pass, warn, fail}

abbrev valid_range : Option Text → Option Text → Text
valid_range (some after) (some before) =
    concat
      (text "valid " ∷ trim_end_matches b'Z' before ∷ text ".." ∷ trim_end_matches b'Z' after ∷ [])
valid_range _ _ = []

abbrev in_parentheses : Text → Text
in_parentheses valid = if is_empty valid then [] else concat (text " (" ∷ valid ∷ text ")" ∷ [])

abbrev pub is_today : ℤ → Bool
is_today (pos n) = n == 0
is_today (negsuc n) = false

-- `{days}`.
abbrev pub show_days : ℤ → Text
show_days (pos n) = decimal n
show_days (negsuc n) = b'-' ∷ decimal (n + 1)

abbrev plural : ℤ → Text
plural (pos n) = if n == 1 then [] else text "s"
plural (negsuc n) = text "s"

-- The closure over the days that are left; `passed` is whether the instant itself is in the past.
unfoldable pub days_left : Style → Bool → ℤ → Text
unfolding text decimal
days_left style passed days =
    if ltb_ℤ days (pos 0) || (is_today days && passed)
    then fail style (text " (expired)")
    else if is_today days
    then warn style (text " (expires today)")
    else if leb_ℤ days (pos render_cert_expiry_window_days)
    then warn style
        (concat (text " (expires in " ∷ show_days days ∷ text " day" ∷ plural days ∷ text ")" ∷ []))
    else []

abbrev sans_list : List Text → Text
sans_list [] = []
sans_list (san ∷ sans) = concat (text "; sans: " ∷ join (text ", ") (san ∷ sans) ∷ [])

module _ (now : Option ℕ) where
  unfoldable pub lifetime : Style → Option Text → Text
  unfolding days_left days_until_from_rfc3339 rfc3339_is_in_past
  lifetime style none = []
  lifetime style (some after) = elim (days_until_from_rfc3339 now after) [
    | none ↦ []
    | some days ↦ days_left style (rfc3339_is_in_past now after) days
  ]

  unfoldable pub render_cert : Style → CertificateSummary → Text
  unfolding lifetime text join trim_end_matches
  render_cert style cert = concat (
      cert.subject
      ∷ text " issued by "
      ∷ cert.issuer
      ∷ in_parentheses (valid_range cert.not_after_utc cert.not_before_utc)
      ∷ lifetime style cert.not_after_utc
      ∷ sans_list cert.sans
      ∷ [])

-- `yes` or `no`: whether the certificate names the host that was asked for.
unfoldable pub covers : Style → Text → List Text → Text
unfolding cert_covers_hostname text
covers style sni sans =
    if cert_covers_hostname sni sans then pass style (text "yes") else fail style (text "no")
