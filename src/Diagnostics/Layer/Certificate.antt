-- ===== src/Diagnostics/Layer/Certificate.antt =====
-- src/diagnostics/layer.rs: the lifetime of the served certificate, and the names that it covers.
use ip_tools.Base.{
  ℕ, suc, Bool, true, false, not, ◌&&◌, ◌||◌, List, [], ◌∷◌, ◌++◌, Option, none, some, ◌==◌, Text,
  text, text_eq, text_beq, PartialEq, ◌≡◌, ◌↔◌, arith, text_beq_iff, join, decimal, if◌then◌else◌,
  is_empty, contains, ℤ, pos, negsuc, ltb_ℤ, leb_ℤ, ◌-ℤ◌, nat_eq,
}
use ip_tools.Model.{
  TlsObservation, CertificateSummary, Severity, Confidence, DiagnosticCategory, Diagnosis,
}
use ip_tools.Report.Lifetime.{
  days_until_from_rfc3339, rfc3339_is_in_past, render_cert_expiry_window_days,
}
use ip_tools.Report.Coverage.{cert_covers_hostname}
use ip_tools.Diagnostics.Input.{DiagnosticInput, evidence_of}

abbrev pub summary_beq : Text × Text → Text × Text → Bool
summary_beq (a, b) (c, d) = text_beq a c && text_beq b d

pub summary_beq_iff : (p q : Text × Text) → (summary_beq p q ≡ true) ↔ (p ≡ q)
summary_beq_iff (a, b) (c, d) = ground (arith, text_beq_iff a c, text_beq_iff b d)

-- The pairs (SNI, summary) that were reported.
instance abbrev pub summary_eq : PartialEq (Text × Text)
summary_eq = record { beq = summary_beq; beq_iff = summary_beq_iff }

abbrev show_ℤ : ℤ → Text
show_ℤ (pos n) = decimal n
show_ℤ (negsuc n) = b'-' ∷ decimal (suc n)

abbrev subject_of : CertificateSummary → Text
subject_of cert = text " (subject " ++ (cert.subject ++ text ")")

unfoldable pub not_yet_valid : Text → CertificateSummary → Text → ℤ → Diagnosis
not_yet_valid sni cert not_before days = record {
  severity = Severity.medium;
  category = DiagnosticCategory.certificate;
  confidence = Confidence.medium;
  summary =
      text "Certificate for "
      ++ (sni
          ++ (text " is not yet valid (starts in "
              ++ (show_ℤ days ++ (text " day(s), subject " ++ (cert.subject ++ text ")")))));
  evidence = evidence_of (text "peer certificate notBefore is in the future: " ++ not_before) ∷ [];
  possible_causes =
      text "certificate issued with a future notBefore (misissuance)"
      ∷ text "server or client clock skew"
      ∷ text "certificate deployed before its validity window began"
      ∷ [];
}

-- `days == 0`.
abbrev is_zero_ℤ : ℤ → Bool
is_zero_ℤ (pos n) = n == 0
is_zero_ℤ (negsuc n) = false

-- `-days`.
abbrev negated : ℤ → ℤ
negated days = pos 0 -ℤ days

unfoldable pub expired : Text → CertificateSummary → Text → ℤ → Diagnosis
expired sni cert not_after days = record {
  severity = Severity.medium;
  category = DiagnosticCategory.certificate;
  confidence = Confidence.high;
  summary =
      text "Certificate for "
      ++ (sni
          ++ (text " expired "
              ++ ((if is_zero_ℤ days
                    then text "today"
                    else show_ℤ (negated days) ++ text " day(s) ago")
                  ++ subject_of cert)));
  evidence = evidence_of (text "peer certificate notAfter is in the past: " ++ not_after) ∷ [];
  possible_causes =
      text "certificate not renewed before its notAfter"
      ∷ text "operator is serving a stale/revoked deployment"
      ∷ [];
}

abbrev when_due : ℤ → Text
when_due days =
    if is_zero_ℤ days then text "today" else text "in " ++ (show_ℤ days ++ text " day(s)")

unfoldable pub expiring : Text → CertificateSummary → Text → ℤ → Diagnosis
expiring sni cert not_after days = record {
  severity = Severity.low;
  category = DiagnosticCategory.certificate;
  confidence = Confidence.medium;
  summary =
      text "Certificate for " ++ (sni ++ (text " expires " ++ (when_due days ++ subject_of cert)));
  evidence =
      evidence_of
        (text "peer certificate notAfter is " ++ (when_due days ++ (text ": " ++ not_after)))
      ∷ [];
  possible_causes = text "certificate approaching its renewal date" ∷ [];
}

-- What one certificate's `notBefore` gives.
unfoldable pub before_verdict : Option ℕ → Text → CertificateSummary → Option Diagnosis
before_verdict now sni cert = elim cert.not_before_utc [
  | none ↦ none
  | some not_before ↦ elim (days_until_from_rfc3339 now not_before) [
    | none ↦ none
    | some days ↦ if ltb_ℤ (pos 0) days then some (not_yet_valid sni cert not_before days) else none
  ]
]

abbrev has_expired : Option ℕ → Text → ℤ → Bool
has_expired now not_after days =
    ltb_ℤ days (pos 0) || is_zero_ℤ days && rfc3339_is_in_past now not_after

-- What its `notAfter` gives.
unfoldable pub after_verdict : Option ℕ → Text → CertificateSummary → Option Diagnosis
after_verdict now sni cert = elim cert.not_after_utc [
  | none ↦ none
  | some not_after ↦ elim (days_until_from_rfc3339 now not_after) [
    | none ↦ none
    | some days ↦
        if has_expired now not_after days
        then some (expired sni cert not_after days)
        else if leb_ℤ days (pos render_cert_expiry_window_days)
        then some (expiring sni cert not_after days)
        else none
  ]
]

-- The closure `push`: a verdict is pushed once for each SNI and summary.
unfoldable pub push_once :
    Text
    → Option Diagnosis
    → List (Text × Text) × List Diagnosis
    → List (Text × Text) × List Diagnosis
push_once sni none st = st
push_once sni (some d) (reported, out) =
    if contains reported (sni, d.summary)
    then (reported, out)
    else (reported ++ ((sni, d.summary) ∷ []), out ++ (d ∷ []))

-- One round of the loop, at the certificate that was served.
unfoldable pub lifetime_of :
    Option ℕ
    → Text
    → Option CertificateSummary
    → List (Text × Text) × List Diagnosis
    → List (Text × Text) × List Diagnosis
unfolding before_verdict after_verdict push_once
lifetime_of now sni none st = st
lifetime_of now sni (some cert) st =
    push_once sni (after_verdict now sni cert) (push_once sni (before_verdict now sni cert) st)

unfoldable pub lifetime_loop :
    Option ℕ
    → List TlsObservation
    → List (Text × Text) × List Diagnosis
    → List (Text × Text) × List Diagnosis
unfolding lifetime_of
lifetime_loop now [] st = st
lifetime_loop now (t ∷ rest) st = lifetime_loop now rest (lifetime_of now t.sni t.certificate st)

unfoldable pub no_sans : Text → CertificateSummary → Diagnosis
no_sans sni cert = record {
  severity = Severity.medium;
  category = DiagnosticCategory.certificate;
  confidence = Confidence.medium;
  summary =
      text "Certificate for "
      ++ (sni ++ (text " has no Subject Alternative Names" ++ subject_of cert));
  evidence =
      evidence_of (text "the served certificate lists no SANs to match the presented hostname")
      ∷ [];
  possible_causes =
      text "mis-issued certificate without SANs (needs SANs for modern validation)"
      ∷ text "server is presenting the wrong leaf certificate"
      ∷ [];
}

unfoldable pub not_covering : Text → CertificateSummary → Diagnosis
not_covering sni cert = record {
  severity = Severity.medium;
  category = DiagnosticCategory.certificate;
  confidence = Confidence.medium;
  summary =
      text "Certificate for "
      ++ (sni ++ (text " does not cover the presented hostname" ++ subject_of cert));
  evidence =
      evidence_of (
        text "SANs "
        ++ (join (text ", ") cert.sans ++ (text " do not match presented SNI " ++ sni)))
      ∷ [];
  possible_causes =
      text "wrong-host or shared-host certificate presented"
      ∷ text "wildcard/exact SAN mismatch for the requested hostname"
      ∷ text "connection is to an IP that the certificate does not cover"
      ∷ [];
}

unfoldable pub coverage_verdict : Text → CertificateSummary → Option Diagnosis
coverage_verdict sni cert =
    if is_empty cert.sans
    then some (no_sans sni cert)
    else if not (cert_covers_hostname sni cert.sans)
    then some (not_covering sni cert)
    else none

unfoldable pub coverage_of : Text → Option CertificateSummary → Option Diagnosis
unfolding coverage_verdict
coverage_of sni none = none
coverage_of sni (some cert) = coverage_verdict sni cert

-- The loop over the observations; a summary is reported once.
unfoldable pub coverage_loop : List Text → List TlsObservation → List Diagnosis
coverage_loop reported [] = []
coverage_loop reported (t ∷ rest) = elim (coverage_of t.sni t.certificate) [
  | none ↦ coverage_loop reported rest
  | some d ↦
      let old = coverage_loop reported rest in
      let new = coverage_loop (reported ++ (d.summary ∷ [])) rest in
      if contains reported d.summary then old else d ∷ new
]

module _ {F : Type 0} where
  unfoldable pub certificate_lifetime_rules : Option ℕ → DiagnosticInput F → List Diagnosis
  unfolding lifetime_loop
  certificate_lifetime_rules now input = (lifetime_loop now input.tls ([], [])).1

  unfoldable pub certificate_coverage_rules : DiagnosticInput F → List Diagnosis
  unfolding coverage_loop
  certificate_coverage_rules input = coverage_loop [] input.tls
