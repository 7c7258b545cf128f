-- ===== src/Report/Diagnoses.antt =====
-- src/report.rs: the human report of the engine's verdicts.
pub mod Numbers
pub mod Tallied
use ip_tools.Base.{
  ℕ, ◌+◌, Bool, true, false, not, ◌&&◌, nat_eq, ◌==◌, List, [], ◌∷◌, ◌++◌, ltb, if◌then◌else◌, any,
  filter, filter_map, length, is_empty, Text, text, decimal, concat, join, map, Option, none, some,
}
use ip_tools.Model.{Severity, Confidence, DiagnosticCategory, Diagnosis, Evidence}
use ip_tools.Report.Columns.{newline}
use ip_tools.Style.{Style, fail, warn, info}

-- `{:?}` in capitals.
abbrev pub show_severity : Severity → Text
show_severity Severity.info = text "INFO"
show_severity Severity.low = text "LOW"
show_severity Severity.medium = text "MEDIUM"
show_severity Severity.high = text "HIGH"

-- `{:?}`.
abbrev show_confidence : Confidence → Text
show_confidence Confidence.unknown = text "Unknown"
show_confidence Confidence.low = text "Low"
show_confidence Confidence.medium = text "Medium"
show_confidence Confidence.high = text "High"

abbrev show_category : DiagnosticCategory → Text
show_category DiagnosticCategory.healthy = text "Healthy"
show_category DiagnosticCategory.dns = text "Dns"
show_category DiagnosticCategory.address_family = text "AddressFamily"
show_category DiagnosticCategory.partial_connectivity = text "PartialConnectivity"
show_category DiagnosticCategory.total_connectivity_loss = text "TotalConnectivityLoss"
show_category DiagnosticCategory.intermittent = text "Intermittent"
show_category DiagnosticCategory.tcp = text "Tcp"
show_category DiagnosticCategory.tls = text "Tls"
show_category DiagnosticCategory.certificate = text "Certificate"
show_category DiagnosticCategory.http = text "Http"
show_category DiagnosticCategory.quic = text "Quic"
show_category DiagnosticCategory.possible_network_filtering = text "PossibleNetworkFiltering"
show_category DiagnosticCategory.unknown = text "Unknown"

unfoldable pub render_severity_badge : Style → Severity → Text
unfolding text
render_severity_badge style Severity.high = fail style (text "HIGH")
render_severity_badge style Severity.medium = warn style (text "MEDIUM")
render_severity_badge style Severity.info = info style (text "INFO")
render_severity_badge style Severity.low = text "LOW"

abbrev bullet : Text → Text
bullet s = concat (text "      - " ∷ s ∷ newline ∷ [])

abbrev section_of : Text → List Text → Text
section_of head [] = []
section_of head (s ∷ ss) = head ++ concat (map bullet (s ∷ ss))

unfoldable pub diagnosis_block : Style → Diagnosis → Text
unfolding render_severity_badge text
diagnosis_block style d = concat (
    text "["
    ∷ render_severity_badge style d.severity
    ∷ text "] "
    ∷ show_category d.category
    ∷ text " ("
    ∷ show_confidence d.confidence
    ∷ text " confidence)\n    "
    ∷ d.summary
    ∷ newline
    ∷ section_of (text "    Evidence:\n") (map (λ (e : Evidence). e.detail) d.evidence)
    ∷ section_of (text "    Possible causes:\n") d.possible_causes
    ∷ newline
    ∷ [])

-- `category != Healthy`.
unfoldable pub is_anomaly : Diagnosis → Bool
is_anomaly d = elim d.category [ DiagnosticCategory.healthy ↦ false | _ ↦ true ]

abbrev pub has_severity : Severity → Severity → Bool
has_severity Severity.info Severity.info = true
has_severity Severity.low Severity.low = true
has_severity Severity.medium Severity.medium = true
has_severity Severity.high Severity.high = true
has_severity _ _ = false

unfoldable pub severity_count : List Diagnosis → Severity → ℕ
unfolding is_anomaly
severity_count ds severity =
    length (filter (λ (d : Diagnosis). is_anomaly d && has_severity severity d.severity) ds)

unfoldable pub severity_part : List Diagnosis → Severity → Option Text
unfolding severity_count text decimal
severity_part ds severity =
    let count = severity_count ds severity in
    if ltb 0 count
    then some (concat (show_severity severity ∷ text ": " ∷ decimal count ∷ []))
    else none

abbrev pub severities : List Severity
severities = Severity.high ∷ Severity.medium ∷ Severity.low ∷ Severity.info ∷ []

abbrev pub is_high : Diagnosis → Bool
is_high d = has_severity Severity.high d.severity

unfoldable pub anomaly_count : List Diagnosis → ℕ
unfolding is_anomaly
anomaly_count ds = length (filter is_anomaly ds)

unfoldable pub anomaly_token : List Diagnosis → Text
unfolding anomaly_count severity_part text decimal join
anomaly_token ds = concat (
    text "Anomalies: "
    ∷ decimal (anomaly_count ds)
    ∷ text " ("
    ∷ join (text ", ") (filter_map (severity_part ds) severities)
    ∷ text ")"
    ∷ [])

unfoldable pub anomaly_line : Style → List Diagnosis → Text
unfolding anomaly_token anomaly_count
anomaly_line style ds =
    if ltb 0 (anomaly_count ds)
    then (if any is_high ds then fail style (anomaly_token ds) else warn style (anomaly_token ds))
      ++ newline
    else []

unfoldable pub render_diagnoses : Style → List Diagnosis → Text
unfolding diagnosis_block anomaly_line text
render_diagnoses style ds =
    concat
      (text "Diagnosis\n" ∷ concat (map (diagnosis_block style) ds) ∷ anomaly_line style ds ∷ [])
