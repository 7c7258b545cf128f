-- ===== src/Diagnostics/Engine/Soundness.antt =====
-- Every finding of the engine is an anomaly with evidence and alternatives, and a filtering verdict
-- is a cautious one.
pub mod Verdicts
pub mod Rules
use ip_tools.Base.{
  ℕ, zero, suc, ◌≤◌, ◌<◌, ◌≡◌, ◌≢◌, refl, ◌⊎◌, inl, inr, Bool, true, false, Option, none, some,
  List, [], ◌∷◌, ◌++◌, Text, text, arith, Float, if◌then◌else◌, All, All-append, length, is_empty,
  map, Bool-cases, contains, not, ◌&&◌, ltb, leb, filter_map, ℤ,
}
use ip_tools.Net.{SocketAddr}
use ip_tools.Model.{
  Severity, Confidence, DiagnosticCategory, Diagnosis, Evidence, ProbeResult, CertificateSummary,
  TlsObservation, TcpObservation, HttpObservation, DnsObservation,
}
use ip_tools.Diagnostics.Input.{DiagnosticInput}
use ip_tools.Diagnostics.Connectivity.{
  total_loss, partial_loss, asymmetry, no_route, both_families, lone_verdict, lone_family,
  connectivity_rules, family_rules, family_result,
}
use ip_tools.Diagnostics.Resolution.{resolution_failed, resolvers_disagree, dns_rules}
use ip_tools.Diagnostics.Layer.{
  tls_failure, quic_failure, http_errors, truncated_body, redirected, protocols_differ,
  families_differ, addresses_differ, intermittent, status_flapping, latency_instability,
  not_yet_valid, expired, expiring, no_sans, not_covering, tls_layer_rules, quic_rules,
  http_layer_rules, truncated_body_rules, redirect_rules, http_consistency_rules, once_each,
  intermittent_rules, http_status_flapping_rules, latency_instability_rules, before_verdict,
  after_verdict, push_once, lifetime_of, lifetime_loop, coverage_verdict, coverage_of,
  coverage_loop, certificate_lifetime_rules, certificate_coverage_rules,
}
use ip_tools.Diagnostics.Filtering.{possible_filtering, filtering_rules}
use ip_tools.Diagnostics.Engine.{findings}

-- What the engine promises of a finding.
pub record IsSound (d : Diagnosis) : Type 0 where
  pub anomalous : d.severity ≢ Severity.info
  pub not_healthy : d.category ≢ DiagnosticCategory.healthy
  pub evidenced : d.evidence ≢ []
  pub explained : d.possible_causes ≢ []
  pub grave :
      d.severity ≡ Severity.high
      → (d.category ≡ DiagnosticCategory.dns)
        ⊎ (d.category ≡ DiagnosticCategory.total_connectivity_loss)
  pub cautious :
      d.category ≡ DiagnosticCategory.possible_network_filtering
      → (d.confidence ≢ Confidence.high) × (d.severity ≡ Severity.low) × (2 ≤ length d.evidence)

-- All the diagnoses of a list, and the one that there may be, are sound.
pub data AllSound : List Diagnosis → Type 0 where
  nil : AllSound []
  cons : {d : Diagnosis} {ds : List Diagnosis} → IsSound d → AllSound ds → AllSound (d ∷ ds)

pub data MaySound : Option Diagnosis → Type 0 where
  absent : MaySound none
  present : {d : Diagnosis} → IsSound d → MaySound (some d)

pub AllSound-append : {xs ys : List Diagnosis} → AllSound xs → AllSound ys → AllSound (xs ++ ys)
AllSound-append nil k = k
AllSound-append (cons h hs) k = cons h (AllSound-append hs k)

pub AllSound-if :
    (b : Bool) {xs ys : List Diagnosis}
    → AllSound xs
    → AllSound ys
    → AllSound (if b then xs else ys)
AllSound-if true h k = h
AllSound-if false h k = k

pub MaySound-if :
    (b : Bool) {x y : Option Diagnosis} → MaySound x → MaySound y → MaySound (if b then x else y)
MaySound-if true h k = h
MaySound-if false h k = k
