-- ===== src/Diagnostics/Engine.antt =====
-- `diagnose` of src/diagnostics/mod.rs.
pub mod Soundness
pub mod Guarantees
pub mod Offline
use ip_tools.Base.{ℕ, Bool, List, [], ◌∷◌, ◌++◌, Option, Text, text, Float, if◌then◌else◌, is_empty}
use ip_tools.Model.{Severity, Confidence, DiagnosticCategory, Diagnosis}
use ip_tools.Diagnostics.Input.{DiagnosticInput, evidence_of}
use ip_tools.Diagnostics.Connectivity.{connectivity_rules, family_rules}
use ip_tools.Diagnostics.Resolution.{dns_rules}
use ip_tools.Diagnostics.Layer.{
  tls_layer_rules, certificate_lifetime_rules, certificate_coverage_rules, http_layer_rules,
  redirect_rules, http_consistency_rules, truncated_body_rules, quic_rules, intermittent_rules,
  http_status_flapping_rules, latency_instability_rules,
}
use ip_tools.Diagnostics.Filtering.{filtering_rules}

unfoldable pub healthy : Text → Diagnosis
healthy hostname = record {
  severity = Severity.info;
  category = DiagnosticCategory.healthy;
  confidence = Confidence.high;
  summary = text "No significant connectivity anomaly observed for " ++ hostname;
  evidence =
      evidence_of (text "Every observed protocol layer succeeded or showed only expected behavior.")
      ∷ [];
  possible_causes = [];
}

-- `now` is the system clock, which the certificate rules read.
module _ (fl : Float) (now : Option ℕ) where
  open fl use {F}

  -- What the rules push, in their order.
  unfoldable pub findings : DiagnosticInput F → List Diagnosis
  findings input =
      let (resolution, dns_signal) = dns_rules input in
      resolution
      ++ (connectivity_rules input
          ++ (family_rules input
              ++ (tls_layer_rules input
                  ++ (certificate_lifetime_rules now input
                      ++ (certificate_coverage_rules input
                          ++ (http_layer_rules input
                              ++ (redirect_rules input
                                  ++ (http_consistency_rules input
                                      ++ (truncated_body_rules input
                                          ++ (quic_rules input
                                              ++ (intermittent_rules fl input
                                                  ++ (http_status_flapping_rules fl input
                                                      ++ (latency_instability_rules fl input
                                                          ++ filtering_rules input
                                                            dns_signal)))))))))))))

  unfoldable pub diagnose : DiagnosticInput F → List Diagnosis
  diagnose input =
      let out = findings input in if is_empty out then healthy input.hostname ∷ [] else out
