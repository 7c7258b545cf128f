-- ===== src/Diagnostics/Input.antt =====
-- `DiagnosticInput` of src/diagnostics/mod.rs, and what the rules write their verdicts with.
-- `out` is only ever pushed to, so a rule is the list of the diagnoses that it pushes.
use ip_tools.Base.{List, Text}
use ip_tools.Model.{
  Evidence, DnsObservation, TcpObservation, TlsObservation, HttpObservation, ProbeResult,
}

-- `F` is the type of a success rate.
pub record DiagnosticInput (F : Type 0) : Type 0 where
  pub hostname : Text
  pub dns : List DnsObservation
  pub tcp : List TcpObservation
  pub tls : List TlsObservation
  pub http : List HttpObservation
  pub probes : List (ProbeResult F)

abbrev pub evidence_of : Text → Evidence
evidence_of t = record { detail = t }
