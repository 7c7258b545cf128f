-- ===== src/Model/Verdict.antt =====
-- src/model/diagnosis.rs: what the engine concludes.
use ip_tools.Base.{List, Text}

pub data Severity : Type 0 where
  info low medium high : Severity

pub data Confidence : Type 0 where
  unknown low medium high : Confidence

pub data DiagnosticCategory : Type 0 where
  healthy dns address_family partial_connectivity total_connectivity_loss : DiagnosticCategory
  intermittent tcp tls certificate http quic possible_network_filtering : DiagnosticCategory
  unknown : DiagnosticCategory

pub record Evidence : Type 0 where
  pub detail : Text

pub record Diagnosis : Type 0 where
  pub severity : Severity
  pub category : DiagnosticCategory
  pub confidence : Confidence
  pub summary : Text
  pub evidence : List Evidence
  pub possible_causes : List Text
