-- ===== src/Cli/Diagnose.antt =====
-- src/cli/diagnose.rs: the full report on a target. `fl` is `f64`, `debug` is Rust's `{:?}` of a
-- text, and `now` the system clock.
pub mod Stripped
mod Examples
use ip_tools.Base.{ℕ, Bool, if◌then◌else◌, Option, List, [], ◌∷◌, Text, concat, Float}
use ip_tools.Model.{
  Diagnosis, DnsObservation, TcpObservation, TlsObservation, HttpObservation, ProbeResult,
}
use ip_tools.Style.{Style}
use ip_tools.Report.Observations.{render_dns}
use ip_tools.Report.Handshakes.{render_tcp, render_tls}
use ip_tools.Report.Http.{render_http, render_http_plain}
use ip_tools.Report.Repeats.{render_probe}
use ip_tools.Report.Diagnoses.{render_diagnoses}

-- `F` is the type of the success rate.
pub record DiagnoseReport (F : Type 0) : Type 0 where
  pub target : Text
  pub diagnoses : List Diagnosis
  pub dns : List DnsObservation
  pub tcp : List TcpObservation
  pub tls : List TlsObservation
  pub http : List HttpObservation
  pub probes : List (ProbeResult F)

module _ (fl : Float) (debug : Text → Text) (now : Option ℕ) where
  open fl use {F}

  -- `DiagnoseReport::render_human`.
  unfoldable pub render_human : DiagnoseReport F → Style → Bool → Text
  render_human report style plain = concat (
      render_dns debug style report.target report.dns
      ∷ render_tcp style report.tcp
      ∷ render_tls now style report.tls
      ∷ (if plain
          then render_http_plain now style report.http
          else render_http now style report.http)
      ∷ render_probe fl style report.probes
      ∷ render_diagnoses style report.diagnoses
      ∷ [])
