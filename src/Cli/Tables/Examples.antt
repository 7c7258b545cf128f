-- ===== src/Cli/Tables/Examples.antt =====
-- The CSV exports of sample observations.
use ip_tools.Base.{ℕ, ◌≡◌, refl, true, false, some, List, [], ◌∷◌, map, Text, text}
use mathlib.Core.List.{flatten}
use ip_tools.Model.{
  TcpObservation, TlsObservation, HttpObservation, ProbeResult, Diagnosis, Severity,
  DiagnosticCategory, Confidence,
}
use ip_tools.Cli.Csv.{csv_field}
use ip_tools.Cli.Csv.RoundTrip.{begin}
use ip_tools.Cli.Csv.Table.{read_table}
use ip_tools.Cli.Tables.{
  tcp_header, tls_header, http_header, render_tcp_csv, render_tls_csv, render_http_csv,
}
use ip_tools.Cli.Tables.Read.{
  names, table, tcp_values, tls_values, http_values, observation_exports-read,
}
use ip_tools.Cli.Tables.Runs.{
  TargetDns, probe_header, dns_header, diagnosis_header, render_probe_csv, render_dns_csv,
  render_csv,
}
use ip_tools.Cli.Tables.Runs.Read.{probe_values, target_values, diagnosis_values, run_exports-read}
use ip_tools.Report.Samples.{
  connected, refused, shaken, answered, host, shown, looked_up, repeated, probed, verdict,
}

tcp_csv_test :
    render_tcp_csv ((host, connected ∷ refused ∷ []) ∷ [])
    ≡ text
        "host,destination,success,latency_ms,failure\na.b,1.2.3.4:443,1,12,\na.b,1.2.3.4:443,0,,connection refused\n"
unfolding render_tcp_csv text
tcp_csv_test = refl

abbrev tcp_run : List (Text × List TcpObservation)
tcp_run = (host, connected ∷ refused ∷ []) ∷ []

abbrev tls_run : List (Text × List TlsObservation)
tls_run = (host, shaken ∷ []) ∷ []

abbrev http_run : List (Text × List HttpObservation)
http_run = (host, answered ∷ []) ∷ []

observation_exports-read_example :
    (read_table [] begin (render_tcp_csv tcp_run) ≡ some (table tcp_header tcp_values tcp_run))
    × (read_table [] begin (render_tls_csv tls_run) ≡ some (table tls_header tls_values tls_run))
    × (read_table [] begin (render_http_csv http_run)
        ≡ some (table http_header http_values http_run))
observation_exports-read_example = observation_exports-read tcp_run tls_run http_run

-- In place of the names of serde, and of the print of a rate.
abbrev severity : Severity → Text
severity s = text "HIGH"

abbrev category : DiagnosticCategory → Text
category c = text "dns"

abbrev confidence : Confidence → Text
confidence c = text "high"

abbrev rate : ℕ → Text
rate x = b'1' ∷ []

abbrev targets : List (TargetDns ℕ)
targets =
    record { host = host; is_repeat = true; observations = []; results = repeated ∷ [] }
    ∷ record { host = host; is_repeat = false; observations = looked_up ∷ []; results = [] }
    ∷ []

abbrev probes : List (Text × List (ProbeResult ℕ))
probes = (host, probed ∷ []) ∷ []

abbrev verdicts : List (Text × List Diagnosis)
verdicts = (host, verdict ∷ []) ∷ []

run_exports-read_example :
    (read_table [] begin (render_probe_csv rate probes)
      ≡ some (table probe_header (probe_values rate) probes))
    × (read_table [] begin (render_dns_csv rate shown targets)
        ≡ some (names dns_header ∷ flatten (map (target_values rate shown) targets)))
    × (read_table [] begin (render_csv severity category confidence verdicts)
        ≡ some (table diagnosis_header (diagnosis_values severity category confidence) verdicts))
unfolding csv_field
run_exports-read_example =
    run_exports-read rate shown severity category confidence probes targets verdicts (λ x. refl)
