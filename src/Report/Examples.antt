-- ===== src/Report/Examples.antt =====
-- The human reports of sample observations.
use ip_tools.Base.{
  ℕ, ◌++◌, List, Text, decimal, if◌then◌else◌, ◌≡◌, refl, false, [], ◌∷◌, ◌==◌, nat_eq, text,
  concat, is_empty, ◌+◌,
}
use ip_tools.Base.Tests.{naturals}
use ip_tools.Net.{show_addr}
use ip_tools.Model.{show_kind, Severity}
use ip_tools.Style.{plain, paint}
use ip_tools.Style.Stripped.{strip_escapes}
use ip_tools.Report.Handshakes.{render_tcp, dest_w, tcp_row, tcp_status}
use ip_tools.Report.Columns.{pad_right, ms_or_dash}
use ip_tools.Report.Handshakes.Aligned.{render_tcp-HasColumn}
use ip_tools.Report.Columns.Width.{HasColumn, AllRows}
use ip_tools.Report.Repeats.{render_dns_repeat, render_probe}
use ip_tools.Report.Routes.{render_route, render_route_repeat}
use ip_tools.Report.Routes.Aligned.{ttl_head, shown_in, render_route_repeat-HasColumn}
use ip_tools.Report.Diagnoses.{render_diagnoses, severity_count, anomaly_count, anomaly_line}
use ip_tools.Report.Diagnoses.Numbers.{numbers}
use ip_tools.Report.Diagnoses.Tallied.{shown_counts, anomaly_line-total}
use ip_tools.Report.Stripped.{summaries-strip}
use ip_tools.Report.Samples.{
  connected, refused, coloured, host, repeated, probed, lost_hop, traced, traces, verdict,
}

tcp_test :
    render_tcp plain (connected ∷ refused ∷ [])
    ≡ text
        "TCP connect\n  1.2.3.4:443              PASS      12 ms\n  1.2.3.4:443              connection refused\n"
unfolding render_tcp dest_w tcp_row tcp_status show_addr text pad_right ms_or_dash show_kind concat
    paint
tcp_test = refl

render_tcp-HasColumn_example :
    (w : ℕ) × (rows : List Text) × (render_tcp plain (connected ∷ refused ∷ [])
      ≡ text "TCP connect\n" ++ concat rows)
    × AllRows
        (λ o row. HasColumn (text "  ") w (show_addr o.destination) row)
        (connected ∷ refused ∷ [])
        rows
render_tcp-HasColumn_example = render_tcp-HasColumn plain (connected ∷ refused ∷ [])

summaries-strip_example :
    (strip_escapes false (render_dns_repeat naturals coloured host (repeated ∷ []))
      ≡ render_dns_repeat naturals plain host (repeated ∷ []))
    × (strip_escapes false (render_probe naturals coloured (probed ∷ []))
        ≡ render_probe naturals plain (probed ∷ []))
    × (strip_escapes false (render_route coloured (lost_hop ∷ traced ∷ []))
        ≡ render_route plain (lost_hop ∷ traced ∷ []))
    × (strip_escapes false (render_route_repeat coloured traces) ≡ render_route_repeat plain traces)
    × (strip_escapes false (render_diagnoses coloured (verdict ∷ []))
        ≡ render_diagnoses plain (verdict ∷ []))
unfolding render_dns_repeat concat paint render_probe render_route render_route_repeat
    render_diagnoses
summaries-strip_example =
    summaries-strip coloured naturals host (repeated ∷ []) (probed ∷ []) (lost_hop ∷ traced ∷ [])
      traces (verdict ∷ []) refl refl refl refl refl

render_route_repeat-HasColumn_example :
    (w : ℕ) × (rows : List Text) × (render_route_repeat plain traces
      ≡ text "Traceroute (" ++ (decimal traces.runs ++ (text " runs)\n" ++ concat rows)))
    × AllRows (λ hop row. HasColumn (ttl_head hop.ttl) w (shown_in hop) row) traces.hops rows
render_route_repeat-HasColumn_example = render_route_repeat-HasColumn traces

anomaly_line-total_example :
    (numbers (anomaly_line plain (verdict ∷ [])) ≡ (
      if anomaly_count (verdict ∷ []) == 0
      then []
      else anomaly_count (verdict ∷ []) ∷ shown_counts (verdict ∷ [])))
    × (severity_count (verdict ∷ []) Severity.high
          + severity_count (verdict ∷ []) Severity.medium
          + severity_count (verdict ∷ []) Severity.low
          + severity_count (verdict ∷ []) Severity.info
        ≡ anomaly_count (verdict ∷ []))
    × (is_empty (anomaly_line plain (verdict ∷ [])) ≡ (anomaly_count (verdict ∷ []) == 0))
anomaly_line-total_example = anomaly_line-total (verdict ∷ [])
