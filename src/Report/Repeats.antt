-- ===== src/Report/Repeats.antt =====
-- src/report.rs: the human reports of repeated queries and repeated probes. `fl` is `f64`.
use ip_tools.Base.{
  ℕ, Option, none, some, List, [], ◌∷◌, ◌++◌, ltb, if◌then◌else◌, is_empty, Text, text, decimal,
  concat, join, map, Float,
}
use ip_tools.Net.{show_addr}
use ip_tools.Model.{show_kind, label, FailureCount, StatusCount, LatencySummary, ProbeResult}
use ip_tools.Dns.Repeat.{DnsRepeatResult}
use ip_tools.Report.Columns.{newline, ms_or_dash, fmt, paint_status, paint_failures}
use ip_tools.Report.Observations.{rt_label}
use ip_tools.Style.{Style, fail}

-- `{kind}: {count}`, and `{status}x{count}`.
unfoldable pub failure_entry : Style → FailureCount → Text
unfolding text show_kind decimal
failure_entry style f = fail style (concat (show_kind f.kind ∷ text ": " ∷ decimal f.count ∷ []))

unfoldable pub status_entry : Style → StatusCount → Text
unfolding text decimal paint_status
status_entry style s =
    paint_status style s.status (concat (decimal s.status ∷ text "x" ∷ decimal s.count ∷ []))

abbrev pub failure_row : Style → FailureCount → Text
failure_row style f = concat (text "      - " ∷ failure_entry style f ∷ newline ∷ [])

abbrev figure : Text → Text → Text → Text
figure head value tail = concat (head ∷ value ∷ tail ∷ [])

unfoldable pub latency_rows : LatencySummary → Text
unfolding text ms_or_dash
latency_rows l =
    if ltb 0 l.count
    then concat (
        text "    latency:\n"
        ∷ figure (text "      min:  ") (ms_or_dash l.min) newline
        ∷ figure (text "      p50:  ") (ms_or_dash l.p50) newline
        ∷ figure (text "      p90:  ") (ms_or_dash l.p90) newline
        ∷ figure (text "      p95:  ") (ms_or_dash l.p95) newline
        ∷ figure (text "      p99:  ") (ms_or_dash l.p99) newline
        ∷ figure (text "      max:  ") (ms_or_dash l.max) newline
        ∷ figure (text "      jitter: ") (ms_or_dash l.jitter) newline
        ∷ [])
    else []

unfoldable pub probe_latency_rows : LatencySummary → Text
unfolding text fmt
probe_latency_rows l =
    if ltb 0 l.count
    then concat (
        text "    latency:\n"
        ∷ figure (text "      min:  ") (fmt l.min) (text " ms\n")
        ∷ figure (text "      p50:  ") (fmt l.p50) (text " ms\n")
        ∷ figure (text "      p90:  ") (fmt l.p90) (text " ms\n")
        ∷ figure (text "      p95:  ") (fmt l.p95) (text " ms\n")
        ∷ figure (text "      p99:  ") (fmt l.p99) (text " ms\n")
        ∷ figure (text "      max:  ") (fmt l.max) (text " ms\n")
        ∷ figure (text "      jitter: ") (fmt l.jitter) (text " ms\n")
        ∷ [])
    else []

unfoldable pub ttfb_rows : LatencySummary → Text
unfolding text fmt
ttfb_rows l =
    if ltb 0 l.count
    then concat (
        text "    ttfb:\n"
        ∷ figure (text "      min:  ") (fmt l.min) (text " ms\n")
        ∷ figure (text "      p50:  ") (fmt l.p50) (text " ms\n")
        ∷ figure (text "      p95:  ") (fmt l.p95) (text " ms\n")
        ∷ figure (text "      max:  ") (fmt l.max) (text " ms\n")
        ∷ [])
    else []

abbrev ttl_row : Option ℕ → Text
ttl_row none = []
ttl_row (some ttl) = concat (text "    ttl: " ∷ decimal ttl ∷ text " s\n" ∷ [])

abbrev pub failures_row : Style → List FailureCount → Text
failures_row style fs =
    if is_empty fs
    then []
    else concat
        (text "    failures: " ∷ join (text ", ") (map (failure_entry style) fs) ∷ newline ∷ [])

abbrev pub statuses_row : Style → List StatusCount → Text
statuses_row style ss =
    if is_empty ss
    then []
    else concat
        (text "    status:   " ∷ join (text ", ") (map (status_entry style) ss) ∷ newline ∷ [])

module _ (fl : Float) where
  open fl use {F, of_ℕ, mul_f, fixed1}

  unfoldable pub format_rate : F → Text
  unfolding text
  format_rate rate = fixed1 (mul_f rate (of_ℕ 100)) ++ text "%"

  unfoldable pub dns_repeat_block : Style → DnsRepeatResult F → Text
  unfolding text decimal format_rate failure_entry latency_rows label rt_label paint_failures
  dns_repeat_block style r = concat (
      text "  "
      ∷ label r.resolver
      ∷ text " "
      ∷ rt_label r.record_type
      ∷ newline
      ∷ text "    attempts: "
      ∷ decimal r.attempts
      ∷ newline
      ∷ text "    success:  "
      ∷ decimal r.successes
      ∷ text " ("
      ∷ format_rate r.success_rate
      ∷ text ")\n"
      ∷ text "    failure:  "
      ∷ paint_failures style r.failures
      ∷ newline
      ∷ concat (map (failure_row style) r.failure_counts)
      ∷ ttl_row r.ttl
      ∷ latency_rows r.latency
      ∷ [])

  unfoldable pub render_dns_repeat : Style → Text → List (DnsRepeatResult F) → Text
  unfolding dns_repeat_block text
  render_dns_repeat style host results =
      concat (text "Repeated DNS " ∷ host ∷ newline ∷ map (dns_repeat_block style) results)

  unfoldable pub probe_block : Style → ProbeResult F → Text
  unfolding text decimal show_addr format_rate probe_latency_rows ttfb_rows paint_failures join
      failure_entry status_entry
  probe_block style r = concat (
      text "  "
      ∷ show_addr r.destination
      ∷ newline
      ∷ text "    attempts: "
      ∷ decimal r.attempts
      ∷ text "\n    success:  "
      ∷ decimal r.successes
      ∷ text " ("
      ∷ format_rate r.success_rate
      ∷ text ")\n    failure:  "
      ∷ paint_failures style r.failures
      ∷ newline
      ∷ probe_latency_rows r.latency
      ∷ ttfb_rows r.ttfb
      ∷ failures_row style r.failure_counts
      ∷ statuses_row style r.status_counts
      ∷ [])

  unfoldable pub render_probe : Style → List (ProbeResult F) → Text
  unfolding probe_block text
  render_probe style results = concat (text "Repeated probes\n" ∷ map (probe_block style) results)
