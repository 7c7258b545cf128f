-- ===== src/Cli/Tables/Runs.antt =====
-- src/cli/{probe,route,dns,diagnose}.rs: the CSV exports of repeated probes, traces, lookups and
-- verdicts. `fixed4` is `{:.4}` of a rate, `debug` is Rust's `{:?}` of a text, and `severity`,
-- `category` and `confidence` are the names that serde gives the engine's enums.

pub mod Read
use ip_tools.Base.{
  ℕ, Bool, true, false, Option, none, some, List, [], ◌∷◌, ◌++◌, if◌then◌else◌, is_none, Text, text,
  decimal, concat, join, map,
}
use ip_tools.Net.{IpAddr, show_addr, show_ip}
use ip_tools.Model.{
  ProbeResult, StatusCount, DnsObservation, label, show_type, Diagnosis, Severity,
  DiagnosticCategory, Confidence, Evidence,
}
use ip_tools.Dns.Repeat.{DnsRepeatResult}
use ip_tools.Route.{RouteHop, RouteHopStats, RouteRepeat}
use ip_tools.Report.Escapes.{show_record}
use ip_tools.Cli.Csv.{csv_field, csv_row}
use ip_tools.Cli.Tables.{opt, unwrap_or_empty, flag}

abbrev pub show_addr_of : Option IpAddr → Text
show_addr_of none = []
show_addr_of (some a) = show_ip a

unfoldable pub route_cells : RouteHop → List Text
unfolding csv_field show_ip decimal
route_cells h =
    decimal h.ttl
    ∷ csv_field (unwrap_or_empty h.hostname)
    ∷ csv_field (show_addr_of h.addr)
    ∷ csv_field (opt h.rtt_ms)
    ∷ flag h.lost
    ∷ []

abbrev pub route_header : Text
route_header = text "ttl,hostname,addr,rtt_ms,lost\n"

unfoldable pub render_route_csv : List RouteHop → Text
unfolding route_cells csv_row text concat
render_route_csv hops = route_header ++ concat (map (λ h. csv_row (route_cells h)) hops)

unfoldable pub hop_addrs : RouteHopStats → Text
unfolding show_ip join
hop_addrs h = join (b';' ∷ []) (map show_ip h.addrs)

unfoldable pub route_repeat_cells : ℕ → RouteHopStats → List Text
unfolding csv_field hop_addrs decimal
route_repeat_cells runs h =
    decimal h.ttl
    ∷ csv_field (unwrap_or_empty h.hostname)
    ∷ csv_field (hop_addrs h)
    ∷ csv_field (opt h.rtt.min)
    ∷ csv_field (opt h.rtt.p50)
    ∷ csv_field (opt h.rtt.max)
    ∷ decimal h.answered
    ∷ decimal runs
    ∷ flag h.path_changed
    ∷ []

abbrev pub route_repeat_header : Text
route_repeat_header =
    text "ttl,hostname,addr,rtt_min_ms,rtt_p50_ms,rtt_max_ms,answered,runs,path_changed\n"

unfoldable pub render_route_repeat_csv : RouteRepeat → Text
unfolding route_repeat_cells csv_row text concat
render_route_repeat_csv rep =
    route_repeat_header ++ concat (map (λ h. csv_row (route_repeat_cells rep.runs h)) rep.hops)

abbrev status_token : StatusCount → Text
status_token s = concat (decimal s.status ∷ text "x" ∷ decimal s.count ∷ [])

unfoldable pub statuses : List StatusCount → Text
unfolding join text decimal concat
statuses ss = join (b';' ∷ []) (map status_token ss)

abbrev pub statuses_cell : List StatusCount → Text
statuses_cell [] = []
statuses_cell (s ∷ ss) = csv_field (statuses (s ∷ ss))

abbrev pub probe_header : Text
probe_header =
    text
      "host,destination,attempts,success_rate,latency_p50_ms,latency_p95_ms,latency_max_ms,jitter_ms,ttfb_p50_ms,ttfb_p95_ms,ttfb_max_ms,failures,statuses\n"

abbrev pub dns_header : Text
dns_header =
    text
      "host,resolver,record_type,attempts,success_rate,latency_p50_ms,latency_p95_ms,latency_max_ms,failures,ttl,records\n"

abbrev pub diagnosis_header : Text
diagnosis_header = text "host,severity,category,confidence,summary,evidence,possible_causes\n"

-- `TargetDns` of src/cli/dns.rs.
pub record TargetDns (F : Type 0) : Type 0 where
  pub host : Text
  pub is_repeat : Bool
  pub observations : List DnsObservation
  pub results : List (DnsRepeatResult F)

-- The fields of `DiagnoseReport` that its CSV export reads.
abbrev pub join_semis : List Text → Text
join_semis parts = join (text "; ") parts

module _ (debug : Text → Text) where
  unfoldable pub records_text : DnsObservation → Text
  unfolding show_record join text
  records_text obs = join (text ", ") (map (show_record debug) obs.records)

  unfoldable pub lookup_cells : Text → DnsObservation → List Text
  unfolding csv_field label show_type decimal records_text text
  lookup_cells host obs =
      csv_field host
      ∷ csv_field (label obs.resolver)
      ∷ csv_field (show_type obs.record_type)
      ∷ (b'1' ∷ [])
      ∷ (if is_none obs.error then text "1.0000" else text "0.0000")
      ∷ opt obs.latency_ms
      ∷ opt obs.latency_ms
      ∷ opt obs.latency_ms
      ∷ (if is_none obs.error then b'0' ∷ [] else b'1' ∷ [])
      ∷ opt obs.ttl
      ∷ csv_field (records_text obs)
      ∷ []

module _ {F : Type 0} (fixed4 : F → Text) where
  unfoldable pub probe_cells : Text → ProbeResult F → List Text
  unfolding csv_field show_addr decimal statuses
  probe_cells host r =
      csv_field host
      ∷ csv_field (show_addr r.destination)
      ∷ decimal r.attempts
      ∷ fixed4 r.success_rate
      ∷ opt r.latency.p50
      ∷ opt r.latency.p95
      ∷ opt r.latency.max
      ∷ opt r.latency.jitter
      ∷ opt r.ttfb.p50
      ∷ opt r.ttfb.p95
      ∷ opt r.ttfb.max
      ∷ decimal r.failures
      ∷ statuses_cell r.status_counts
      ∷ []

  unfoldable pub render_probe_csv : List (Text × List (ProbeResult F)) → Text
  unfolding probe_cells csv_row text concat
  render_probe_csv per_target =
      probe_header
      ++ concat (
          map
            (λ (t : Text × List (ProbeResult F)).
              concat (map (λ r. csv_row (probe_cells t.0 r)) t.1))
            per_target)

  unfoldable pub repeat_cells : Text → DnsRepeatResult F → List Text
  unfolding csv_field label show_type decimal
  repeat_cells host r =
      csv_field host
      ∷ csv_field (label r.resolver)
      ∷ csv_field (show_type r.record_type)
      ∷ decimal r.attempts
      ∷ fixed4 r.success_rate
      ∷ opt r.latency.p50
      ∷ opt r.latency.p95
      ∷ opt r.latency.max
      ∷ decimal r.failures
      ∷ opt r.ttl
      ∷ []
      ∷ []

  module _ (debug : Text → Text) where
    unfoldable pub target_rows : TargetDns F → Text
    unfolding repeat_cells lookup_cells csv_row concat
    target_rows o =
        if o.is_repeat
        then concat (map (λ r. csv_row (repeat_cells o.host r)) o.results)
        else concat (map (λ obs. csv_row (lookup_cells debug o.host obs)) o.observations)

    unfoldable pub render_dns_csv : List (TargetDns F) → Text
    unfolding target_rows text concat
    render_dns_csv outputs = dns_header ++ concat (map target_rows outputs)

module _ (severity : Severity → Text) (category : DiagnosticCategory → Text)
    (confidence : Confidence → Text) where
  unfoldable pub diagnosis_cells : Text → Diagnosis → List Text
  unfolding csv_field join text
  diagnosis_cells target d =
      csv_field target
      ∷ csv_field (severity d.severity)
      ∷ csv_field (category d.category)
      ∷ csv_field (confidence d.confidence)
      ∷ csv_field d.summary
      ∷ csv_field (join_semis (map (λ (e : Evidence). e.detail) d.evidence))
      ∷ csv_field (join_semis d.possible_causes)
      ∷ []

  -- `render_csv`, of the targets and the diagnoses of the reports.
  unfoldable pub render_csv : List (Text × List Diagnosis) → Text
  unfolding diagnosis_cells csv_row text concat
  render_csv reports =
      diagnosis_header
      ++ concat (
          map
            (λ (r : Text × List Diagnosis). concat (map (λ d. csv_row (diagnosis_cells r.0 d)) r.1))
            reports)
