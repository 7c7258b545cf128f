-- ===== src/Cli/Tables/Runs/Read.antt =====
-- src/cli/{probe,route,dns,diagnose}.rs: the rows of an export are read back.
use ip_tools.Base.{
  ℕ, ◌≡◌, refl, true, false, Option, none, some, List, [], ◌∷◌, map, Text, text, decimal, split,
  trim_end_matches, if◌then◌else◌, Bool-cases, inl, inr, any, is_none, join, not,
}
use mathlib.Core.List.{flatten}
use ip_tools.Net.{show_addr}
use ip_tools.Model.{
  ProbeError, ProbeResult, StatusCount, DnsObservation, label, show_type, DnsRecordType, Diagnosis,
  Severity, DiagnosticCategory, Confidence, Evidence,
}
use ip_tools.Dns.Repeat.{DnsRepeatResult}
use ip_tools.Route.{RouteHop, RouteHopStats, RouteRepeat}
use ip_tools.Cli.Csv.{is_special, csv_field, csv_row}
use ip_tools.Cli.Csv.RoundTrip.{begin}
use ip_tools.Cli.Csv.Table.{
  read_table, Reads, append-Reads, rows-Reads, all-Reads, csv_field-same, csv_field-decimal,
}
use ip_tools.Cli.Tables.{opt, unwrap_or_empty, flag}
use ip_tools.Cli.Tables.Read.{csv_field-opt, csv_field-flag, cells-Reads, names, table, export-read}
use ip_tools.Cli.Tables.Runs.{
  show_addr_of, route_header, route_cells, render_route_csv, hop_addrs, route_repeat_header,
  route_repeat_cells, render_route_repeat_csv, statuses, statuses_cell, TargetDns, join_semis,
  probe_header, probe_cells, render_probe_csv, dns_header, repeat_cells, records_text, lookup_cells,
  target_rows, render_dns_csv, diagnosis_header, diagnosis_cells, render_csv,
}

abbrev pub route_values : RouteHop → List Text
route_values h =
    decimal h.ttl
    ∷ unwrap_or_empty h.hostname
    ∷ show_addr_of h.addr
    ∷ opt h.rtt_ms
    ∷ flag h.lost
    ∷ []

abbrev pub route_repeat_values : ℕ → RouteHopStats → List Text
route_repeat_values runs h =
    decimal h.ttl
    ∷ unwrap_or_empty h.hostname
    ∷ hop_addrs h
    ∷ opt h.rtt.min
    ∷ opt h.rtt.p50
    ∷ opt h.rtt.max
    ∷ decimal h.answered
    ∷ decimal runs
    ∷ flag h.path_changed
    ∷ []

route_header-Reads : Reads route_header (names route_header ∷ [])
unfolding text read_table split trim_end_matches
route_header-Reads rest = refl

route_repeat_header-Reads : Reads route_repeat_header (names route_repeat_header ∷ [])
unfolding text read_table split trim_end_matches
route_repeat_header-Reads rest = refl

probe_header-Reads : Reads probe_header (names probe_header ∷ [])
unfolding text read_table split trim_end_matches
probe_header-Reads rest = refl

dns_header-Reads : Reads dns_header (names dns_header ∷ [])
unfolding text read_table split trim_end_matches
dns_header-Reads rest = refl

diagnosis_header-Reads : Reads diagnosis_header (names diagnosis_header ∷ [])
unfolding text read_table split trim_end_matches
diagnosis_header-Reads rest = refl

route_row-Reads : (h : RouteHop) → Reads (csv_row (route_cells h)) (route_values h ∷ [])
unfolding route_cells
route_row-Reads h =
    cells-Reads _ (decimal h.ttl) _ (rw (csv_field-decimal h.ttl, csv_field-flag h.lost) refl)

route_repeat_row-Reads :
    (runs : ℕ) (h : RouteHopStats)
    → Reads (csv_row (route_repeat_cells runs h)) (route_repeat_values runs h ∷ [])
unfolding route_repeat_cells
route_repeat_row-Reads runs h = cells-Reads _ (decimal h.ttl) _ (
    rw
      (
        csv_field-decimal h.ttl,
        csv_field-decimal h.answered,
        csv_field-decimal runs,
        csv_field-flag h.path_changed,
      )
      refl)

-- A reader of RFC 4180 gets back the header and the values of every row from the exports of a trace
-- and of repeated traces.
pub route_exports-read :
    (hops : List RouteHop) (rep : RouteRepeat)
    → (read_table [] begin (render_route_csv hops)
        ≡ some (names route_header ∷ flatten (map (λ h. route_values h ∷ []) hops)))
      × (read_table [] begin (render_route_repeat_csv rep)
          ≡ some (
              names route_repeat_header
              ∷ flatten (map (λ h. route_repeat_values rep.runs h ∷ []) rep.hops)))
unfolding render_route_csv render_route_repeat_csv
route_exports-read hops rep = (
  all-Reads _ _ (
      append-Reads route_header _ (names route_header ∷ []) _ route_header-Reads
        (rows-Reads _ _ hops route_row-Reads)),
  all-Reads _ _ (
      append-Reads route_repeat_header _ (names route_repeat_header ∷ []) _
        route_repeat_header-Reads (rows-Reads _ _ rep.hops (route_repeat_row-Reads rep.runs))),
)

statuses-field : (ss : List StatusCount) → statuses_cell ss ≡ csv_field (statuses ss)
unfolding csv_field statuses join
statuses-field [] = refl
statuses-field (s ∷ ss) = refl

type-field : (t : DnsRecordType) → csv_field (show_type t) ≡ show_type t
unfolding csv_field show_type text
type-field DnsRecordType.a = refl
type-field _ = refl

abbrev rate_of : Option ProbeError → Text
rate_of error = if is_none error then text "1.0000" else text "0.0000"

rate-field : (error : Option ProbeError) → csv_field (rate_of error) ≡ rate_of error
unfolding csv_field text
rate-field none = refl
rate-field (some e) = refl

failed-field :
    (error : Option ProbeError)
    → (if is_none error then b'0' ∷ [] else b'1' ∷ []) ≡ csv_field (flag (not (is_none error)))
unfolding csv_field
failed-field none = refl
failed-field (some e) = refl

module _ (debug : Text → Text) where
  abbrev pub lookup_values : Text → DnsObservation → List Text
  lookup_values host obs =
      host
      ∷ label obs.resolver
      ∷ show_type obs.record_type
      ∷ flag true
      ∷ rate_of obs.error
      ∷ opt obs.latency_ms
      ∷ opt obs.latency_ms
      ∷ opt obs.latency_ms
      ∷ flag (not (is_none obs.error))
      ∷ opt obs.ttl
      ∷ records_text debug obs
      ∷ []

  lookup_row-Reads :
      (host : Text) (obs : DnsObservation)
      → Reads (csv_row (lookup_cells debug host obs)) (lookup_values host obs ∷ [])
  unfolding lookup_cells
  lookup_row-Reads host obs = cells-Reads _ host _ (
      rw
        (
          csv_field-flag true,
          rate-field obs.error,
          csv_field-opt obs.latency_ms,
          failed-field obs.error,
          csv_field-opt obs.ttl,
        )
        refl)

module _ (severity : Severity → Text) (category : DiagnosticCategory → Text)
    (confidence : Confidence → Text) where
  abbrev pub diagnosis_values : Text → Diagnosis → List Text
  diagnosis_values target d =
      target
      ∷ severity d.severity
      ∷ category d.category
      ∷ confidence d.confidence
      ∷ d.summary
      ∷ join_semis (map (λ (e : Evidence). e.detail) d.evidence)
      ∷ join_semis d.possible_causes
      ∷ []

  diagnosis_row-Reads :
      (target : Text) (d : Diagnosis)
      → Reads
          (csv_row (diagnosis_cells severity category confidence target d))
          (diagnosis_values target d ∷ [])
  unfolding diagnosis_cells
  diagnosis_row-Reads target d = cells-Reads _ target _ refl

module _ {F : Type 0} (fixed4 : F → Text) where
  abbrev pub probe_values : Text → ProbeResult F → List Text
  probe_values host r =
      host
      ∷ show_addr r.destination
      ∷ decimal r.attempts
      ∷ fixed4 r.success_rate
      ∷ opt r.latency.p50
      ∷ opt r.latency.p95
      ∷ opt r.latency.max
      ∷ opt r.latency.jitter
      ∷ opt r.ttfb.p50
      ∷ opt r.ttfb.p95
      ∷ opt r.ttfb.max
      ∷ decimal r.failures
      ∷ statuses r.status_counts
      ∷ []

  abbrev pub repeat_values : Text → DnsRepeatResult F → List Text
  repeat_values host r =
      host
      ∷ label r.resolver
      ∷ show_type r.record_type
      ∷ decimal r.attempts
      ∷ fixed4 r.success_rate
      ∷ opt r.latency.p50
      ∷ opt r.latency.p95
      ∷ opt r.latency.max
      ∷ decimal r.failures
      ∷ opt r.ttl
      ∷ []
      ∷ []

  -- The rows of one target of the export of lookups.
  abbrev pub target_values : (Text → Text) → TargetDns F → List (List Text)
  target_values debug o =
      if o.is_repeat
      then flatten (map (λ r. repeat_values o.host r ∷ []) o.results)
      else flatten (map (λ obs. lookup_values debug o.host obs ∷ []) o.observations)

  module _ (plain_rate : (x : F) → any is_special (fixed4 x) ≡ false) where
    probe_row-Reads :
        (host : Text) (r : ProbeResult F)
        → Reads (csv_row (probe_cells fixed4 host r)) (probe_values host r ∷ [])
    unfolding probe_cells
    probe_row-Reads host r = cells-Reads _ host _ (
        rw
          (
            csv_field-decimal r.attempts,
            csv_field-same (fixed4 r.success_rate) (plain_rate _),
            csv_field-opt r.latency.p50,
            csv_field-opt r.latency.p95,
            csv_field-opt r.latency.max,
            csv_field-opt r.latency.jitter,
            csv_field-opt r.ttfb.p50,
            csv_field-opt r.ttfb.p95,
            csv_field-opt r.ttfb.max,
            csv_field-decimal r.failures,
            statuses-field r.status_counts,
          )
          refl)

    repeat_row-Reads :
        (host : Text) (r : DnsRepeatResult F)
        → Reads (csv_row (repeat_cells fixed4 host r)) (repeat_values host r ∷ [])
    unfolding repeat_cells
    repeat_row-Reads host r = cells-Reads _ host _ (
        rw
          (
            csv_field-decimal r.attempts,
            csv_field-same (fixed4 r.success_rate) (plain_rate _),
            csv_field-opt r.latency.p50,
            csv_field-opt r.latency.p95,
            csv_field-opt r.latency.max,
            csv_field-decimal r.failures,
            csv_field-opt r.ttl,
            csv_field-same [] refl,
          )
          refl)

    target-Reads :
        (debug : Text → Text) (o : TargetDns F)
        → Reads (target_rows fixed4 debug o) (target_values debug o)
    unfolding target_rows
    target-Reads debug o = elim (Bool-cases o.is_repeat) [
      | inl e ↦ rw e (rows-Reads _ _ o.results (repeat_row-Reads o.host))
      | inr e ↦ rw e (rows-Reads _ _ o.observations (lookup_row-Reads debug o.host))
    ]

  -- A reader of RFC 4180 gets back the header and the values of every row from the exports of
  -- repeated probes, lookups and verdicts, whatever the servers sent, if a printed rate has no comma,
  -- quote or line break.
  pub run_exports-read :
      (debug : Text → Text) (severity : Severity → Text) (category : DiagnosticCategory → Text)
      (confidence : Confidence → Text) (probes : List (Text × List (ProbeResult F)))
      (lookups : List (TargetDns F)) (reports : List (Text × List Diagnosis))
      → ((x : F) → any is_special (fixed4 x) ≡ false)
      → (read_table [] begin (render_probe_csv fixed4 probes)
          ≡ some (table probe_header probe_values probes))
        × (read_table [] begin (render_dns_csv fixed4 debug lookups)
            ≡ some (names dns_header ∷ flatten (map (target_values debug) lookups)))
        × (read_table [] begin (render_csv severity category confidence reports)
            ≡ some (table diagnosis_header (diagnosis_values severity category confidence) reports))
  unfolding render_probe_csv render_dns_csv render_csv
  run_exports-read debug severity category confidence probes lookups reports h = (
    export-read probe_header (probe_cells fixed4) probe_values probes probe_header-Reads
        (probe_row-Reads h),
    all-Reads _ _ (
        append-Reads dns_header _ (names dns_header ∷ []) _ dns_header-Reads
          (rows-Reads _ _ lookups (target-Reads h debug))),
    export-read diagnosis_header (diagnosis_cells severity category confidence)
        (diagnosis_values severity category confidence) reports diagnosis_header-Reads
        (diagnosis_row-Reads severity category confidence),
  )
