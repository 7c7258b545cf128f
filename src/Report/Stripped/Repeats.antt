-- ===== src/Report/Stripped/Repeats.antt =====
-- src/report.rs: the reports of repeated runs, of traces and of verdicts differ by colours alone.
use ip_tools.Base.{
  ℕ, refl, Bool-cases, inl, inr, ltb, nat_eq, ◌==◌, List, [], ◌∷◌, any, text, Text, Float,
}
use ip_tools.Model.{FailureCount, StatusCount, ProbeResult, Diagnosis, Severity}
use ip_tools.Dns.Repeat.{DnsRepeatResult}
use ip_tools.Route.{RouteHop, RouteHopStats, RouteRepeat}
use ip_tools.Style.{Style, plain}
use ip_tools.Style.Stripped.{
  Recoloured, AllRecoloured, same, append, painted, rows, pieces, joined, kept, ◌&◌,
}
use ip_tools.Report.Columns.{paint_failures}
use ip_tools.Report.Stripped.Http.{paint_status-Recoloured}
use ip_tools.Report.Repeats.{
  failure_entry, status_entry, failure_row, failures_row, statuses_row, dns_repeat_block,
  render_dns_repeat, probe_block, render_probe,
}
use ip_tools.Report.Routes.{
  is_silent, hop_row, host_w, render_route, ms_part, tail_parts, tail_text, repeat_row,
  repeat_host_w, render_route_repeat,
}
use ip_tools.Report.Diagnoses.{
  render_severity_badge, diagnosis_block, anomaly_count, is_high, anomaly_line, render_diagnoses,
}

module _ (style : Style) where
  failures-Recoloured : (n : ℕ) → Recoloured (paint_failures style n) (paint_failures plain n)
  unfolding paint_failures
  failures-Recoloured n = elim (Bool-cases (ltb 0 n)) [
    | inl e ↦ rw e (painted style _ _ refl)
    | inr e ↦ rw e (same _)
  ]

  failure_entry-Recoloured :
      (f : FailureCount) → Recoloured (failure_entry style f) (failure_entry plain f)
  unfolding failure_entry
  failure_entry-Recoloured f = painted style _ _ refl

  status_entry-Recoloured :
      (s : StatusCount) → Recoloured (status_entry style s) (status_entry plain s)
  unfolding status_entry
  status_entry-Recoloured s = paint_status-Recoloured style s.status _

  failure_row-Recoloured :
      (f : FailureCount) → Recoloured (failure_row style f) (failure_row plain f)
  failure_row-Recoloured f = pieces _ _ (same _ & failure_entry-Recoloured f & same _ & tt)

  failures_row-Recoloured :
      (fs : List FailureCount) → Recoloured (failures_row style fs) (failures_row plain fs)
  failures_row-Recoloured [] = same []
  failures_row-Recoloured (f ∷ fs) =
      pieces _ _ (same _ & joined _ _ _ (rows _ _ (f ∷ fs) failure_entry-Recoloured) & same _ & tt)

  statuses_row-Recoloured :
      (ss : List StatusCount) → Recoloured (statuses_row style ss) (statuses_row plain ss)
  statuses_row-Recoloured [] = same []
  statuses_row-Recoloured (s ∷ ss) =
      pieces _ _ (same _ & joined _ _ _ (rows _ _ (s ∷ ss) status_entry-Recoloured) & same _ & tt)

  hop_row-Recoloured :
      (w : ℕ) (hop : RouteHop) → Recoloured (hop_row style w hop) (hop_row plain w hop)
  unfolding hop_row
  hop_row-Recoloured w hop = elim (Bool-cases (is_silent hop)) [
    | inl e ↦ rw e (pieces _ _ (same _ & same _ & same _ & painted style _ _ refl & same _ & tt))
    | inr e ↦ rw e (same _)
  ]

  pub render_route-Recoloured :
      (hops : List RouteHop) → Recoloured (render_route style hops) (render_route plain hops)
  unfolding render_route
  render_route-Recoloured hops =
      pieces _ _ (same _ & rows _ _ hops (hop_row-Recoloured (host_w hops)))

  changed-Recoloured :
      (hop : RouteHopStats) → AllRecoloured (tail_parts style hop) (tail_parts plain hop)
  unfolding tail_parts
  changed-Recoloured hop = kept (ms_part (text "min ") hop.rtt.min) _ _ (
      kept (ms_part (text "p50 ") hop.rtt.p50) _ _ (
        kept (ms_part (text "max ") hop.rtt.max) _ _ (elim (Bool-cases hop.path_changed) [
          | inl e ↦ rw e (painted style _ _ refl, tt)
          | inr e ↦ rw e tt
        ])))

  tail-Recoloured :
      (ps qs : List Text) → AllRecoloured ps qs → Recoloured (tail_text ps) (tail_text qs)
  tail-Recoloured [] [] r = same []
  tail-Recoloured [] (q ∷ qs) r = elim r [ ]
  tail-Recoloured (p ∷ ps) [] r = elim r [ ]
  tail-Recoloured (p ∷ ps) (q ∷ qs) r = append _ _ _ _ (same _) (joined _ _ _ r)

  repeat_row-Recoloured :
      (runs w : ℕ) (hop : RouteHopStats)
      → Recoloured (repeat_row style runs w hop) (repeat_row plain runs w hop)
  unfolding repeat_row
  repeat_row-Recoloured runs w hop = elim (Bool-cases (hop.answered == 0)) [
    | inl e ↦ rw e (
        pieces _ _ (
          same _
          & same _
          & same _
          & painted style _ _ refl
          & same _
          & same _
          & painted style _ _ refl
          & same _
          & tt))
    | inr e ↦ rw e (
        pieces _ _ (
          same _
          & same _
          & same _
          & same _
          & same _
          & same _
          & same _
          & same _
          & same _
          & tail-Recoloured _ _ (changed-Recoloured hop)
          & same _
          & tt))
  ]

  pub render_route_repeat-Recoloured :
      (rep : RouteRepeat)
      → Recoloured (render_route_repeat style rep) (render_route_repeat plain rep)
  unfolding render_route_repeat
  render_route_repeat-Recoloured rep = pieces _ _ (
      same _
      & same _
      & same _
      & rows _ _ rep.hops (repeat_row-Recoloured rep.runs (repeat_host_w rep.hops)))

  badge-Recoloured :
      (s : Severity) → Recoloured (render_severity_badge style s) (render_severity_badge plain s)
  unfolding render_severity_badge
  badge-Recoloured Severity.high = painted style _ _ refl
  badge-Recoloured Severity.medium = painted style _ _ refl
  badge-Recoloured Severity.info = painted style _ _ refl
  badge-Recoloured Severity.low = same _

  block-Recoloured :
      (d : Diagnosis) → Recoloured (diagnosis_block style d) (diagnosis_block plain d)
  unfolding diagnosis_block
  block-Recoloured d = pieces _ _ (
      same _
      & badge-Recoloured d.severity
      & same _
      & same _
      & same _
      & same _
      & same _
      & same _
      & same _
      & same _
      & same _
      & same _
      & tt)

  anomaly_line-Recoloured :
      (ds : List Diagnosis) → Recoloured (anomaly_line style ds) (anomaly_line plain ds)
  unfolding anomaly_line
  anomaly_line-Recoloured ds = elim (Bool-cases (ltb 0 (anomaly_count ds))) [
    | inl e ↦ rw e (elim (Bool-cases (any is_high ds)) [
      | inl f ↦ rw f (append _ _ _ _ (painted style _ _ refl) (same _))
      | inr f ↦ rw f (append _ _ _ _ (painted style _ _ refl) (same _))
    ])
    | inr e ↦ rw e (same [])
  ]

  pub render_diagnoses-Recoloured :
      (ds : List Diagnosis) → Recoloured (render_diagnoses style ds) (render_diagnoses plain ds)
  unfolding render_diagnoses
  render_diagnoses-Recoloured ds =
      pieces _ _
        (same _ & pieces _ _ (rows _ _ ds block-Recoloured) & anomaly_line-Recoloured ds & tt)

  module _ (fl : Float) where
    open fl use {F}

    dns_block-Recoloured :
        (r : DnsRepeatResult F)
        → Recoloured (dns_repeat_block fl style r) (dns_repeat_block fl plain r)
    unfolding dns_repeat_block
    dns_block-Recoloured r = pieces _ _ (
        same _
        & same _
        & same _
        & same _
        & same _
        & same _
        & same _
        & same _
        & same _
        & same _
        & same _
        & same _
        & same _
        & same _
        & failures-Recoloured r.failures
        & same _
        & pieces _ _ (rows _ _ r.failure_counts failure_row-Recoloured)
        & same _
        & same _
        & tt)

    pub render_dns_repeat-Recoloured :
        (host : Text) (rs : List (DnsRepeatResult F))
        → Recoloured (render_dns_repeat fl style host rs) (render_dns_repeat fl plain host rs)
    unfolding render_dns_repeat
    render_dns_repeat-Recoloured host rs =
        pieces _ _ (same _ & same _ & same _ & rows _ _ rs dns_block-Recoloured)

    probe_block-Recoloured :
        (r : ProbeResult F) → Recoloured (probe_block fl style r) (probe_block fl plain r)
    unfolding probe_block
    probe_block-Recoloured r = pieces _ _ (
        same _
        & same _
        & same _
        & same _
        & same _
        & same _
        & same _
        & same _
        & same _
        & same _
        & failures-Recoloured r.failures
        & same _
        & same _
        & same _
        & failures_row-Recoloured r.failure_counts
        & statuses_row-Recoloured r.status_counts
        & tt)

    pub render_probe-Recoloured :
        (rs : List (ProbeResult F))
        → Recoloured (render_probe fl style rs) (render_probe fl plain rs)
    unfolding render_probe
    render_probe-Recoloured rs = pieces _ _ (same _ & rows _ _ rs probe_block-Recoloured)
