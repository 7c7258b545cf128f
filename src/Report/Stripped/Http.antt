-- ===== src/Report/Stripped/Http.antt =====
-- src/report.rs: the reports of HTTP observations and of lookups differ by colours alone.
use ip_tools.Base.{
  ℕ, refl, Bool, true, false, Bool-cases, inl, inr, ◌&&◌, leb, Option, none, some, List, [], filter,
  Text, decimal,
}
use ip_tools.Model.{
  HttpObservation, TlsObservation, ProbeError, DnsObservation, DnsRecordType, ResolverKind,
}
use ip_tools.Style.{Style, plain}
use ip_tools.Style.Stripped.{Recoloured, same, painted, rows, pieces, ◌&◌}
use ip_tools.Report.Columns.{paint_status, render_status}
use ip_tools.Report.Stripped.Handshakes.{cert_rows-Recoloured}
use ip_tools.Report.Http.{
  status_or_none, body_row, failure_row, tls_rows, response_rows, outcome_rows, http_block,
  render_http_impl,
}
use ip_tools.Report.Observations.{
  seen_resolvers, all_dns_record_types, answer, render_dns_one, dns_row, is_of, resolver_section,
  render_dns,
}

pub paint_status-Recoloured :
    (style : Style) (status : ℕ) (s : Text)
    → Recoloured (paint_status style status s) (paint_status plain status s)
unfolding paint_status
paint_status-Recoloured style status s = elim (Bool-cases (leb 200 status && leb status 299)) [
  | inl e ↦ rw e (painted style _ s refl)
  | inr e ↦ rw e (elim (Bool-cases (leb 300 status && leb status 399)) [
    | inl f ↦ rw f (painted style _ s refl)
    | inr f ↦ rw f (elim (Bool-cases (leb 400 status && leb status 599)) [
      | inl g ↦ rw g (painted style _ s refl)
      | inr g ↦ rw g (same s)
    ])
  ])
]

status-Recoloured :
    (style : Style) (status : Option ℕ)
    → Recoloured (status_or_none style status) (status_or_none plain status)
unfolding status_or_none render_status
status-Recoloured style none = same _
status-Recoloured style (some s) = paint_status-Recoloured style s (decimal s)

body_row-Recoloured :
    (style : Style) (capped : Bool) (bytes status : Option ℕ)
    → Recoloured (body_row style capped bytes status) (body_row plain capped bytes status)
unfolding body_row
body_row-Recoloured style true (some n) status =
    pieces _ _ (same _ & painted style _ _ refl & same _ & same _ & same _ & tt)
body_row-Recoloured style false (some n) status = same _
body_row-Recoloured style capped none (some s) =
    pieces _ _ (same _ & painted style _ _ refl & same _ & tt)
body_row-Recoloured style capped none none = same []

module _ (now : Option ℕ) (style : Style) where
  tls_rows-Recoloured :
      (tls : Option TlsObservation) → Recoloured (tls_rows now style tls) (tls_rows now plain tls)
  tls_rows-Recoloured none = same []
  tls_rows-Recoloured (some tls) =
      pieces _ _ (same _ & same _ & cert_rows-Recoloured now style tls.sni tls.certificate & tt)

  response_rows-Recoloured :
      (obs : HttpObservation)
      → Recoloured (response_rows now style obs) (response_rows now plain obs)
  unfolding response_rows
  response_rows-Recoloured obs = pieces _ _ (
      same _
      & same _
      & same _
      & status-Recoloured style obs.status
      & same _
      & same _
      & tls_rows-Recoloured obs.tls
      & same _
      & body_row-Recoloured style obs.body_capped obs.body_bytes obs.status
      & same _
      & same _
      & same _
      & same _
      & same _
      & tt)

  outcome_rows-Recoloured :
      (obs : HttpObservation) (failure : Option ProbeError)
      → Recoloured (outcome_rows now style obs failure) (outcome_rows now plain obs failure)
  unfolding failure_row
  outcome_rows-Recoloured obs none = response_rows-Recoloured obs
  outcome_rows-Recoloured obs (some e) = pieces _ _ (same _ & painted style _ _ refl & same _ & tt)

  http_block-Recoloured :
      (obs : HttpObservation) → Recoloured (http_block now style obs) (http_block now plain obs)
  unfolding http_block
  http_block-Recoloured obs = pieces _ _ (same _ & outcome_rows-Recoloured obs obs.failure & tt)

  pub render_http_impl-Recoloured :
      (cleartext : Bool) (obs : List HttpObservation)
      → Recoloured
          (render_http_impl now style cleartext obs)
          (render_http_impl now plain cleartext obs)
  unfolding render_http_impl
  render_http_impl-Recoloured cleartext obs =
      pieces _ _ (same _ & rows _ _ obs http_block-Recoloured)

module _ (debug : Text → Text) (style : Style) (host : Text) where
  answer-Recoloured :
      (obs : DnsObservation) (error : Option ProbeError) (ms : Option ℕ)
      → Recoloured (answer debug style obs error ms) (answer debug plain obs error ms)
  answer-Recoloured obs (some e) ms = painted style _ _ refl
  answer-Recoloured obs none (some ms) = same _
  answer-Recoloured obs none none = same _

  dns_row-Recoloured :
      (rt : DnsRecordType) (obs : DnsObservation)
      → Recoloured (dns_row debug style host rt obs) (dns_row debug plain host rt obs)
  unfolding dns_row render_dns_one
  dns_row-Recoloured rt obs = pieces _ _ (
      same _
      & same _
      & same _
      & same _
      & answer-Recoloured obs obs.error obs.latency_ms
      & same _
      & tt)

  section-Recoloured :
      (obs : List DnsObservation) (resolver : ResolverKind)
      → Recoloured
          (resolver_section debug style host obs resolver)
          (resolver_section debug plain host obs resolver)
  unfolding resolver_section
  section-Recoloured obs resolver = pieces _ _ (
      same _
      & same _
      & same _
      & pieces _ _ (
          rows _ _ all_dns_record_types (λ rt.
            pieces _ _ (rows _ _ (filter (is_of debug resolver rt) obs) (dns_row-Recoloured rt))))
      & tt)

  pub render_dns-Recoloured :
      (obs : List DnsObservation)
      → Recoloured (render_dns debug style host obs) (render_dns debug plain host obs)
  unfolding render_dns
  render_dns-Recoloured obs = pieces _ _ (
      same _
      & same _
      & same _
      & pieces _ _ (rows _ _ (seen_resolvers [] obs) (section-Recoloured obs))
      & tt)
