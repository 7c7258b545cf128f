-- ===== src/Report/Stripped.antt =====
-- src/report.rs: the colours are all that a style adds to the human reports.
pub mod Handshakes
pub mod Http
pub mod Repeats
use ip_tools.Base.{ℕ, ◌≡◌, Bool, true, false, List, all, Option, Text, Float}
use ip_tools.Model.{
  DnsObservation, TcpObservation, TlsObservation, HttpObservation, ProbeResult, Diagnosis,
}
use ip_tools.Dns.Repeat.{DnsRepeatResult}
use ip_tools.Route.{RouteHop, RouteRepeat}
use ip_tools.Style.{Style, plain}
use ip_tools.Style.Stripped.{strip_escapes, no_escape, stripped}
use ip_tools.Report.Observations.{render_dns}
use ip_tools.Report.Handshakes.{render_tcp, render_tls}
use ip_tools.Report.Http.{render_http_impl}
use ip_tools.Report.Repeats.{render_dns_repeat, render_probe}
use ip_tools.Report.Routes.{render_route, render_route_repeat}
use ip_tools.Report.Diagnoses.{render_diagnoses}
use ip_tools.Report.Stripped.Handshakes.{render_tcp-Recoloured, render_tls-Recoloured}
use ip_tools.Report.Stripped.Http.{render_http_impl-Recoloured, render_dns-Recoloured}
use ip_tools.Report.Stripped.Repeats.{
  render_dns_repeat-Recoloured, render_probe-Recoloured, render_route-Recoloured,
  render_route_repeat-Recoloured, render_diagnoses-Recoloured,
}

-- The reports of lookups, connections, handshakes and HTTP observations: without its escape
-- sequences a report of any style is the plain report, if the plain one has no escape byte.
pub observations-strip :
    (style : Style) (debug : Text → Text) (now : Option ℕ) (host : Text) (dns : List DnsObservation)
    (tcp : List TcpObservation) (tls : List TlsObservation) (cleartext : Bool)
    (http : List HttpObservation)
    → all no_escape (render_dns debug plain host dns) ≡ true
    → all no_escape (render_tcp plain tcp) ≡ true
    → all no_escape (render_tls now plain tls) ≡ true
    → all no_escape (render_http_impl now plain cleartext http) ≡ true
    → (strip_escapes false (render_dns debug style host dns) ≡ render_dns debug plain host dns)
      × (strip_escapes false (render_tcp style tcp) ≡ render_tcp plain tcp)
      × (strip_escapes false (render_tls now style tls) ≡ render_tls now plain tls)
      × (strip_escapes false (render_http_impl now style cleartext http)
          ≡ render_http_impl now plain cleartext http)
observations-strip style debug now host dns tcp tls cleartext http h k l m = (
  stripped _ _ (render_dns-Recoloured debug style host dns) h,
  stripped _ _ (render_tcp-Recoloured style tcp) k,
  stripped _ _ (render_tls-Recoloured now style tls) l,
  stripped _ _ (render_http_impl-Recoloured now style cleartext http) m,
)

-- The reports of repeated queries, repeated probes, traces, repeated traces and verdicts: without
-- its escape sequences a report of any style is the plain report, if the plain one has no escape
-- byte.
pub summaries-strip :
    (style : Style) (fl : Float) (host : Text) (dns : List (DnsRepeatResult fl.F))
    (probes : List (ProbeResult fl.F)) (hops : List RouteHop) (rep : RouteRepeat)
    (verdicts : List Diagnosis)
    → all no_escape (render_dns_repeat fl plain host dns) ≡ true
    → all no_escape (render_probe fl plain probes) ≡ true
    → all no_escape (render_route plain hops) ≡ true
    → all no_escape (render_route_repeat plain rep) ≡ true
    → all no_escape (render_diagnoses plain verdicts) ≡ true
    → (strip_escapes false (render_dns_repeat fl style host dns)
        ≡ render_dns_repeat fl plain host dns)
      × (strip_escapes false (render_probe fl style probes) ≡ render_probe fl plain probes)
      × (strip_escapes false (render_route style hops) ≡ render_route plain hops)
      × (strip_escapes false (render_route_repeat style rep) ≡ render_route_repeat plain rep)
      × (strip_escapes false (render_diagnoses style verdicts) ≡ render_diagnoses plain verdicts)
summaries-strip style fl host dns probes hops rep verdicts h k l m n = (
  stripped _ _ (render_dns_repeat-Recoloured style fl host dns) h,
  stripped _ _ (render_probe-Recoloured style fl probes) k,
  stripped _ _ (render_route-Recoloured style hops) l,
  stripped _ _ (render_route_repeat-Recoloured style rep) m,
  stripped _ _ (render_diagnoses-Recoloured style verdicts) n,
)
