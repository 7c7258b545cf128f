-- ===== src/Cli/Tables.antt =====
-- src/cli/{tcp,tls,http}.rs: the CSV exports of connections, handshakes and HTTP observations.
pub mod Read
pub mod Runs
mod Examples
use ip_tools.Base.{
  ℕ, Bool, true, false, Option, none, some, List, [], ◌∷◌, ◌++◌, if◌then◌else◌, any, is_none,
  is_empty, Text, text, decimal, concat, join, map, to_ascii_lowercase, text_beq,
}
use ip_tools.Net.{IpAddr, SocketAddr, show_addr, show_ip}
use ip_tools.Model.{
  ProbeError, show_kind, CertificateSummary, TcpObservation, TlsObservation, HttpObservation,
  StatusCount, ProbeResult, DnsObservation, DnsRecord, DnsRecordType, label, Diagnosis, Severity,
  DiagnosticCategory, Confidence, Evidence,
}
use ip_tools.Dns.Repeat.{DnsRepeatResult}
use ip_tools.Route.{RouteHop, RouteHopStats, RouteRepeat}
use ip_tools.Report.Coverage.{cert_covers_hostname}
use ip_tools.Report.Http.{curated}
use ip_tools.Report.Observations.{rt_label}
use ip_tools.Report.Escapes.{show_record}
use ip_tools.Cli.Csv.{csv_field, csv_row}

-- `opt` and `opt64`.
abbrev pub opt : Option ℕ → Text
opt none = []
opt (some n) = decimal n

abbrev pub unwrap_or_empty : Option Text → Text
unwrap_or_empty none = []
unwrap_or_empty (some s) = s

abbrev pub failure_kind : Option ProbeError → Text
failure_kind none = []
failure_kind (some e) = show_kind e.kind

abbrev pub flag : Bool → Text
flag b = if b then b'1' ∷ [] else b'0' ∷ []

abbrev pub subject_of : Option CertificateSummary → Text
subject_of none = []
subject_of (some c) = c.subject

abbrev pub issuer_of : Option CertificateSummary → Text
issuer_of none = []
issuer_of (some c) = c.issuer

abbrev pub not_after_of : Option CertificateSummary → Text
not_after_of none = []
not_after_of (some c) = unwrap_or_empty c.not_after_utc

unfoldable pub sans_of : Option CertificateSummary → Text
unfolding join
sans_of none = []
sans_of (some c) = join (b';' ∷ []) c.sans

-- `yes`, `no`, or nothing without a certificate.
unfoldable pub covers_of : Text → Option CertificateSummary → Text
unfolding text cert_covers_hostname
covers_of sni none = []
covers_of sni (some c) = if cert_covers_hostname sni c.sans then text "yes" else text "no"

unfoldable pub tcp_cells : Text → TcpObservation → List Text
unfolding csv_field show_addr show_kind decimal
tcp_cells host o =
    csv_field host
    ∷ csv_field (show_addr o.destination)
    ∷ flag o.success
    ∷ csv_field (opt o.latency_ms)
    ∷ csv_field (failure_kind o.failure)
    ∷ []

abbrev pub tcp_header : Text
tcp_header = text "host,destination,success,latency_ms,failure\n"

unfoldable pub render_tcp_csv : List (Text × List TcpObservation) → Text
unfolding tcp_cells csv_row text concat
render_tcp_csv per_target =
    tcp_header
    ++ concat (
        map (λ (t : Text × List TcpObservation). concat (map (λ o. csv_row (tcp_cells t.0 o)) t.1))
          per_target)

unfoldable pub tls_cells : Text → TlsObservation → List Text
unfolding csv_field show_addr show_kind decimal sans_of covers_of
tls_cells host o =
    csv_field host
    ∷ csv_field (show_addr o.destination)
    ∷ csv_field o.sni
    ∷ flag o.success
    ∷ csv_field (unwrap_or_empty o.version)
    ∷ csv_field (unwrap_or_empty o.cipher)
    ∷ csv_field (unwrap_or_empty o.alpn)
    ∷ csv_field (subject_of o.certificate)
    ∷ csv_field (issuer_of o.certificate)
    ∷ csv_field (not_after_of o.certificate)
    ∷ csv_field (sans_of o.certificate)
    ∷ covers_of o.sni o.certificate
    ∷ csv_field (opt o.latency_ms)
    ∷ csv_field (failure_kind o.failure)
    ∷ []

abbrev pub tls_header : Text
tls_header =
    text
      "host,destination,sni,success,version,cipher,alpn,subject,issuer,not_after_utc,sans,covers,latency_ms,failure\n"

unfoldable pub render_tls_csv : List (Text × List TlsObservation) → Text
unfolding tls_cells csv_row text concat
render_tls_csv per_target =
    tls_header
    ++ concat (
        map (λ (t : Text × List TlsObservation). concat (map (λ o. csv_row (tls_cells t.0 o)) t.1))
          per_target)

abbrev is_curated : Text × Text → Bool
is_curated (name, value) = any (text_beq (to_ascii_lowercase name)) curated

unfoldable pub curated_parts : List (Text × Text) → List Text
unfolding to_ascii_lowercase text_beq text concat
curated_parts [] = []
curated_parts ((name, value) ∷ headers) =
    let rest = curated_parts headers in
    if is_curated (name, value) then concat (name ∷ text ": " ∷ value ∷ []) ∷ rest else rest

unfoldable pub curated_headers_csv : List (Text × Text) → Text
unfolding curated_parts join text
curated_headers_csv headers = join (text "; ") (curated_parts headers)

abbrev pub sni_of : Option TlsObservation → Text
sni_of none = []
sni_of (some t) = t.sni

abbrev pub version_of : Option TlsObservation → Text
version_of none = []
version_of (some t) = unwrap_or_empty t.version

abbrev pub cipher_of : Option TlsObservation → Text
cipher_of none = []
cipher_of (some t) = unwrap_or_empty t.cipher

abbrev pub alpn_of : Option TlsObservation → Text
alpn_of none = []
alpn_of (some t) = unwrap_or_empty t.alpn

abbrev pub cert_of : Option TlsObservation → Option CertificateSummary
cert_of none = none
cert_of (some t) = t.certificate

unfoldable pub http_cells : Text → HttpObservation → List Text
unfolding csv_field show_addr show_kind decimal sans_of covers_of curated_headers_csv
http_cells host o =
    csv_field host
    ∷ csv_field (show_addr o.destination)
    ∷ csv_field (unwrap_or_empty o.protocol)
    ∷ csv_field (opt o.status)
    ∷ csv_field (unwrap_or_empty o.location)
    ∷ csv_field (opt o.body_bytes)
    ∷ csv_field (opt o.ttfb_ms)
    ∷ csv_field (opt o.latency_ms)
    ∷ csv_field (sni_of o.tls)
    ∷ csv_field (version_of o.tls)
    ∷ csv_field (cipher_of o.tls)
    ∷ csv_field (alpn_of o.tls)
    ∷ csv_field (subject_of (cert_of o.tls))
    ∷ csv_field (issuer_of (cert_of o.tls))
    ∷ csv_field (not_after_of (cert_of o.tls))
    ∷ csv_field (sans_of (cert_of o.tls))
    ∷ covers_of (sni_of o.tls) (cert_of o.tls)
    ∷ csv_field (curated_headers_csv o.headers)
    ∷ csv_field (unwrap_or_empty o.body_snippet)
    ∷ csv_field (failure_kind o.failure)
    ∷ []

abbrev pub http_header : Text
http_header =
    text
      "host,destination,protocol,status,location,body_bytes,ttfb_ms,latency_ms,sni,version,cipher,alpn,subject,issuer,not_after_utc,sans,covers,headers,body_snippet,failure\n"

unfoldable pub render_http_csv : List (Text × List HttpObservation) → Text
unfolding http_cells csv_row text concat
render_http_csv per_target =
    http_header
    ++ concat (
        map
          (λ (t : Text × List HttpObservation). concat (map (λ o. csv_row (http_cells t.0 o)) t.1))
          per_target)
