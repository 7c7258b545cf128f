-- ===== src/Report/Handshakes.antt =====
-- src/report.rs: the human reports of connections and TLS handshakes. `now` is the system clock.
pub mod Aligned
use ip_tools.Base.{
  ℕ, Bool, true, false, Option, none, some, List, [], ◌∷◌, ◌++◌, if◌then◌else◌, Text, text, concat,
  map, length,
}
use ip_tools.Net.{show_addr}
use ip_tools.Model.{
  ProbeError, FailureKind, show_kind, TcpObservation, TlsObservation, CertificateSummary,
}
use ip_tools.Report.Columns.{
  pad_right, at_least, largest, newline, ms_or_dash, presented_name_differs,
}
use ip_tools.Report.Certificates.{render_cert, covers}
use ip_tools.Style.{Style, pass, fail}

abbrev kind_or_failed : Option ProbeError → Text
kind_or_failed none = text "failed"
kind_or_failed (some e) = show_kind e.kind

abbrev pub failure_or_failed : Option ProbeError → Text
failure_or_failed none = text "failed"
failure_or_failed (some e) = concat (show_kind e.kind ∷ text " (" ∷ e.message ∷ text ")" ∷ [])

unfoldable pub tcp_status : Style → TcpObservation → Text
unfolding text pad_right ms_or_dash show_kind
tcp_status style obs =
    if obs.success
    then pass style (text "PASS      " ++ ms_or_dash obs.latency_ms)
    else fail style (pad_right 10 (kind_or_failed obs.failure))

-- The width of the column of destinations.
unfoldable pub dest_w : List TcpObservation → ℕ
unfolding show_addr
dest_w observations =
    at_least 24
      (largest (map (λ (o : TcpObservation). length (show_addr o.destination)) observations))

unfoldable pub tcp_row : Style → ℕ → TcpObservation → Text
unfolding show_addr pad_right tcp_status text
tcp_row style w obs = concat (
    text "  "
    ∷ pad_right w (show_addr obs.destination)
    ∷ text " "
    ∷ tcp_status style obs
    ∷ newline
    ∷ [])

unfoldable pub render_tcp : Style → List TcpObservation → Text
unfolding tcp_row dest_w text
render_tcp style observations =
    concat (text "TCP connect\n" ∷ map (tcp_row style (dest_w observations)) observations)

-- A labelled row for a value, nothing where it is absent.
abbrev pub optional_row : Text → Option Text → Text
optional_row head none = []
optional_row head (some value) = concat (head ∷ value ∷ newline ∷ [])

abbrev pub version_or_unknown : Option Text → Text
version_or_unknown none = text "unknown"
version_or_unknown (some v) = v

module _ (now : Option ℕ) where
  unfoldable pub cert_rows : Style → Text → Option CertificateSummary → Text
  unfolding render_cert covers text
  cert_rows style sni none = []
  cert_rows style sni (some cert) = concat (
      text "    cert : "
      ∷ render_cert now style cert
      ∷ newline
      ∷ text "    covers "
      ∷ sni
      ∷ text ": "
      ∷ covers style sni cert.sans
      ∷ newline
      ∷ [])

  unfoldable pub tls_details : Style → TlsObservation → Text
  unfolding cert_rows text ms_or_dash
  tls_details style obs =
      if obs.success
      then concat (
          text "    TLS: "
          ∷ version_or_unknown obs.version
          ∷ newline
          ∷ optional_row (text "    cipher: ") obs.cipher
          ∷ optional_row (text "    ALPN: ") obs.alpn
          ∷ cert_rows style obs.sni obs.certificate
          ∷ text "    latency: "
          ∷ ms_or_dash obs.latency_ms
          ∷ newline
          ∷ [])
      else concat (text "    " ∷ fail style (failure_or_failed obs.failure) ∷ newline ∷ [])

  unfoldable pub tls_block : Style → TlsObservation → Text
  unfolding tls_details show_addr text presented_name_differs
  tls_block style obs = concat (
      text "  "
      ∷ show_addr obs.destination
      ∷ newline
      ∷ (if presented_name_differs obs.sni obs.destination
          then concat (text "    SNI: " ∷ obs.sni ∷ newline ∷ [])
          else [])
      ∷ tls_details style obs
      ∷ [])

  unfoldable pub render_tls : Style → List TlsObservation → Text
  unfolding tls_block text
  render_tls style observations =
      concat (text "TLS handshake\n" ∷ map (tls_block style) observations)
