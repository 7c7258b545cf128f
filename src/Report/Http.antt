-- ===== src/Report/Http.antt =====
-- src/report.rs: the human report of HTTP observations. `now` is the system clock.
pub mod Rows
use ip_tools.Base.{
  ℕ, Bool, true, false, not, Option, none, some, List, [], ◌∷◌, ◌++◌, ◌==◌, text_eq, if◌then◌else◌,
  any, Text, text, decimal, concat, map, to_ascii_lowercase, text_beq,
}
use ip_tools.Net.{show_addr}
use ip_tools.Model.{ProbeError, show_kind, HttpObservation, TlsObservation}
use ip_tools.Report.Columns.{newline, ms_or_dash, presented_name_differs, render_status}
use ip_tools.Report.Handshakes.{optional_row, cert_rows}
use ip_tools.Report.Escapes.{sanitize_snippet}
use ip_tools.Style.{Style, warn, fail}

unfoldable pub protocol_or_http1 : Option Text → Text
unfolding text
protocol_or_http1 none = text "HTTP/1.1"
protocol_or_http1 (some p) = p

unfoldable pub status_or_none : Style → Option ℕ → Text
unfolding text render_status
status_or_none style none = text "no status"
status_or_none style (some s) = render_status style s

abbrev pub curated : List Text
curated =
    text "server"
    ∷ text "via"
    ∷ text "x-powered-by"
    ∷ text "x-served-by"
    ∷ text "x-cache"
    ∷ text "x-cache-hits"
    ∷ text "cf-ray"
    ∷ text "cf-cache-status"
    ∷ text "age"
    ∷ text "cache-control"
    ∷ text "expires"
    ∷ text "etag"
    ∷ text "last-modified"
    ∷ text "content-type"
    ∷ text "alt-svc"
    ∷ text "set-cookie"
    ∷ []

-- The row of a response header, for a header that the report shows.
unfoldable pub header_row : Text × Text → Text
unfolding text text_beq to_ascii_lowercase
header_row (name, value) =
    if any (text_beq (to_ascii_lowercase name)) curated
    then concat (text "    " ∷ name ∷ text ": " ∷ value ∷ newline ∷ [])
    else []

unfoldable pub body_row : Style → Bool → Option ℕ → Option ℕ → Text
unfolding text decimal
body_row style capped (some bytes) status =
    if capped
    then concat (
        text "    "
        ∷ warn style (text "body (capped)")
        ∷ text ": "
        ∷ decimal bytes
        ∷ text " bytes\n"
        ∷ [])
    else concat (text "    body: " ∷ decimal bytes ∷ text " bytes\n" ∷ [])
body_row style capped none (some s) =
    concat (text "    " ∷ warn style (text "body: incomplete (timed out)") ∷ newline ∷ [])
body_row style capped none none = []

unfoldable pub snippet_row : Option Text → Text
unfolding text sanitize_snippet
snippet_row none = []
snippet_row (some snippet) =
    concat (text "    body content: " ∷ sanitize_snippet snippet ∷ newline ∷ [])

abbrev ttfb_row : Option ℕ → Text
ttfb_row none = []
ttfb_row (some ttfb) = concat (text "    ttfb:    " ∷ decimal ttfb ∷ text " ms\n" ∷ [])

-- The rows that every observation has: where it went, and as what.
unfoldable pub request_rows : HttpObservation → Text
unfolding show_addr presented_name_differs text text_beq
request_rows obs = concat (
    text "  "
    ∷ show_addr obs.destination
    ∷ newline
    ∷ (if presented_name_differs obs.host obs.destination
        then concat (text "    host: " ∷ obs.host ∷ newline ∷ [])
        else [])
    ∷ (if text_beq obs.path (text "/")
        then []
        else concat (text "    path: " ∷ obs.path ∷ newline ∷ []))
    ∷ [])

unfoldable pub failure_row : Style → HttpObservation → ProbeError → Text
unfolding text show_kind protocol_or_http1
failure_row style obs failure = concat (
    text "    "
    ∷ fail style (
        concat (
          protocol_or_http1 obs.protocol
          ∷ text " "
          ∷ show_kind failure.kind
          ∷ text " ("
          ∷ failure.message
          ∷ text ")"
          ∷ []))
    ∷ newline
    ∷ [])

module _ (now : Option ℕ) where
  abbrev pub tls_rows : Style → Option TlsObservation → Text
  tls_rows style none = []
  tls_rows style (some tls) = concat (
      optional_row (text "    TLS: ") tls.version
      ∷ optional_row (text "    ALPN: ") tls.alpn
      ∷ cert_rows now style tls.sni tls.certificate
      ∷ [])

  unfoldable pub response_rows : Style → HttpObservation → Text
  unfolding text decimal protocol_or_http1 status_or_none header_row body_row snippet_row ms_or_dash
      cert_rows
  response_rows style obs = concat (
      text "    "
      ∷ protocol_or_http1 obs.protocol
      ∷ text " "
      ∷ status_or_none style obs.status
      ∷ newline
      ∷ optional_row (text "    redirect: ") obs.location
      ∷ tls_rows style obs.tls
      ∷ concat (map header_row obs.headers)
      ∷ body_row style obs.body_capped obs.body_bytes obs.status
      ∷ snippet_row obs.body_snippet
      ∷ text "    latency: "
      ∷ ms_or_dash obs.latency_ms
      ∷ newline
      ∷ ttfb_row obs.ttfb_ms
      ∷ [])

  abbrev pub outcome_rows : Style → HttpObservation → Option ProbeError → Text
  outcome_rows style obs (some failure) = failure_row style obs failure
  outcome_rows style obs none = response_rows style obs

  unfoldable pub http_block : Style → HttpObservation → Text
  unfolding request_rows failure_row response_rows
  http_block style obs = concat (request_rows obs ∷ outcome_rows style obs obs.failure ∷ [])

  unfoldable pub render_http_impl : Style → Bool → List HttpObservation → Text
  unfolding http_block text
  render_http_impl style plain observations =
      concat
        ((if plain then text "HTTP\n" else text "HTTPS\n") ∷ map (http_block style) observations)

  unfoldable pub render_http : Style → List HttpObservation → Text
  unfolding render_http_impl
  render_http style observations = render_http_impl style false observations

  unfoldable pub render_http_plain : Style → List HttpObservation → Text
  unfolding render_http_impl
  render_http_plain style observations = render_http_impl style true observations
