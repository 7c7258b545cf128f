-- ===== src/Diagnostics/Layer/Http.antt =====
-- src/diagnostics/layer.rs: HTTP-layer errors, stalled bodies and redirects.
use ip_tools.Base.{
  ℕ, Bool, true, false, not, ◌&&◌, ◌||◌, List, [], ◌∷◌, ◌++◌, map, Option, none, some, Text, text,
  join, decimal, if◌then◌else◌, filter, filter_map, any, is_empty, is_none, is_some, is_some_and,
  leb, ◌==◌, nat_eq,
}
use ip_tools.Net.{show_addr, addr_eq}
use ip_tools.Model.{
  FailureKind, TcpObservation, HttpObservation, Severity, Confidence, DiagnosticCategory, Diagnosis,
}
use ip_tools.Diagnostics.Input.{DiagnosticInput, evidence_of}
use ip_tools.Diagnostics.Layer.Transport.{is_http3}

-- `matches!(kind, Http | Protocol)`, which an HTTP/3 row owns.
abbrev pub owned_by_http3 : FailureKind → Bool
owned_by_http3 FailureKind.http = true
owned_by_http3 FailureKind.protocol = true
owned_by_http3 _ = false

-- `!matches!(kind, Quic | TlsHandshake | Certificate)`, which any other row owns.
abbrev pub owned_by_http : FailureKind → Bool
owned_by_http FailureKind.quic = false
owned_by_http FailureKind.tls_handshake = false
owned_by_http FailureKind.certificate = false
owned_by_http _ = true

-- `inherited_tcp`: TCP could not connect to the address, and no request was made.
abbrev pub inherited_tcp : List TcpObservation → HttpObservation → Bool
inherited_tcp tcp h =
    is_some h.failure && any (λ t. t.destination == h.destination && not t.success) tcp

abbrev pub own_failure : HttpObservation → Bool
own_failure h =
    is_some_and h.failure (λ e. if is_http3 h then owned_by_http3 e.kind else owned_by_http e.kind)

-- `layer_failed`.
unfoldable pub layer_failed : List TcpObservation → HttpObservation → Bool
layer_failed tcp h =
    own_failure h && not (inherited_tcp tcp h) || is_some_and h.status (λ s. leb 400 s)

abbrev status_or_error : Option ℕ → Text
status_or_error none = text "error"
status_or_error (some s) = decimal s

unfoldable pub http_errors : Text → List HttpObservation → Diagnosis
http_errors hostname failing = record {
  severity = Severity.low;
  category = DiagnosticCategory.http;
  confidence = Confidence.low;
  summary = text "HTTP-layer errors returned by " ++ hostname;
  evidence =
      evidence_of (
        join (text "; ")
          (map (λ h. show_addr h.destination ++ (text " -> " ++ status_or_error h.status)) failing))
      ∷ [];
  possible_causes =
      text "application error / server-side issue"
      ∷ text "redirect loop or auth required"
      ∷ text "HTTP (not TLS) protocol problem"
      ∷ [];
}

-- Headers arrived and the body did not complete.
abbrev pub is_truncated : HttpObservation → Bool
is_truncated h = is_none h.failure && is_some h.status && is_none h.body_bytes

unfoldable pub truncated_body : Text → List HttpObservation → Diagnosis
truncated_body hostname truncated = record {
  severity = Severity.low;
  category = DiagnosticCategory.http;
  confidence = Confidence.low;
  summary = text "HTTP response body did not complete for " ++ hostname;
  evidence =
      evidence_of (
        text "headers received, body stalled ("
        ++ (join (text ", ") (map (λ h. show_addr h.destination) truncated) ++ text ")"))
      ∷ [];
  possible_causes =
      text "response truncated by a proxy / load balancer"
      ∷ text "server keep-alive without content-length or chunked coding"
      ∷ text "connection reset or packet loss mid-transfer"
      ∷ text "streaming endpoint that never finishes"
      ∷ [];
}

-- `matches!(status, 301 | 302 | 303 | 307 | 308)`.
abbrev pub is_redirect : ℕ → Bool
is_redirect s = s == 301 || s == 302 || s == 303 || s == 307 || s == 308

abbrev location_or_none : Option Text → Text
location_or_none none = text "(no Location header)"
location_or_none (some l) = l

-- What the report says of a response, if it is a redirect.
unfoldable pub redirect_line : HttpObservation → Option Text
redirect_line h = elim h.status [
  | none ↦ none
  | some s ↦
      if is_redirect s
      then some (
          show_addr h.destination
          ++ (text " -> " ++ (decimal s ++ (text " " ++ location_or_none h.location))))
      else none
]

unfoldable pub redirected : Text → List Text → Diagnosis
redirected hostname redirects = record {
  severity = Severity.low;
  category = DiagnosticCategory.http;
  confidence = Confidence.low;
  summary = text "HTTP " ++ (hostname ++ text " which redirected");
  evidence =
      evidence_of (text "redirect observed (" ++ (join (text "; ") redirects ++ text ")")) ∷ [];
  possible_causes =
      text "captive portal / login wall intercepting the request"
      ∷ text "site or resource permanently moved"
      ∷ text "authentication or session redirect"
      ∷ text "CDN / middleware rewriting the URL"
      ∷ [];
}

module _ {F : Type 0} where
  unfoldable pub http_layer_rules : DiagnosticInput F → List Diagnosis
  http_layer_rules input =
      let failing = filter (layer_failed input.tcp) input.http in
      if is_empty failing then [] else http_errors input.hostname failing ∷ []

  unfoldable pub truncated_body_rules : DiagnosticInput F → List Diagnosis
  truncated_body_rules input =
      let truncated = filter is_truncated input.http in
      if is_empty truncated then [] else truncated_body input.hostname truncated ∷ []

  unfoldable pub redirect_rules : DiagnosticInput F → List Diagnosis
  redirect_rules input =
      let redirects = filter_map redirect_line (filter (λ h. is_none h.failure) input.http) in
      if is_empty redirects then [] else redirected input.hostname redirects ∷ []
