-- ===== src/Diagnostics/Layer/Transport.antt =====
-- src/diagnostics/layer.rs: the TLS and QUIC rules.
use ip_tools.Base.{
  Bool, not, ◌&&◌, List, [], ◌∷◌, ◌++◌, map, Text, text, join, if◌then◌else◌, filter, any, is_empty,
  is_none, is_some_and, ltb, ◌==◌, text_eq,
}
use ip_tools.Net.{SocketAddr, show_addr, addr_eq}
use ip_tools.Model.{
  TcpObservation, TlsObservation, HttpObservation, Severity, Confidence, DiagnosticCategory,
  Diagnosis,
}
use ip_tools.Diagnostics.Input.{DiagnosticInput, evidence_of}

-- Whether TCP connected to the address.
abbrev pub tcp_connected : List TcpObservation → SocketAddr → Bool
tcp_connected tcp d = any (λ o. o.destination == d && o.success) tcp

abbrev pub tls_failed_over_tcp : List TcpObservation → TlsObservation → Bool
tls_failed_over_tcp tcp t = not t.success && tcp_connected tcp t.destination

unfoldable pub tls_failure : List TlsObservation → Diagnosis
tls_failure failing = record {
  severity = Severity.medium;
  category = DiagnosticCategory.tls;
  confidence = Confidence.medium;
  summary =
      text "TLS handshake fails where TCP connects ("
      ++ (join (text ", ") (map (λ t. show_addr t.destination) failing) ++ text ")");
  evidence = evidence_of (text "TCP established, TLS handshake did not") ∷ [];
  possible_causes =
      text "server TLS configuration / disabled TLS"
      ∷ text "certificate validation failure"
      ∷ text "SNI/ALPN mismatch"
      ∷ text "middlebox interfering with TLS"
      ∷ [];
}

-- `h.protocol.as_deref() == Some("HTTP/3")`.
abbrev pub is_http3 : HttpObservation → Bool
is_http3 h = is_some_and h.protocol (λ p. p == text "HTTP/3")

abbrev pub answered_below_400 : HttpObservation → Bool
answered_below_400 h = is_none h.failure && is_some_and h.status (λ s. ltb s 400)

unfoldable pub quic_failure : Text → Diagnosis
quic_failure hostname = record {
  severity = Severity.low;
  category = DiagnosticCategory.quic;
  confidence = Confidence.medium;
  summary = text "QUIC/HTTP3 fails while TCP+HTTPS succeeds for " ++ hostname;
  evidence = evidence_of (text "TCP path OK; UDP/QUIC path failed") ∷ [];
  possible_causes =
      text "QUIC disabled / not offered by server"
      ∷ text "UDP blocked or rate-limited on a path"
      ∷ text "middlebox/NAT interfering with QUIC"
      ∷ text "server prefers TCP"
      ∷ [];
}

module _ {F : Type 0} where
  unfoldable pub tls_layer_rules : DiagnosticInput F → List Diagnosis
  tls_layer_rules input =
      let failing = filter (tls_failed_over_tcp input.tcp) input.tls in
      if is_empty failing then [] else tls_failure failing ∷ []

  unfoldable pub quic_rules : DiagnosticInput F → List Diagnosis
  quic_rules input =
      let tcp_http_ok = any answered_below_400 input.http in
      let quic_http = filter is_http3 input.http in
      let quic_ok = any (λ h. is_none h.failure) quic_http in
      if not (is_empty quic_http) && tcp_http_ok && not quic_ok
      then quic_failure input.hostname ∷ []
      else []
