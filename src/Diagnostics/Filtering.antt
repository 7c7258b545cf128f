-- ===== src/Diagnostics/Filtering.antt =====
-- src/diagnostics/filtering.rs: conservative network-filtering analysis.
use ip_tools.Base.{
  Bool, not, ◌&&◌, List, [], ◌∷◌, ◌++◌, map, ◌==◌, Text, text, if◌then◌else◌, filter, any, is_none,
  is_some, is_some_and, leb, ltb, contains, length,
}
use ip_tools.Net.{addr_eq}
use ip_tools.Model.{
  FailureKind, kind_eq, TcpObservation, HttpObservation, Severity, Confidence, DiagnosticCategory,
  Diagnosis, Evidence,
}
use ip_tools.Diagnostics.Input.{DiagnosticInput, evidence_of}
use ip_tools.Diagnostics.Connectivity.{is_local}
use ip_tools.Diagnostics.Layer.{is_http3, tls_failed_over_tcp}

-- The closure `path_failure`: a failure on the path, not of the local stack.
abbrev pub path_failure : TcpObservation → Bool
path_failure o = is_some_and o.failure (λ e. not (is_local e.kind))

abbrev pub was_reset : TcpObservation → Bool
was_reset o = is_some_and o.failure (λ e. e.kind == FailureKind.connection_reset)

abbrev pub quic_only : List HttpObservation → Bool
quic_only http =
    any (λ h. is_http3 h && is_some h.failure) http
    && not (any (λ h. is_http3 h && is_none h.failure) http)
    && any (λ h. not (is_http3 h) && is_none h.failure) http

-- A signal adds one to the count, and its evidence.
abbrev signal : Bool → Text → List Evidence
signal fires detail = if fires then evidence_of detail ∷ [] else []

unfoldable pub possible_filtering : Text → List Evidence → Diagnosis
possible_filtering hostname evidence = record {
  severity = Severity.low;
  category = DiagnosticCategory.possible_network_filtering;
  confidence = (if leb 4 (length evidence) then Confidence.medium else Confidence.low);
  summary =
      text "Multiple independent signals are consistent with possible network filtering towards "
      ++ hostname;
  evidence = evidence;
  possible_causes =
      text "destination/cdn failure"
      ∷ text "routing asymmetry"
      ∷ text "packet loss / congestion"
      ∷ text "local or ISP firewall / proxy"
      ∷ text "IPv6 misconfiguration"
      ∷ text "TLS/HTTP protocol incompatibility"
      ∷ text "network filtering or censorship (not proven)"
      ∷ [];
}

module _ {F : Type 0} where
  -- A repeated probe with both outcomes, at an address with no path failure of its own.
  abbrev pub repeat_fail : DiagnosticInput F → Bool
  repeat_fail input =
      let specific_failing = map (λ o. o.destination) (filter path_failure input.tcp) in
      any
        (λ p.
          ltb 0 p.successes && ltb 0 p.failures && not (contains specific_failing p.destination))
        input.probes

  -- The evidence of the signals that fire; the source's `signals` is its length, since each signal
  -- pushes one piece.
  unfoldable pub filtering_signals : DiagnosticInput F → Bool → List Evidence
  filtering_signals input dns_disagreement =
      signal dns_disagreement (text "resolvers returned different address sets")
      ++ (signal (any path_failure input.tcp && any (λ o. o.success) input.tcp)
            (text "address-specific reachability (some IPs fail, others pass)")
          ++ (signal (any was_reset input.tcp) (text "TCP resets observed")
              ++ (signal (any (tls_failed_over_tcp input.tcp) input.tls)
                    (text "TLS handshake failures observed")
                  ++ (signal (quic_only input.http) (text "protocol-selective failure (QUIC only)")
                      ++ signal (repeat_fail input)
                          (text "failures reproducible across repeated attempts")))))

  unfoldable pub filtering_rules : DiagnosticInput F → Bool → List Diagnosis
  filtering_rules input dns_disagreement =
      let evidence = filtering_signals input dns_disagreement in
      if leb 2 (length evidence) then possible_filtering input.hostname evidence ∷ [] else []
