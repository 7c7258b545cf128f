-- ===== src/Diagnostics/Engine/Offline.antt =====
-- A host with no route at all, asked for a name of both address families.
use ip_tools.Base.{
  ◌≡◌, refl, true, false, Option, ℕ, List, [], ◌∷◌, ◌++◌, Float, Text, any, arith, append-nil,
}
use ip_tools.Model.{DnsObservation, TcpObservation, kind_eq}
use ip_tools.Diagnostics.Input.{DiagnosticInput}
use ip_tools.Diagnostics.Resolution.{dns_rules}
use ip_tools.Diagnostics.Connectivity.{connectivity_rules, family_rules}
use ip_tools.Diagnostics.Connectivity.Verdicts.{
  succeeded, failed_on_path, of_family, silence_exact, some_observation,
}
use ip_tools.Diagnostics.Layer.{
  tls_layer_rules, certificate_lifetime_rules, certificate_coverage_rules, http_layer_rules,
  redirect_rules, http_consistency_rules, truncated_body_rules, quic_rules, intermittent_rules,
  http_status_flapping_rules, latency_instability_rules, once_each, lifetime_loop, coverage_loop,
}
use ip_tools.Diagnostics.Filtering.{filtering_rules, filtering_signals}
use ip_tools.Diagnostics.Engine.{findings, diagnose, healthy}

module _ (fl : Float) (now : Option ℕ) where
  open fl use {F}

  -- The observations of DNS and TCP alone.
  abbrev pub tcp_only : Text → List DnsObservation → List TcpObservation → DiagnosticInput F
  tcp_only hostname dns tcp = record {
    hostname = hostname;
    dns = dns;
    tcp = tcp;
    tls = [];
    http = [];
    probes = [];
  }

  quiet_signals :
      (h : Text) (dns : List DnsObservation) (tcp : List TcpObservation)
      → any succeeded tcp ≡ false
      → filtering_rules (tcp_only h dns tcp) false ≡ []
  unfolding filtering_rules filtering_signals
  quiet_signals h dns tcp up = rw up (ground arith)

  -- With no TLS, HTTP or repeated observation, those layers' rules are silent.
  findings_of_tcp :
      (h : Text) (dns : List DnsObservation) (tcp : List TcpObservation)
      → dns_rules (tcp_only h dns tcp) ≡ ([], false)
      → any succeeded tcp ≡ false
      → findings fl now (tcp_only h dns tcp)
        ≡ connectivity_rules (tcp_only h dns tcp) ++ family_rules (tcp_only h dns tcp)
  unfolding findings tls_layer_rules certificate_lifetime_rules certificate_coverage_rules
      http_layer_rules redirect_rules http_consistency_rules truncated_body_rules quic_rules
      intermittent_rules http_status_flapping_rules latency_instability_rules once_each
      lifetime_loop coverage_loop
  findings_of_tcp h dns tcp quiet up = rw (quiet, quiet_signals h dns tcp up) (rw append-nil refl)

  -- Where DNS gave no verdict and no TLS, HTTP or repeated probe was made, both address families
  -- were probed, and every address failed with a verdict of the local stack (no packet left the
  -- host), `diagnose` reports the host as healthy.
  pub healthy_offline :
      (h : Text) (dns : List DnsObservation) (tcp : List TcpObservation)
      → dns_rules (tcp_only h dns tcp) ≡ ([], false)
      → any succeeded tcp ≡ false
      → any failed_on_path tcp ≡ false
      → any (of_family true) tcp ≡ true
      → any (of_family false) tcp ≡ true
      → diagnose fl now (tcp_only h dns tcp) ≡ healthy h ∷ []
  unfolding diagnose
  healthy_offline h dns tcp quiet up path a b =
      rw (findings_of_tcp h dns tcp quiet up)
        (rw (silence_exact (tcp_only h dns tcp) (some_observation tcp a) up, path, a, b))
