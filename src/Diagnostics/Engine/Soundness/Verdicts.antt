-- ===== src/Diagnostics/Engine/Soundness/Verdicts.antt =====
-- Each verdict that a rule can push is sound.
use ip_tools.Base.{ℕ, ◌≤◌, refl, Bool, List, ◌∷◌, Text, arith, Float, length, ℤ}
use ip_tools.Model.{
  Evidence, ProbeResult, CertificateSummary, TlsObservation, TcpObservation, HttpObservation,
  DnsObservation,
}
use ip_tools.Diagnostics.Connectivity.{total_loss, partial_loss, asymmetry, no_route}
use ip_tools.Diagnostics.Resolution.{resolution_failed, resolvers_disagree}
use ip_tools.Diagnostics.Layer.{
  tls_failure, quic_failure, http_errors, truncated_body, redirected, protocols_differ,
  families_differ, addresses_differ, intermittent, status_flapping, latency_instability,
  not_yet_valid, expired, expiring, no_sans, not_covering,
}
use ip_tools.Diagnostics.Filtering.{possible_filtering}
use ip_tools.Diagnostics.Engine.Soundness.{IsSound}

pub total_loss-IsSound : (h : Text) (bad : List TcpObservation) → IsSound (total_loss h bad)
unfolding total_loss
total_loss-IsSound h bad = ground arith

pub partial_loss-IsSound :
    (h : Text) (up bad : List TcpObservation) → IsSound (partial_loss h up bad)
unfolding partial_loss
partial_loss-IsSound h up bad = ground arith

pub asymmetry-IsSound : (a b : Bool) → IsSound (asymmetry a b)
unfolding asymmetry
asymmetry-IsSound a b = ground arith

pub no_route-IsSound : (h : Text) (b : Bool) → IsSound (no_route h b)
unfolding no_route
no_route-IsSound h b = ground arith

pub resolution_failed-IsSound :
    (h : Text) (os : List DnsObservation) → IsSound (resolution_failed h os)
unfolding resolution_failed
resolution_failed-IsSound h os = ground arith

pub resolvers_disagree-IsSound : (h : Text) (n : ℕ) → IsSound (resolvers_disagree h n)
unfolding resolvers_disagree
resolvers_disagree-IsSound h n = ground arith

pub tls_failure-IsSound : (ts : List TlsObservation) → IsSound (tls_failure ts)
unfolding tls_failure
tls_failure-IsSound ts = ground arith

pub quic_failure-IsSound : (h : Text) → IsSound (quic_failure h)
unfolding quic_failure
quic_failure-IsSound h = ground arith

pub http_errors-IsSound : (h : Text) (os : List HttpObservation) → IsSound (http_errors h os)
unfolding http_errors
http_errors-IsSound h os = ground arith

pub truncated_body-IsSound : (h : Text) (os : List HttpObservation) → IsSound (truncated_body h os)
unfolding truncated_body
truncated_body-IsSound h os = ground arith

pub redirected-IsSound : (h : Text) (ts : List Text) → IsSound (redirected h ts)
unfolding redirected
redirected-IsSound h ts = ground arith

pub families_differ-IsSound : (h t : Text) → IsSound (families_differ h t)
unfolding families_differ
families_differ-IsSound h t = ground arith

pub not_yet_valid-IsSound :
    (s : Text) (c : CertificateSummary) (t : Text) (n : ℤ) → IsSound (not_yet_valid s c t n)
unfolding not_yet_valid
not_yet_valid-IsSound s c t n = ground arith

pub expired-IsSound :
    (s : Text) (c : CertificateSummary) (t : Text) (n : ℤ) → IsSound (expired s c t n)
unfolding expired
expired-IsSound s c t n = ground arith

pub expiring-IsSound :
    (s : Text) (c : CertificateSummary) (t : Text) (n : ℤ) → IsSound (expiring s c t n)
unfolding expiring
expiring-IsSound s c t n = ground arith

pub no_sans-IsSound : (s : Text) (c : CertificateSummary) → IsSound (no_sans s c)
unfolding no_sans
no_sans-IsSound s c = ground arith

pub not_covering-IsSound : (s : Text) (c : CertificateSummary) → IsSound (not_covering s c)
unfolding not_covering
not_covering-IsSound s c = ground arith

pub protocols_differ-IsSound : (h t : Text) (ts : List Text) → IsSound (protocols_differ h (t ∷ ts))
unfolding protocols_differ
protocols_differ-IsSound h t ts = ground arith

pub addresses_differ-IsSound : (h t : Text) (ts : List Text) → IsSound (addresses_differ h (t ∷ ts))
unfolding addresses_differ
addresses_differ-IsSound h t ts = ground arith

pub possible_filtering-IsSound :
    (h : Text) (e : List Evidence) → 2 ≤ length e → IsSound (possible_filtering h e)
unfolding possible_filtering
possible_filtering-IsSound h e fits = record {
  anomalous = cc;
  not_healthy = cc;
  evidenced = λ nil. ground arith;
  explained = cc;
  grave = λ s. cc;
  cautious = λ c. (ground arith, refl, fits);
}

module _ (fl : Float) where
  open fl use {F}

  pub intermittent-IsSound : (p : ProbeResult F) → IsSound (intermittent fl p)
  unfolding intermittent
  intermittent-IsSound p = ground arith

  pub status_flapping-IsSound : (p : ProbeResult F) → IsSound (status_flapping fl p)
  unfolding status_flapping
  status_flapping-IsSound p = ground arith

  pub latency_instability-IsSound : (p : ProbeResult F) → IsSound (latency_instability fl p)
  unfolding latency_instability
  latency_instability-IsSound p = ground arith
