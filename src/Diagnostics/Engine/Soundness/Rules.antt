-- ===== src/Diagnostics/Engine/Soundness/Rules.antt =====
-- Each rule pushes sound verdicts only.
use ip_tools.Base.{
  ℕ, inl, inr, Bool, true, false, Option, none, some, List, [], ◌∷◌, ◌++◌, Text, Float,
  if◌then◌else◌, length, is_empty, Bool-cases, contains, not, ◌&&◌, leb, ℤ, leb→le, text_eq,
  Option-cases,
}
use ip_tools.Net.{SocketAddr, addr_eq}
use ip_tools.Model.{Diagnosis, ProbeResult, CertificateSummary, TlsObservation, TcpObservation}
use ip_tools.Diagnostics.Input.{DiagnosticInput}
use ip_tools.Diagnostics.Connectivity.{
  both_families, lone_verdict, connectivity_rules, family_rules,
}
use ip_tools.Diagnostics.Resolution.{dns_rules}
use ip_tools.Diagnostics.Layer.{
  protocols_differ, families_differ, addresses_differ, tls_layer_rules, quic_rules,
  http_layer_rules, truncated_body_rules, redirect_rules, http_consistency_rules, once_each,
  intermittent_rules, http_status_flapping_rules, latency_instability_rules, before_verdict,
  after_verdict, push_once, lifetime_of, lifetime_loop, coverage_verdict, coverage_of,
  coverage_loop, summary_eq, family_divergence, family_status, certificate_lifetime_rules,
  certificate_coverage_rules,
}
use ip_tools.Report.Lifetime.{days_until_from_rfc3339}
use ip_tools.Diagnostics.Filtering.{filtering_signals, filtering_rules}
use ip_tools.Diagnostics.Engine.Soundness.{
  IsSound, AllSound, MaySound, nil, cons, absent, present, AllSound-append, AllSound-if,
  MaySound-if,
}
use ip_tools.Diagnostics.Engine.Soundness.Verdicts.{
  total_loss-IsSound, partial_loss-IsSound, asymmetry-IsSound, no_route-IsSound,
  resolution_failed-IsSound, resolvers_disagree-IsSound, tls_failure-IsSound, quic_failure-IsSound,
  http_errors-IsSound, truncated_body-IsSound, redirected-IsSound, families_differ-IsSound,
  not_yet_valid-IsSound, expired-IsSound, expiring-IsSound, no_sans-IsSound, not_covering-IsSound,
  protocols_differ-IsSound, addresses_differ-IsSound, possible_filtering-IsSound,
  intermittent-IsSound, status_flapping-IsSound, latency_instability-IsSound,
}

ruleset sound_rules = (
  nil, cons, absent, present, AllSound-append, AllSound-if, MaySound-if, total_loss-IsSound,
  partial_loss-IsSound, asymmetry-IsSound, no_route-IsSound, resolution_failed-IsSound,
  resolvers_disagree-IsSound, tls_failure-IsSound, quic_failure-IsSound, http_errors-IsSound,
  truncated_body-IsSound, redirected-IsSound, families_differ-IsSound, not_yet_valid-IsSound,
  expired-IsSound, expiring-IsSound, no_sans-IsSound, not_covering-IsSound,
)

module _ {F : Type 0} (input : DiagnosticInput F) where
  pub connectivity_rules-IsSound : AllSound (connectivity_rules input)
  unfolding connectivity_rules
  connectivity_rules-IsSound = search sound_rules depth 9

  pub tls_layer_rules-IsSound : AllSound (tls_layer_rules input)
  unfolding tls_layer_rules
  tls_layer_rules-IsSound = search sound_rules depth 9

  pub quic_rules-IsSound : AllSound (quic_rules input)
  unfolding quic_rules
  quic_rules-IsSound = search sound_rules depth 9

  pub http_layer_rules-IsSound : AllSound (http_layer_rules input)
  unfolding http_layer_rules
  http_layer_rules-IsSound = search sound_rules depth 9

  pub truncated_body_rules-IsSound : AllSound (truncated_body_rules input)
  unfolding truncated_body_rules
  truncated_body_rules-IsSound = search sound_rules depth 9

  pub redirect_rules-IsSound : AllSound (redirect_rules input)
  unfolding redirect_rules
  redirect_rules-IsSound = search sound_rules depth 9

  pub dns_rules-IsSound : AllSound (dns_rules input).0
  unfolding dns_rules
  dns_rules-IsSound = elim (Bool-cases (is_empty input.dns)) [
    | inl e ↦ rw e nil
    | inr e ↦ rw e (search sound_rules depth 9)
  ]

both_families-IsSound : (a b : Option Bool) → AllSound (both_families a b)
unfolding both_families
both_families-IsSound (some true) (some false) = cons (asymmetry-IsSound true false) nil
both_families-IsSound (some false) (some true) = cons (asymmetry-IsSound false true) nil
both_families-IsSound _ _ = nil

lone_verdict-IsSound :
    (h : Text) (tcp : List TcpObservation) (o : Option (Bool × Bool))
    → AllSound (lone_verdict h tcp o)
unfolding lone_verdict
lone_verdict-IsSound h tcp none = nil
lone_verdict-IsSound h tcp (some (ipv4, ok)) = search sound_rules depth 9

pub family_rules-IsSound : {F : Type 0} (input : DiagnosticInput F) → AllSound (family_rules input)
unfolding family_rules
family_rules-IsSound input =
    search (sound_rules, both_families-IsSound, lone_verdict-IsSound) depth 9

protocols-IsSound :
    (h : Text) (ds : List Text) → AllSound (if is_empty ds then [] else protocols_differ h ds ∷ [])
protocols-IsSound h [] = nil
protocols-IsSound h (t ∷ ts) = cons (protocols_differ-IsSound h t ts) nil

addresses-IsSound :
    (h : Text) (ds : List Text) → AllSound (if is_empty ds then [] else addresses_differ h ds ∷ [])
addresses-IsSound h [] = nil
addresses-IsSound h (t ∷ ts) = cons (addresses_differ-IsSound h t ts) nil

families-IsSound :
    (h : Text) (o : Option Text)
    → AllSound (elim o [ none ↦ [] | some detail ↦ families_differ h detail ∷ [] ])
families-IsSound h none = nil
families-IsSound h (some t) = cons (families_differ-IsSound h t) nil

pub http_consistency_rules-IsSound :
    {F : Type 0} (input : DiagnosticInput F) → AllSound (http_consistency_rules input)
unfolding http_consistency_rules
http_consistency_rules-IsSound input = AllSound-append (protocols-IsSound _ _) (
    AllSound-append
      (families-IsSound _
        (family_divergence (family_status true input.http) (family_status false input.http)))
      (addresses-IsSound _ _))

module _ {F : Type 0} (fires : ProbeResult F → Bool) (verdict : ProbeResult F → Diagnosis) where
  once_each-IsSound :
      ((p : ProbeResult F) → IsSound (verdict p))
      → (reported : List SocketAddr) (probes : List (ProbeResult F))
      → AllSound (once_each fires verdict reported probes)
  unfolding once_each
  once_each-IsSound h reported [] = nil
  once_each-IsSound h reported (p ∷ rest) =
      elim (Bool-cases (fires p && not (contains reported p.destination))) [
        | inl e ↦ rw e (cons (h p) (once_each-IsSound h (reported ++ p.destination ∷ []) rest))
        | inr e ↦ rw e (once_each-IsSound h reported rest)
      ]

module _ (fl : Float) where
  open fl use {F}

  pub intermittent_rules-IsSound :
      (input : DiagnosticInput F) → AllSound (intermittent_rules fl input)
  unfolding intermittent_rules
  intermittent_rules-IsSound input = once_each-IsSound _ _ (intermittent-IsSound fl) [] input.probes

  pub http_status_flapping_rules-IsSound :
      (input : DiagnosticInput F) → AllSound (http_status_flapping_rules fl input)
  unfolding http_status_flapping_rules
  http_status_flapping_rules-IsSound input =
      once_each-IsSound _ _ (status_flapping-IsSound fl) [] input.probes

  pub latency_instability_rules-IsSound :
      (input : DiagnosticInput F) → AllSound (latency_instability_rules fl input)
  unfolding latency_instability_rules
  latency_instability_rules-IsSound input =
      once_each-IsSound _ _ (latency_instability-IsSound fl) [] input.probes

-- `days` of a date, if the date is there and reads as one, and what they give.
days-IsSound :
    (days : Option ℤ) (f : ℤ → Option Diagnosis)
    → ((n : ℤ) → MaySound (f n))
    → MaySound (elim days [ none ↦ none | some n ↦ f n ])
days-IsSound none f h = absent
days-IsSound (some n) f h = h n

date-IsSound :
    (date : Option Text) (f : Text → Option Diagnosis)
    → ((t : Text) → MaySound (f t))
    → MaySound (elim date [ none ↦ none | some t ↦ f t ])
date-IsSound none f h = absent
date-IsSound (some t) f h = h t

module _ (now : Option ℕ) (sni : Text) (cert : CertificateSummary) where
  before_verdict-IsSound : MaySound (before_verdict now sni cert)
  unfolding before_verdict
  before_verdict-IsSound =
      date-IsSound cert.not_before_utc _
        λ t. days-IsSound (days_until_from_rfc3339 now t) _ λ n. search sound_rules

  after_verdict-IsSound : MaySound (after_verdict now sni cert)
  unfolding after_verdict
  after_verdict-IsSound =
      date-IsSound cert.not_after_utc _
        λ t. days-IsSound (days_until_from_rfc3339 now t) _ λ n. search sound_rules depth 9

coverage_verdict-IsSound :
    (sni : Text) (cert : CertificateSummary) → MaySound (coverage_verdict sni cert)
unfolding coverage_verdict
coverage_verdict-IsSound sni cert = search sound_rules depth 9

push_once-IsSound :
    (sni : Text) (o : Option Diagnosis) (st : List (Text × Text) × List Diagnosis)
    → MaySound o
    → AllSound st.1
    → AllSound (push_once sni o st).1
unfolding push_once
push_once-IsSound sni none st o h = h
push_once-IsSound sni (some d) (reported, out) (present s) h =
    elim (Bool-cases (contains reported (sni, d.summary))) [
      | inl e ↦ rw e h
      | inr e ↦ rw e (AllSound-append h (cons s nil))
    ]

lifetime_of-IsSound :
    (now : Option ℕ) (sni : Text) (c : Option CertificateSummary)
    (st : List (Text × Text) × List Diagnosis)
    → AllSound st.1
    → AllSound (lifetime_of now sni c st).1
unfolding lifetime_of
lifetime_of-IsSound now sni none st h = h
lifetime_of-IsSound now sni (some cert) st h =
    push_once-IsSound _ _ _ (after_verdict-IsSound now sni cert)
      (push_once-IsSound _ _ st (before_verdict-IsSound now sni cert) h)

lifetime_loop-IsSound :
    (now : Option ℕ) (ts : List TlsObservation) (st : List (Text × Text) × List Diagnosis)
    → AllSound st.1
    → AllSound (lifetime_loop now ts st).1
unfolding lifetime_loop
lifetime_loop-IsSound now [] st h = h
lifetime_loop-IsSound now (t ∷ ts) st h =
    lifetime_loop-IsSound now ts _ (lifetime_of-IsSound now t.sni t.certificate st h)

coverage_of-IsSound : (sni : Text) (c : Option CertificateSummary) → MaySound (coverage_of sni c)
unfolding coverage_of
coverage_of-IsSound sni none = absent
coverage_of-IsSound sni (some cert) = coverage_verdict-IsSound sni cert

MaySound-some : {d : Diagnosis} → MaySound (some d) → IsSound d
MaySound-some (present h) = h

coverage_loop-IsSound :
    (reported : List Text) (ts : List TlsObservation) → AllSound (coverage_loop reported ts)
unfolding coverage_loop
coverage_loop-IsSound reported [] = nil
coverage_loop-IsSound reported (t ∷ ts) = elim (Option-cases (coverage_of t.sni t.certificate)) [
  | inl e ↦ rw (e, coverage_loop) (coverage_loop-IsSound reported ts)
  | inr (d, e) ↦
      rw (e, coverage_loop)
        (elim (Bool-cases (contains reported d.summary)) [
          | inl old ↦ rw old (coverage_loop-IsSound reported ts)
          | inr new ↦ rw new (
              cons (MaySound-some (rw e at (coverage_of-IsSound t.sni t.certificate)))
                (coverage_loop-IsSound (reported ++ d.summary ∷ []) ts))
        ])
]

module _ {F : Type 0} (input : DiagnosticInput F) where
  pub certificate_lifetime_rules-IsSound :
      (now : Option ℕ) → AllSound (certificate_lifetime_rules now input)
  unfolding certificate_lifetime_rules
  certificate_lifetime_rules-IsSound now = lifetime_loop-IsSound now input.tls ([], []) nil

  pub certificate_coverage_rules-IsSound : AllSound (certificate_coverage_rules input)
  unfolding certificate_coverage_rules
  certificate_coverage_rules-IsSound = coverage_loop-IsSound [] input.tls

  pub filtering_rules-IsSound : (dis : Bool) → AllSound (filtering_rules input dis)
  unfolding filtering_rules
  filtering_rules-IsSound dis = elim (Bool-cases (leb 2 (length (filtering_signals input dis)))) [
    | inl e ↦ rw e (cons (possible_filtering-IsSound _ _ (leb→le _ _ e)) nil)
    | inr e ↦ rw e nil
  ]
