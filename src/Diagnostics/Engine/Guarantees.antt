-- ===== src/Diagnostics/Engine/Guarantees.antt =====
-- What `diagnose` promises for every input.
use ip_tools.Base.{◌≡◌, ◌≢◌, ◌⊎◌, inl, inr, Option, ℕ, [], ◌∷◌, Float, list_cases}
use mathlib.Core.List.{cons-ne-nil}
use ip_tools.Diagnostics.Input.{DiagnosticInput}
use ip_tools.Diagnostics.Engine.{findings, diagnose, healthy}
use ip_tools.Diagnostics.Engine.Soundness.{AllSound, AllSound-append}
use ip_tools.Diagnostics.Engine.Soundness.Rules.{
  dns_rules-IsSound, connectivity_rules-IsSound, family_rules-IsSound, tls_layer_rules-IsSound,
  certificate_lifetime_rules-IsSound, certificate_coverage_rules-IsSound, http_layer_rules-IsSound,
  redirect_rules-IsSound, http_consistency_rules-IsSound, truncated_body_rules-IsSound,
  quic_rules-IsSound, intermittent_rules-IsSound, http_status_flapping_rules-IsSound,
  latency_instability_rules-IsSound, filtering_rules-IsSound,
}

ruleset rule_lemmas = (
  AllSound-append, dns_rules-IsSound, connectivity_rules-IsSound, family_rules-IsSound,
  tls_layer_rules-IsSound, certificate_lifetime_rules-IsSound, certificate_coverage_rules-IsSound,
  http_layer_rules-IsSound, redirect_rules-IsSound, http_consistency_rules-IsSound,
  truncated_body_rules-IsSound, quic_rules-IsSound, intermittent_rules-IsSound,
  http_status_flapping_rules-IsSound, latency_instability_rules-IsSound, filtering_rules-IsSound,
)

module _ (fl : Float) (now : Option ℕ) where
  open fl use {F}

  findings-AllSound : (input : DiagnosticInput F) → AllSound (findings fl now input)
  unfolding findings
  findings-AllSound input = search rule_lemmas depth 16

  -- `diagnose` either gives the one healthy verdict, and then no rule pushed anything, or it gives
  -- the rules' findings, at least one. Each finding is of a severity above informational and not of
  -- the healthy category, has evidence and possible causes, is of high severity only as a DNS
  -- failure or a total connectivity loss, and if it is a filtering verdict, is of low severity, not
  -- of high confidence, and rests on at least two pieces of evidence.
  pub diagnose_sound :
      (input : DiagnosticInput F)
      → ((findings fl now input ≡ []) × (diagnose fl now input ≡ healthy input.hostname ∷ []))
        ⊎ ((diagnose fl now input ≢ [])
            × (diagnose fl now input ≡ findings fl now input)
            × AllSound (diagnose fl now input))
  unfolding diagnose
  diagnose_sound input = elim (list_cases (findings fl now input)) [
    | inl e ↦ inl (e, rw e)
    | inr (d, ds, e) ↦ inr (rw e (cons-ne-nil d ds), rw e, rw e (rw e at (findings-AllSound input)))
  ]
