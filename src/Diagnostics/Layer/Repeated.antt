-- ===== src/Diagnostics/Layer/Repeated.antt =====
-- src/diagnostics/layer.rs: what repeated probes show, one verdict for each destination.
use ip_tools.Base.{
  ℕ, ◌*◌, ◌%◌, ◌^◌, max, Bool, false, not, ◌&&◌, ◌||◌, List, [], ◌∷◌, ◌++◌, map, Option, none, some,
  Text, text, join, decimal, if◌then◌else◌, any, is_empty, ltb, contains, Float,
}
use ip_tools.Net.{SocketAddr, show_addr, addr_eq}
use ip_tools.Model.{show_kind, ProbeResult, Severity, Confidence, DiagnosticCategory, Diagnosis}
use ip_tools.Diagnostics.Input.{DiagnosticInput, evidence_of}
use ip_tools.Diagnostics.Layer.Consistency.{content}

-- The loop that the three rules share: a probe that `fires` gives its verdict, unless its
-- destination has been reported.
module _ {F : Type 0} (fires : ProbeResult F → Bool) (verdict : ProbeResult F → Diagnosis) where
  unfoldable pub once_each : List SocketAddr → List (ProbeResult F) → List Diagnosis
  once_each reported [] = []
  once_each reported (p ∷ rest) =
      let skip = once_each reported rest in
      let report = verdict p ∷ once_each (reported ++ (p.destination ∷ [])) rest in
      if fires p && not (contains reported p.destination) then report else skip

-- The 95th percentile is at least three times the median, which counts as one at least.
abbrev pub slow_tail : Option ℕ → Option ℕ → Bool
slow_tail (some p50) (some p95) = not (ltb p95 (3 * max p50 1 % 2 ^ 64))
slow_tail _ _ = false

module _ {F : Type 0} where
  -- `failure_summary_opt`.
  unfoldable pub failure_summary_opt : ProbeResult F → Text
  failure_summary_opt p =
      if is_empty p.failure_counts
      then text "no classified failures"
      else join (text ", ")
          (map (λ f. show_kind f.kind ++ (text ": " ++ decimal f.count)) p.failure_counts)

  abbrev pub is_intermittent : ProbeResult F → Bool
  is_intermittent p = ltb 1 p.attempts && ltb 0 p.failures && ltb 0 p.successes

  -- The transport succeeded throughout, and some statuses are 2xx and some are not.
  abbrev pub is_flapping : ProbeResult F → Bool
  is_flapping p =
      not (ltb p.attempts 2 || is_empty p.status_counts)
      && not (ltb 0 p.failures)
      && (any (λ s. content s.status) p.status_counts
          && any (λ s. not (content s.status)) p.status_counts)

  abbrev pub is_unstable : ProbeResult F → Bool
  is_unstable p =
      not (ltb p.attempts 3 || ltb 0 p.failures || ltb p.latency.count 3)
      && slow_tail p.latency.p50 p.latency.p95

abbrev number_or_zero : Option ℕ → ℕ
number_or_zero none = 0
number_or_zero (some n) = n

module _ (fl : Float) where
  open fl use {F, of_ℕ, mul_f, fixed1}

  -- `{:.1}` of the success rate in percent.
  abbrev percent : ProbeResult F → Text
  percent p = fixed1 (mul_f p.success_rate (of_ℕ 100))

  unfoldable pub intermittent : ProbeResult F → Diagnosis
  intermittent p = record {
    severity = Severity.medium;
    category = DiagnosticCategory.intermittent;
    confidence = Confidence.high;
    summary =
        text "Intermittent connectivity to "
        ++ (show_addr p.destination ++ (text " (" ++ (percent p ++ text "% success)")));
    evidence =
        evidence_of (decimal p.successes ++ (text "/" ++ (decimal p.attempts ++ text " success")))
        ∷ evidence_of (failure_summary_opt p)
        ∷ [];
    possible_causes =
        text "packet loss / unstable path"
        ∷ text "congested transit"
        ∷ text "flapping routing"
        ∷ text "intermittent filtering"
        ∷ [];
  }

  abbrev distribution : ProbeResult F → Text
  distribution p =
      join (text ", ")
        (map (λ s. decimal s.status ++ (text "x" ++ decimal s.count)) p.status_counts)

  unfoldable pub status_flapping : ProbeResult F → Diagnosis
  status_flapping p = record {
    severity = Severity.low;
    category = DiagnosticCategory.intermittent;
    confidence = Confidence.high;
    summary =
        text "HTTP status flapping for "
        ++ (show_addr p.destination ++ (text " (" ++ (percent p ++ text "% transport success)")));
    evidence =
        evidence_of (
          text "status distribution across "
          ++ (decimal p.attempts ++ (text " attempts: " ++ distribution p)))
        ∷ evidence_of (
            text "transport succeeded on every classified attempt; the HTTP response class changed")
        ∷ [];
    possible_causes =
        text "flapping / degraded backend returning intermittent 5xx"
        ∷ text "A/B or partial deployment across origins"
        ∷ text "capacity limits / rate-limiting cycling"
        ∷ [];
  }

  unfoldable pub latency_instability : ProbeResult F → Diagnosis
  latency_instability p =
      let p50 = decimal (number_or_zero p.latency.p50) in
      let p95 = decimal (number_or_zero p.latency.p95) in
      record {
        severity = Severity.low;
        category = DiagnosticCategory.intermittent;
        confidence = Confidence.high;
        summary =
            text "Latency instability for "
            ++ (show_addr p.destination
                ++ (text " (p95 " ++ (p95 ++ (text " ms vs p50 " ++ (p50 ++ text " ms)")))));
        evidence =
            evidence_of (
              text "latency across "
              ++ (decimal p.latency.count
                  ++ (text " attempts: p50 "
                      ++ (p50 ++ (text " ms, p95 " ++ (p95 ++ text " ms"))))))
            ∷ evidence_of
                (text "transport and HTTP status were stable; only the latency tail is long")
            ∷ [];
        possible_causes =
            text "degraded backend under load (slow tail)"
            ∷ text "capacity limits / rate-limit throttling"
            ∷ text "congested or flapping network path"
            ∷ [];
      }

  unfoldable pub intermittent_rules : DiagnosticInput F → List Diagnosis
  intermittent_rules input = once_each is_intermittent intermittent [] input.probes

  unfoldable pub http_status_flapping_rules : DiagnosticInput F → List Diagnosis
  http_status_flapping_rules input = once_each is_flapping status_flapping [] input.probes

  unfoldable pub latency_instability_rules : DiagnosticInput F → List Diagnosis
  latency_instability_rules input = once_each is_unstable latency_instability [] input.probes
