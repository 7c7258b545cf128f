-- ===== src/Diagnostics/Connectivity.antt =====
-- src/diagnostics/connectivity.rs: total loss, partial reachability, address-family asymmetries.
pub mod Verdicts
use ip_tools.Base.{
  ℕ, Bool, true, false, not, ◌&&◌, ◌||◌, List, [], ◌∷◌, ◌++◌, map, Option, none, some, Text, text,
  join, decimal, if◌then◌else◌, filter, all, any, is_empty, is_some_and, length, ltb, count_up,
  ◌==◌, PartialEq,
}
use ip_tools.Net.{SocketAddr, show_addr, is_ipv4}
use ip_tools.Model.{
  FailureKind, kind_eq, show_kind, ProbeError, TcpObservation, Severity, Confidence,
  DiagnosticCategory, Diagnosis, Evidence,
}
use ip_tools.Diagnostics.Input.{DiagnosticInput, evidence_of}

-- `matches!(kind, NetworkUnreachable | HostUnreachable)`.
abbrev pub is_local : FailureKind → Bool
is_local FailureKind.network_unreachable = true
is_local FailureKind.host_unreachable = true
is_local _ = false

abbrev pub local_failure : TcpObservation → Bool
local_failure o = is_some_and o.failure (λ f. is_local f.kind)

-- `all_local_unreachability`.
unfoldable pub all_local_unreachability : List TcpObservation → Bool
all_local_unreachability bad = all local_failure bad

-- The loop of `failure_summary`: a counter for each kind, in the order of appearance.
kind_counts : List TcpObservation → List (FailureKind × ℕ) → List (FailureKind × ℕ)
kind_counts [] counts = counts
kind_counts (o ∷ rest) counts =
    kind_counts rest (elim o.failure [ none ↦ counts | some f ↦ count_up f.kind counts ])

unfoldable pub failure_summary : List TcpObservation → Text
unfolding kind_counts
failure_summary bad =
    join (text ", ") (map (λ e. show_kind e.0 ++ (text ": " ++ decimal e.1)) (kind_counts bad []))

abbrev destinations : List TcpObservation → Text
destinations os = join (text ", ") (map (λ o. show_addr o.destination) os)

abbrev pub confidence_in : List TcpObservation → Confidence
confidence_in bad = if ltb 1 (length bad) then Confidence.high else Confidence.medium

unfoldable pub total_loss : Text → List TcpObservation → Diagnosis
total_loss hostname bad = record {
  severity = Severity.high;
  category = DiagnosticCategory.total_connectivity_loss;
  confidence = confidence_in bad;
  summary = text "No address of " ++ (hostname ++ text " accepts TCP connections");
  evidence =
      evidence_of (
        decimal (length bad)
        ++ (text " addresses probed, " ++ (decimal (length bad) ++ text " failed")))
      ∷ evidence_of (failure_summary bad)
      ∷ [];
  possible_causes =
      text "destination server down"
      ∷ text "firewall / ACL blocking"
      ∷ text "wrong port"
      ∷ text "routing failure"
      ∷ text "local egress restriction"
      ∷ [];
}

unfoldable pub partial_loss : Text → List TcpObservation → List TcpObservation → Diagnosis
partial_loss hostname ok bad = record {
  severity = Severity.medium;
  category = DiagnosticCategory.partial_connectivity;
  confidence = confidence_in bad;
  summary = text "Only some addresses of " ++ (hostname ++ text " are reachable");
  evidence =
      evidence_of (text "reachable: " ++ destinations ok)
      ∷ evidence_of (text "unreachable: " ++ destinations bad)
      ∷ [];
  possible_causes =
      text "CDN / load balancer node failure"
      ∷ text "destination-specific filtering"
      ∷ text "routing asymmetry between addresses"
      ∷ text "packet loss on a subset of paths"
      ∷ [];
}

abbrev pub succeeding : List TcpObservation → List TcpObservation
succeeding = filter (λ o. o.success)

abbrev pub failing : List TcpObservation → List TcpObservation
failing = filter (λ o. not o.success)

module _ {F : Type 0} where
  unfoldable pub connectivity_rules : DiagnosticInput F → List Diagnosis
  connectivity_rules input =
      let ok = succeeding input.tcp in
      let bad = failing input.tcp in
      if is_empty input.tcp
      then []
      else if is_empty ok && not (is_empty bad)
      then (if all_local_unreachability bad then [] else total_loss input.hostname bad ∷ [])
      else if not (is_empty ok) && not (is_empty bad)
      then (if all_local_unreachability bad then [] else partial_loss input.hostname ok bad ∷ [])
      else []

abbrev family_group : Bool → List TcpObservation → List TcpObservation
family_group ipv4 tcp =
    filter (λ o. if ipv4 then is_ipv4 o.destination else not (is_ipv4 o.destination)) tcp

-- The closure `family_result`: whether any address of the family answered.
unfoldable pub family_result : Bool → List TcpObservation → Option Bool
family_result ipv4 tcp =
    let group = family_group ipv4 tcp in
    if is_empty group then none else some (any (λ o. o.success) group)

abbrev family_name : Bool → Text
family_name ipv4 = if ipv4 then text "IPv4" else text "IPv6"

abbrev reachable : Bool → Text
reachable ok = if ok then text ": reachable" else text ": unreachable"

unfoldable pub asymmetry : Bool → Bool → Diagnosis
asymmetry v4_ok v6_ok = record {
  severity = Severity.low;
  category = DiagnosticCategory.address_family;
  confidence = Confidence.medium;
  summary = family_name (not v4_ok) ++ text " connectivity fails while the other family works";
  evidence =
      evidence_of (text "IPv4" ++ reachable v4_ok)
      ∷ evidence_of (text "IPv6" ++ reachable v6_ok)
      ∷ [];
  possible_causes =
      text "broken or missing IPv6"
      ∷ text "destination has no working IPv6"
      ∷ text "firewall / ISP IPv6 filtering"
      ∷ text "routing problem for one family"
      ∷ [];
}

unfoldable pub no_route : Text → Bool → Diagnosis
no_route hostname ipv4 =
    let fam = family_name ipv4 in
    record {
      severity = Severity.low;
      category = DiagnosticCategory.address_family;
      confidence = Confidence.medium;
      summary = fam ++ (text " connectivity is locally unreachable (no route) for " ++ hostname);
      evidence =
          evidence_of (fam ++ text ": every address locally unreachable (network/host unreachable)")
          ∷ [];
      possible_causes =
          (text "no " ++ (fam ++ text " route / global address on the probing host"))
          ∷ (fam ++ text " disabled on the destination or its network")
          ∷ (text "firewall or policy blocking " ++ (fam ++ text " traffic locally"))
          ∷ [];
    }

-- The verdict where both families were probed.
unfoldable pub both_families : Option Bool → Option Bool → List Diagnosis
both_families (some true) (some false) = asymmetry true false ∷ []
both_families (some false) (some true) = asymmetry false true ∷ []
both_families _ _ = []

-- `single`: the lone family that was probed, and whether it answered.
abbrev pub lone_family : Option Bool → Option Bool → Option (Bool × Bool)
lone_family (some ok) none = some (true, ok)
lone_family none (some ok) = some (false, ok)
lone_family _ _ = none

unfoldable pub lone_verdict : Text → List TcpObservation → Option (Bool × Bool) → List Diagnosis
lone_verdict hostname tcp none = []
lone_verdict hostname tcp (some (ipv4, ok)) =
    let bad = failing (family_group ipv4 tcp) in
    if ok then [] else if all_local_unreachability bad then no_route hostname ipv4 ∷ [] else []

module _ {F : Type 0} where
  unfoldable pub family_rules : DiagnosticInput F → List Diagnosis
  unfolding family_result both_families lone_verdict
  family_rules input =
      let a = family_result true input.tcp in
      let b = family_result false input.tcp in
      if is_empty input.tcp
      then []
      else both_families a b ++ lone_verdict input.hostname input.tcp (lone_family a b)
