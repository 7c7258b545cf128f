-- ===== src/Diagnostics/Examples.antt =====
-- Runs of the diagnostic engine at small observations.
use ip_tools.Base.{
  ltb, ℕ, ◌+◌, ◌*◌, ◌-◌, ◌/◌, ◌≡◌, ◌≢◌, refl, ◌⊎◌, true, false, not, ◌&&◌, [], ◌∷◌, ◌++◌, none,
  some, Float, text, any, is_empty, if◌then◌else◌, decimal,
}
use ip_tools.Net.{v4, v6}
use ip_tools.Model.{TcpObservation, FailureKind}
use ip_tools.Diagnostics.Input.{DiagnosticInput}
use ip_tools.Diagnostics.Resolution.{dns_rules}
use ip_tools.Diagnostics.Connectivity.{
  connectivity_rules, family_rules, total_loss, partial_loss, succeeding, failing,
}
use ip_tools.Diagnostics.Connectivity.Verdicts.{
  succeeded, failed_on_path, of_family, connectivity_exact, silence_exact,
}
use ip_tools.Diagnostics.Engine.{findings, diagnose, healthy}
use ip_tools.Diagnostics.Engine.Soundness.{AllSound}
use ip_tools.Diagnostics.Engine.Guarantees.{diagnose_sound}
use ip_tools.Diagnostics.Engine.Offline.{tcp_only, healthy_offline}
use ip_tools.Base.{filter, length}
use ip_tools.Model.{DnsObservation, DnsRecordType, ResolverKind}
use ip_tools.Diagnostics.Resolution.{resolution_failed, resolvers_disagree}
use ip_tools.Diagnostics.Resolution.AddressSets.{address_sets}
use ip_tools.Diagnostics.Resolution.Verdicts.{lookup_failed, lookup_answered, dns_rules_exact}

-- Whole numbers in place of `f64`.
abbrev whole : Float
whole = record {
  F = ℕ;
  zero_f = 0;
  of_ℕ = λ n. n;
  add_f = λ a b. a + b;
  sub_f = λ a b. a - b;
  mul_f = λ a b. a * b;
  div_f = λ a b. a / b;
  sqrt_f = λ a. a;
  to_u64 = λ a. a;
  fixed1 = decimal;
}

abbrev refused_v4 : TcpObservation
refused_v4 = record {
  destination = record { ip = v4 1; port = 443 };
  success = false;
  latency_ms = none;
  failure = some (record { kind = FailureKind.connection_refused; message = [] });
}

abbrev no_route_v4 : TcpObservation
no_route_v4 = record {
  destination = record { ip = v4 1; port = 443 };
  success = false;
  latency_ms = none;
  failure = some (record { kind = FailureKind.network_unreachable; message = [] });
}

abbrev no_route_v6 : TcpObservation
no_route_v6 = record {
  destination = record { ip = v6 1; port = 443 };
  success = false;
  latency_ms = none;
  failure = some (record { kind = FailureKind.network_unreachable; message = [] });
}

abbrev answered_v6 : TcpObservation
answered_v6 = record {
  destination = record { ip = v6 1; port = 443 };
  success = true;
  latency_ms = some 3;
  failure = none;
}

abbrev half_down : DiagnosticInput ℕ
half_down = tcp_only whole none (text "h") [] (refused_v4 ∷ answered_v6 ∷ [])

abbrev offline : DiagnosticInput ℕ
offline = tcp_only whole none (text "h") [] (no_route_v4 ∷ no_route_v6 ∷ [])

diagnose_sound_example :
    ((findings whole none half_down ≡ [])
      × (diagnose whole none half_down ≡ healthy half_down.hostname ∷ []))
    ⊎ ((diagnose whole none half_down ≢ [])
        × (diagnose whole none half_down ≡ findings whole none half_down)
        × AllSound (diagnose whole none half_down))
diagnose_sound_example = diagnose_sound whole none half_down

connectivity_exact_example : connectivity_rules half_down ≡ (
    if any failed_on_path half_down.tcp
    then (if any succeeded half_down.tcp
        then partial_loss half_down.hostname (succeeding half_down.tcp) (failing half_down.tcp)
        else total_loss half_down.hostname (failing half_down.tcp))
      ∷ []
    else [])
connectivity_exact_example = connectivity_exact half_down

silence_exact_example :
    is_empty (connectivity_rules offline ++ family_rules offline)
    ≡ not (any failed_on_path offline.tcp)
      && (any (of_family true) offline.tcp && any (of_family false) offline.tcp)
silence_exact_example = silence_exact offline refl refl

quiet_dns : dns_rules offline ≡ ([], false)
unfolding dns_rules
quiet_dns = refl

healthy_offline_example : diagnose whole none offline ≡ healthy (text "h") ∷ []
healthy_offline_example =
    healthy_offline whole none (text "h") [] (no_route_v4 ∷ no_route_v6 ∷ []) quiet_dns refl refl
      refl refl

abbrev failed_lookup : DnsObservation
failed_lookup = record {
  hostname = text "h";
  resolver = ResolverKind.system;
  record_type = DnsRecordType.a;
  records = [];
  ttl = none;
  latency_ms = none;
  error = some (record { kind = FailureKind.dns; message = text "no such name" });
}

abbrev unresolved : DiagnosticInput ℕ
unresolved = tcp_only whole none (text "h") (failed_lookup ∷ []) []

dns_rules_exact_example : dns_rules unresolved ≡ (
  (if any lookup_failed unresolved.dns && not (any lookup_answered unresolved.dns)
      then resolution_failed unresolved.hostname (filter lookup_failed unresolved.dns) ∷ []
      else if ltb 1 (length (address_sets unresolved.dns))
      then resolvers_disagree unresolved.hostname (length (address_sets unresolved.dns)) ∷ []
      else []),
  ltb 1 (length (address_sets unresolved.dns)),
)
dns_rules_exact_example = dns_rules_exact unresolved
