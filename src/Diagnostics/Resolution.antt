-- ===== src/Diagnostics/Resolution.antt =====
-- src/diagnostics/dns.rs: whether the name resolved, and whether the resolvers agree.
pub mod AddressSets
pub mod Verdicts
use ip_tools.Base.{
  ℕ, Bool, true, false, not, ◌&&◌, List, [], ◌∷◌, ◌++◌, map, none, some, Text, text, join, decimal,
  if◌then◌else◌, is_empty, is_some, length, ltb, ◌==◌, PartialEq, contains, list_beq, filter_map,
  set_extend, list_beq_iff, values,
}
use ip_tools.Net.{IpAddr, ip_lt, ip_eq}
use ip_tools.Model.{
  ResolverKind, resolver_eq, DnsRecordType, address, DnsObservation, Severity, Confidence,
  DiagnosticCategory, Diagnosis,
}
use ip_tools.Diagnostics.Input.{DiagnosticInput, evidence_of}

instance abbrev pub ip_set_eq : PartialEq (List IpAddr)
ip_set_eq = record { beq = list_beq; beq_iff = list_beq_iff }

-- `matches!(obs.record_type, A | Aaaa)`.
abbrev pub is_forward : DnsRecordType → Bool
is_forward DnsRecordType.a = true
is_forward DnsRecordType.aaaa = true
is_forward _ = false

-- The variables of the loop. `per_resolver` is keyed in the source by the debug print of the
-- resolver, which tells two resolvers apart exactly when they differ; only the number of
-- different sets is used, so the order of its keys is not kept.
pub record Tally : Type 0 where
  pub any_success : Bool
  pub any_failure : Bool
  pub failed : List DnsObservation
  pub per_resolver : List (ResolverKind × List IpAddr)

abbrev pub no_tally : Tally
no_tally = record { any_success = false; any_failure = false; failed = []; per_resolver = [] }

-- `per_resolver.entry(r).or_default().extend(ips)`.
unfoldable pub extend_resolver :
    ResolverKind
    → List IpAddr
    → List (ResolverKind × List IpAddr)
    → List (ResolverKind × List IpAddr)
extend_resolver r ips [] = (r, set_extend ip_lt ips []) ∷ []
extend_resolver r ips ((s, set) ∷ m) =
    let later = extend_resolver r ips m in
    if s == r then (s, set_extend ip_lt ips set) ∷ m else (s, set) ∷ later

-- One round of the loop.
unfoldable pub tally_one : Tally → DnsObservation → Tally
tally_one t obs =
    if not (is_forward obs.record_type)
    then t
    else if is_some obs.error
    then record t { any_failure = true; failed = t.failed ++ (obs ∷ []) }
    else record t {
      any_success = true;
      per_resolver =
          (if is_empty obs.records
            then t.per_resolver
            else extend_resolver obs.resolver (filter_map address obs.records) t.per_resolver);
    }

unfoldable pub tally : Tally → List DnsObservation → Tally
unfolding tally_one
tally t [] = t
tally t (obs ∷ rest) = tally (tally_one t obs) rest

-- The loop that gathers the different address sets.
unfoldable pub distinct_sets : List (List IpAddr) → List (List IpAddr) → List (List IpAddr)
distinct_sets distinct [] = distinct
distinct_sets distinct (set ∷ rest) =
    distinct_sets (if contains distinct set then distinct else distinct ++ (set ∷ [])) rest

abbrev error_message : DnsObservation → Text
error_message o = elim o.error [ none ↦ [] | some e ↦ e.message ]

unfoldable pub resolution_failed : Text → List DnsObservation → Diagnosis
resolution_failed hostname failed = record {
  severity = Severity.high;
  category = DiagnosticCategory.dns;
  confidence = Confidence.high;
  summary = text "DNS resolution failed for " ++ (hostname ++ text " from every resolver");
  evidence =
      evidence_of (text "no A/AAAA records returned")
      ∷ evidence_of (join (text "; ") (map error_message failed))
      ∷ [];
  possible_causes =
      text "resolver outage"
      ∷ text "upstream network problem"
      ∷ text "domain does not exist or has no records"
      ∷ text "local DNS configuration / filtering"
      ∷ [];
}

unfoldable pub resolvers_disagree : Text → ℕ → Diagnosis
resolvers_disagree hostname sets = record {
  severity = Severity.low;
  category = DiagnosticCategory.dns;
  confidence = Confidence.low;
  summary = text "Resolvers disagree on " ++ (hostname ++ text "'s addresses");
  evidence = evidence_of (decimal sets ++ text " distinct address sets returned") ∷ [];
  possible_causes =
      text "GeoDNS"
      ∷ text "CDN / load-balanced DNS"
      ∷ text "EDNS Client Subnet (ECS)"
      ∷ text "caching or normal resolver differences"
      ∷ text "DNS manipulation (unproven)"
      ∷ [];
}

module _ {F : Type 0} where
  -- The diagnoses, and whether the resolvers disagree.
  unfoldable pub dns_rules : DiagnosticInput F → List Diagnosis × Bool
  dns_rules input =
      let t = tally no_tally input.dns in
      let distinct = distinct_sets [] (values t.per_resolver) in
      let disagreement = ltb 1 (length distinct) in
      if is_empty input.dns then ([], false) else (
        (if t.any_failure && not t.any_success
            then resolution_failed input.hostname t.failed ∷ []
            else if disagreement
            then resolvers_disagree input.hostname (length distinct) ∷ []
            else []),
        disagreement,
      )
