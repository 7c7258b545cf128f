-- ===== src/Dns/Repeat.antt =====
-- src/dns.rs: repeated queries, `aggregate_repeat` and the grouping of `resolve_repeat`. A round is
-- what the resolvers answered to one attempt. `kinds_of` is the order in which the hash map of
-- failure kinds is visited.
pub mod Counts
pub mod Grouping
mod Examples
use ip_tools.Base.{
  ℕ, ◌+◌, ◌-◌, min, Option, none, some, List, [], ◌∷◌, ◌++◌, map, length, Bool, nat_eq, ◌==◌,
  if◌then◌else◌, Float, count_up, sort_by, text_lt, first,
}
use ip_tools.Model.{
  ResolverKind, resolver_eq, system, DnsRecordType, DnsObservation, label, FailureKind, kind_eq,
  FailureCount, LatencyStats, LatencySummary, empty_stats, push, summarize, ProbeError,
}
use ip_tools.Probe.{failure_count, failure_lt}

-- `F` is the type of the success rate.
pub record DnsRepeatResult (F : Type 0) : Type 0 where
  pub resolver : ResolverKind
  pub record_type : DnsRecordType
  pub attempts : ℕ
  pub successes : ℕ
  pub failures : ℕ
  pub success_rate : F
  pub latency : LatencySummary
  pub failure_counts : List FailureCount
  pub ttl : Option ℕ

-- The local variables of the loop in `aggregate_repeat`.
pub record RepeatTally : Type 0 where
  pub latency : LatencyStats
  pub failures : List (FailureKind × ℕ)
  pub successes : ℕ
  pub min_ttl : Option ℕ

abbrev pub no_repeat : RepeatTally
no_repeat = record { latency = empty_stats; failures = []; successes = 0; min_ttl = none }

abbrev pub lower_ttl : Option ℕ → Option ℕ → Option ℕ
lower_ttl m none = m
lower_ttl none (some t) = some t
lower_ttl (some m) (some t) = some (min m t)

abbrev pub note_answer : RepeatTally → Option ℕ → Option ProbeError → RepeatTally
note_answer t (some ms) error = record t {
  successes = t.successes + 1;
  latency = push t.latency ms;
}
note_answer t none (some e) = record t { failures = count_up e.kind t.failures }
note_answer t none none = t

-- The loop's body.
unfoldable pub note_query : RepeatTally → DnsObservation → RepeatTally
unfolding count_up
note_query t obs =
    note_answer (record t { min_ttl = lower_ttl t.min_ttl obs.ttl }) obs.latency_ms obs.error

unfoldable pub note_queries : RepeatTally → List DnsObservation → RepeatTally
unfolding note_query
note_queries t [] = t
note_queries t (o ∷ rest) = note_queries (note_query t o) rest

-- `bucket.first().map_or(System, ...)`.
abbrev pub resolver_of : List DnsObservation → ResolverKind
resolver_of [] = system
resolver_of (o ∷ rest) = o.resolver

-- `per_resolver.iter_mut().find(...)`, then a push to the bucket or a new one.
unfoldable pub put_bucket :
    DnsObservation
    → List (ResolverKind × List DnsObservation)
    → List (ResolverKind × List DnsObservation)
put_bucket o [] = (o.resolver, o ∷ []) ∷ []
put_bucket o ((r, bucket) ∷ rest) =
    let later = put_bucket o rest in
    if r == o.resolver then (r, bucket ++ (o ∷ [])) ∷ rest else (r, bucket) ∷ later

unfoldable pub put_round :
    List DnsObservation
    → List (ResolverKind × List DnsObservation)
    → List (ResolverKind × List DnsObservation)
unfolding put_bucket
put_round [] per_resolver = per_resolver
put_round (o ∷ obs) per_resolver = put_round obs (put_bucket o per_resolver)

unfoldable pub put_rounds :
    List (List DnsObservation)
    → List (ResolverKind × List DnsObservation)
    → List (ResolverKind × List DnsObservation)
unfolding put_round
put_rounds [] per_resolver = per_resolver
put_rounds (obs ∷ rounds) per_resolver = put_rounds rounds (put_round obs per_resolver)

module _ (fl : Float) (kinds_of : List (FailureKind × ℕ) → List (FailureKind × ℕ)) where
  open fl use {F, zero_f, of_ℕ, div_f}

  unfoldable pub aggregate_repeat : List DnsObservation → DnsRecordType → ℕ → DnsRepeatResult F
  unfolding note_queries sort_by summarize
  aggregate_repeat bucket record_type attempts =
      let t = note_queries no_repeat bucket in
      record {
        resolver = resolver_of bucket;
        record_type = record_type;
        attempts = attempts;
        successes = t.successes;
        failures = attempts - t.successes;
        success_rate = if attempts == 0 then zero_f else div_f (of_ℕ t.successes) (of_ℕ attempts);
        latency = summarize fl t.latency;
        failure_counts = sort_by failure_lt (map failure_count (kinds_of t.failures));
        ttl = t.min_ttl;
      }

  abbrev pub label_lt : DnsRepeatResult F → DnsRepeatResult F → Bool
  label_lt a b = text_lt (label a.resolver) (label b.resolver)

  -- The attempts are the rounds.
  unfoldable pub resolve_repeat :
      List (List DnsObservation) → DnsRecordType → List (DnsRepeatResult F)
  unfolding put_rounds aggregate_repeat sort_by
  resolve_repeat rounds record_type =
      sort_by label_lt
        (map (λ b. aggregate_repeat b.1 record_type (length rounds)) (put_rounds rounds []))
