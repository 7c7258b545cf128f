-- ===== src/Dns/Repeat/Examples.antt =====
-- Repeated queries of two resolvers.
use mathlib.Core.List.{Perm, reverse, reverse_perm}
use ip_tools.Base.Tests.{naturals}
use ip_tools.Base.{ℕ, ◌-◌, ◌≡◌, none, some, List, [], ◌∷◌, map, length, filter, min, keys}
use ip_tools.Model.{FailureKind, timeout, ResolverKind, system, doh, DnsRecordType, DnsObservation}
use ip_tools.Dns.Repeat.{aggregate_repeat, resolve_repeat}
use ip_tools.Dns.Repeat.Counts.{answered, failed_as, ttls, IsLeast, aggregate_repeat-counts}
use ip_tools.Probe.Attempts.{kind_total, kind_rows}
use ip_tools.Dns.Repeat.Grouping.{
  Bucket, Distinct, bucket_of, if_any, by_resolver, concat, resolve_repeat-rows,
}

abbrev answer : ResolverKind → ℕ → DnsObservation
answer r t = record {
  hostname = [];
  resolver = r;
  record_type = DnsRecordType.a;
  records = [];
  ttl = some t;
  latency_ms = some 5;
  error = none;
}

abbrev silence : DnsObservation
silence = record {
  hostname = [];
  resolver = system;
  record_type = DnsRecordType.a;
  records = [];
  ttl = none;
  latency_ms = none;
  error = some (record { kind = timeout; message = [] });
}

abbrev rounds : List (List DnsObservation)
rounds = (answer system 60 ∷ answer (doh []) 30 ∷ []) ∷ (silence ∷ answer (doh []) 20 ∷ []) ∷ []

abbrev mixed : List DnsObservation
mixed = answer system 60 ∷ silence ∷ answer system 20 ∷ []

aggregate_repeat-counts_example :
    let r = aggregate_repeat naturals reverse mixed DnsRecordType.a 3 in
    (r.successes ≡ length (filter answered mixed))
    × (r.latency.count ≡ r.successes)
    × (r.failures ≡ 3 - length (filter answered mixed))
    × ((k : FailureKind)
        → (kind_total k r.failure_counts ≡ length (filter (failed_as k) mixed))
          × (kind_rows k r.failure_counts ≡ min 1 (length (filter (failed_as k) mixed))))
    × IsLeast r.ttl (ttls mixed)
aggregate_repeat-counts_example =
    aggregate_repeat-counts naturals reverse (λ m. reverse_perm m) mixed DnsRecordType.a 3

resolve_repeat-rows_example :
    (table : List Bucket) × Perm
      (resolve_repeat naturals reverse rounds DnsRecordType.a)
      (map (λ b. aggregate_repeat naturals reverse b.1 DnsRecordType.a 2) table)
    × Distinct (keys table)
    × ((r : ResolverKind) → bucket_of r table ≡ if_any (filter (by_resolver r) (concat rounds)))
resolve_repeat-rows_example = resolve_repeat-rows naturals reverse rounds DnsRecordType.a
