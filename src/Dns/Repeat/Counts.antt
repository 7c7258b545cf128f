-- ===== src/Dns/Repeat/Counts.antt =====
-- src/dns.rs, `aggregate_repeat`: the row of a resolver counts its queries.
use mathlib.Core.List.{Perm}
use ip_tools.Base.{
  ℕ, ◌+◌, ◌-◌, ◌≤◌, ◌≡◌, refl, ap, sym, ◌∙◌, List, [], ◌∷◌, ◌++◌, append-nil, append_assoc, length,
  filter, Option, none, some, Bool, true, not, ◌&&◌, min, arith, Bool-cases, inl, inr, leb, nat_eq,
  beq_refl, is_some, Float, weight, All, contains, contains-append, length-append,
}
use ip_tools.Model.{FailureKind, kind_eq, DnsRecordType, DnsObservation, ProbeError, summarize}
use ip_tools.Probe.{failure_count, failure_lt}
use ip_tools.Probe.Distribution.{row, amount}
use ip_tools.Probe.Attempts.{
  is_key, kind_rows, kind_total, from_zero, one_if, length-filter, weight-sorted, amount-count_some,
  rows-count_some,
}
use ip_tools.Dns.Repeat.{
  RepeatTally, no_repeat, note_query, note_queries, lower_ttl, note_answer, aggregate_repeat,
}

abbrev pub answered : DnsObservation → Bool
answered o = is_some o.latency_ms

abbrev pub kind_of_error : Option ProbeError → Option FailureKind
kind_of_error none = none
kind_of_error (some e) = some e.kind

abbrev pub failed_as : FailureKind → DnsObservation → Bool
failed_as k o = not (answered o) && is_key k (kind_of_error o.error)

abbrev pub ttl_list : Option ℕ → List ℕ
ttl_list none = []
ttl_list (some t) = t ∷ []

abbrev pub ttls : List DnsObservation → List ℕ
ttls [] = []
ttls (o ∷ rest) = ttl_list o.ttl ++ ttls rest

-- The least of some numbers, if there are any.
abbrev pub IsLeast : Option ℕ → List ℕ → Type 0
IsLeast none ts = ts ≡ []
IsLeast (some m) ts = (contains ts m ≡ true) × All (λ t. m ≤ t) ts

All-weaken_append :
    (m n t : ℕ) (ts : List ℕ)
    → n ≤ m
    → n ≤ t
    → All (λ x. m ≤ x) ts
    → All (λ x. n ≤ x) (ts ++ (t ∷ []))
All-weaken_append m n t [] h k a = (k, tt)
All-weaken_append m n t (x ∷ ts) h k (a, rest) = (omega arith, All-weaken_append m n t ts h k rest)

lower_ttl-IsLeast :
    (o m : Option ℕ) (seen : List ℕ) → IsLeast m seen → IsLeast (lower_ttl m o) (seen ++ ttl_list o)
unfolding contains
lower_ttl-IsLeast none m seen h = rw (append-nil seen) h
lower_ttl-IsLeast (some t) none seen h = rw h (ground (arith, beq_refl t), (omega arith, tt))
lower_ttl-IsLeast (some t) (some m) seen (c, a) = (
  elim (Bool-cases (leb m t)) [
    | inl h ↦
        let e : min m t ≡ m = ground (arith, h) in rw (e, contains-append seen (t ∷ []) m, c) refl
    | inr h ↦
        let e : min m t ≡ t = ground (arith, h) in
        rw (e, contains-append seen (t ∷ []) t) (ground (arith, beq_refl t))
  ],
  All-weaken_append m (min m t) t seen (omega arith) (omega arith) a,
)

-- What the loop adds to a tally that is begun, behind answers whose times to live are `seen`.
pub record Counts (t u : RepeatTally) (seen : List ℕ) (bucket : List DnsObservation) : Type 0 where
  pub successes : u.successes ≡ t.successes + length (filter answered bucket)
  pub samples :
      length u.latency.samples ≡ length t.latency.samples + length (filter answered bucket)
  pub kinds :
      (k : FailureKind)
      → weight (amount k) u.failures
        ≡ weight (amount k) t.failures + length (filter (failed_as k) bucket)
  pub rows :
      (k : FailureKind)
      → weight (row k) t.failures ≡ min 1 (weight (amount k) t.failures)
      → weight (row k) u.failures ≡ min 1 (weight (amount k) u.failures)
  pub least : IsLeast t.min_ttl seen → IsLeast u.min_ttl (seen ++ ttls bucket)

note_answer-Counts :
    (t : RepeatTally) (ms : Option ℕ) (error : Option ProbeError)
    → let u = note_answer t ms error in
      (u.min_ttl ≡ t.min_ttl)
      × (u.successes ≡ t.successes + one_if (is_some ms))
      × (length u.latency.samples ≡ length t.latency.samples + one_if (is_some ms))
      × ((k : FailureKind)
          → (weight (amount k) u.failures
              ≡ weight (amount k) t.failures
                + one_if (not (is_some ms) && is_key k (kind_of_error error)))
            × (weight (row k) t.failures ≡ min 1 (weight (amount k) t.failures)
                → weight (row k) u.failures ≡ min 1 (weight (amount k) u.failures)))
note_answer-Counts t (some ms) error =
    (refl, refl, length-append t.latency.samples (ms ∷ []), λ k. (omega arith, λ h. h))
note_answer-Counts t none (some e) = (
  refl,
  omega arith,
  omega arith,
  λ k. (amount-count_some k t.failures (some e.kind), rows-count_some k t.failures (some e.kind)),
)
note_answer-Counts t none none = (refl, omega arith, omega arith, λ k. (omega arith, λ h. h))

note_queries-Counts :
    (t : RepeatTally) (seen : List ℕ) (bucket : List DnsObservation)
    → Counts t (note_queries t bucket) seen bucket
unfolding note_queries note_query
note_queries-Counts t seen [] = record {
  successes = omega arith;
  samples = omega arith;
  kinds = λ k. omega arith;
  rows = λ k h. h;
  least = λ h. rw (append-nil seen) h;
}
note_queries-Counts t seen (o ∷ rest) =
    let begun : RepeatTally = record t { min_ttl = lower_ttl t.min_ttl o.ttl } in
    let (ttl, n, samples, kinds) = note_answer-Counts begun o.latency_ms o.error in
    let later = note_queries-Counts (note_query t o) (seen ++ ttl_list o.ttl) rest in
    record {
      successes = omega (arith, later.successes, n, length-filter answered o rest);
      samples = omega (arith, later.samples, samples, length-filter answered o rest);
      kinds = λ k. omega (arith, later.kinds k, (kinds k).0, length-filter (failed_as k) o rest);
      rows = λ k h. later.rows k ((kinds k).1 h);
      least = λ h.
          rw (sym (append_assoc seen (ttl_list o.ttl) (ttls rest)))
            (later.least (rw ttl (lower_ttl-IsLeast o.ttl t.min_ttl seen h)));
    }

-- Where the hash map is visited in any order, the row of a bucket counts its queries: the answered
-- ones are the successes and the latency samples, and of the attempts the others are the failures;
-- every failure kind has one row if some query failed with it and else none, which counts exactly
-- these queries; and `ttl` is the least time to live of the bucket, or none if it has none.
pub aggregate_repeat-counts :
    (fl : Float) (kinds_of : List (FailureKind × ℕ) → List (FailureKind × ℕ))
    (visits_kinds : (m : List (FailureKind × ℕ)) → Perm (kinds_of m) m)
    (bucket : List DnsObservation) (record_type : DnsRecordType) (attempts : ℕ)
    → let r = aggregate_repeat fl kinds_of bucket record_type attempts in
      (r.successes ≡ length (filter answered bucket))
      × (r.latency.count ≡ r.successes)
      × (r.failures ≡ attempts - length (filter answered bucket))
      × ((k : FailureKind)
          → (kind_total k r.failure_counts ≡ length (filter (failed_as k) bucket))
            × (kind_rows k r.failure_counts ≡ min 1 (length (filter (failed_as k) bucket))))
      × IsLeast r.ttl (ttls bucket)
unfolding aggregate_repeat summarize weight
aggregate_repeat-counts fl kinds_of visits_kinds bucket record_type attempts =
    let t = note_queries no_repeat bucket in
    let all = note_queries-Counts no_repeat [] bucket in
    let vk = visits_kinds t.failures in
    (
      all.successes ∙ from_zero _,
      all.samples ∙ sym all.successes,
      ap (λ n. attempts - n) (all.successes ∙ from_zero _),
      λ k. (
        weight-sorted failure_lt _ failure_count vk ∙ all.kinds k ∙ from_zero _,
        weight-sorted failure_lt _ failure_count vk
            ∙ all.rows k (omega arith)
            ∙ ap (min 1) (all.kinds k ∙ from_zero _),
      ),
      all.least refl,
    )
