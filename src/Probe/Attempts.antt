-- ===== src/Probe/Attempts.antt =====
-- src/probe.rs: the report of repeated probes accounts for every attempt.
use mathlib.Core.List.{Perm}
use ip_tools.Base.{
  ℕ, suc, ◌+◌, ◌≡◌, refl, ap, sym, ◌∙◌, List, [], ◌∷◌, map, length, filter, Option, none, some,
  Bool, true, false, not, ◌&&◌, inl, inr, Bool-cases, Option-cases, min, arith, PartialEq, ◌==◌,
  nat_eq, eq_of_beq, beq_refl, if◌then◌else◌, is_some, Float, count_up, sort_by, sort_by-perm,
  weight, weight-Perm, weight-map, length-append,
}
use ip_tools.Net.{SocketAddr}
use ip_tools.Model.{
  FailureKind, kind_eq, FailureCount, StatusCount, ProbeResult, summarize, HttpObservation,
  LatencyStats, push,
}
use ip_tools.Probe.{
  Attempt, Tally, note, note_all, fresh, report, repeat_impl, http_outcome, http_repeat,
  failure_count, status_count, failure_lt, status_lt, count_some,
}
use ip_tools.Probe.Distribution.{
  row, amount, rows-count_up, amount-count_up, rows-count_up_other, amount-count_up_other,
  total-count_up,
}
use ip_tools.Probe.Deterministic.{sum-values-weight}

-- How many attempts the source counts under a key, under any key, and as successes.
abbrev pub is_key {ℓ} : {K : Type ℓ} ⦃e : PartialEq K⦄ → K → Option K → Bool
is_key k none = false
is_key k (some j) = j == k

abbrev pub failed_with : FailureKind → Attempt → Bool
failed_with k a = not a.success && is_key k a.kind

abbrev pub classified : Attempt → Bool
classified a = not a.success && is_some a.kind

abbrev pub answered_with : ℕ → Attempt → Bool
answered_with s a = is_key s a.status

-- The rows of a list of counts that bear a key, and what they add up to.
abbrev pub kind_rows : FailureKind → List FailureCount → ℕ
kind_rows k = weight (λ f. if f.kind == k then 1 else 0)

abbrev pub kind_total : FailureKind → List FailureCount → ℕ
kind_total k = weight (λ f. if f.kind == k then f.count else 0)

abbrev pub status_rows : ℕ → List StatusCount → ℕ
status_rows s = weight (λ c. if c.status == s then 1 else 0)

abbrev pub status_total : ℕ → List StatusCount → ℕ
status_total s = weight (λ c. if c.status == s then c.count else 0)

abbrev pub one_if : Bool → ℕ
one_if true = 1
one_if false = 0

-- A counter map after the optional key of one more attempt.
module _ {ℓ} {K : Type ℓ} ⦃e : PartialEq K⦄ (k : K) (m : List (K × ℕ)) where
  pub amount-count_some :
      (o : Option K)
      → weight (amount k) (count_some count_up o m) ≡ weight (amount k) m + one_if (is_key k o)
  amount-count_some none = omega arith
  amount-count_some (some j) = elim (Bool-cases (j == k)) [
    | inl h ↦ rw (eq_of_beq j k h, beq_refl k) (amount-count_up k m)
    | inr h ↦ rw (h, amount-count_up_other k j h m) (omega arith)
  ]

  pub rows-count_some :
      (o : Option K)
      → weight (row k) m ≡ min 1 (weight (amount k) m)
      → weight (row k) (count_some count_up o m)
        ≡ min 1 (weight (amount k) (count_some count_up o m))
  rows-count_some none h = h
  rows-count_some (some j) h = elim (Bool-cases (j == k)) [
    | inl g ↦ rw (eq_of_beq j k g, rows-count_up k m, amount-count_up k m) (omega arith)
    | inr g ↦ rw (rows-count_up_other k j g m, amount-count_up_other k j g m) h
  ]

total-count_some {ℓ} :
    {K : Type ℓ} ⦃e : PartialEq K⦄ (o : Option K) (m : List (K × ℕ))
    → weight (λ r. r.1) (count_some count_up o m) ≡ weight (λ r. r.1) m + one_if (is_some o)
total-count_some none m = omega arith
total-count_some (some k) m = total-count_up k m

-- What the loop adds to a tally that is begun.
pub record Accounts (t u : Tally) (outcomes : List Attempt) : Type 0 where
  pub successes : u.successes ≡ t.successes + length (filter (λ a. a.success) outcomes)
  pub samples :
      length u.latency.samples
      ≡ length t.latency.samples + length (filter (λ a. a.success) outcomes)
  pub failures :
      weight (λ r. r.1) u.failures
      ≡ weight (λ r. r.1) t.failures + length (filter classified outcomes)
  pub kinds :
      (k : FailureKind)
      → weight (amount k) u.failures
        ≡ weight (amount k) t.failures + length (filter (failed_with k) outcomes)
  pub statuses :
      (s : ℕ)
      → weight (amount s) u.statuses
        ≡ weight (amount s) t.statuses + length (filter (answered_with s) outcomes)

length-map {ℓ κ} :
    {A : Type ℓ} {B : Type κ} (f : A → B) (xs : List A) → length (map f xs) ≡ length xs
length-map f [] = refl
length-map f (x ∷ xs) = ap suc (length-map f xs)

pub length-filter {ℓ} :
    {A : Type ℓ} (p : A → Bool) (x : A) (xs : List A)
    → length (filter p (x ∷ xs)) ≡ one_if (p x) + length (filter p xs)
length-filter p x xs = ground arith

amount-failures :
    (k : FailureKind) (m : List (FailureKind × ℕ)) (ok : Bool) (o : Option FailureKind)
    → weight (amount k) (if ok then m else count_some count_up o m)
      ≡ weight (amount k) m + one_if (not ok && is_key k o)
amount-failures k m true o = omega arith
amount-failures k m false o = amount-count_some k m o

total-failures :
    (m : List (FailureKind × ℕ)) (ok : Bool) (o : Option FailureKind)
    → weight (λ r. r.1) (if ok then m else count_some count_up o m)
      ≡ weight (λ r. r.1) m + one_if (not ok && is_some o)
total-failures m true o = omega arith
total-failures m false o = total-count_some o m

length-samples :
    (s : LatencyStats) (ok : Bool) (ms : ℕ)
    → length (if ok then push s ms else s).samples ≡ length s.samples + one_if ok
length-samples s true ms = length-append s.samples (ms ∷ [])
length-samples s false ms = omega arith

count-successes : (n : ℕ) (ok : Bool) → (if ok then n + 1 else n) ≡ n + one_if ok
count-successes n true = refl
count-successes n false = omega arith

note_all-Accounts :
    (t : Tally) (outcomes : List Attempt) → Accounts t (note_all t outcomes) outcomes
unfolding note_all note
note_all-Accounts t [] = record {
  successes = omega arith;
  samples = omega arith;
  failures = omega arith;
  kinds = λ k. omega arith;
  statuses = λ s. omega arith;
}
note_all-Accounts t (a ∷ rest) =
    let later = note_all-Accounts (note t a) rest in
    record {
      successes = omega (
        arith,
        later.successes,
        count-successes t.successes a.success,
        length-filter (λ a. a.success) a rest,
      );
      samples = omega (
        arith,
        later.samples,
        length-samples t.latency a.success _,
        length-filter (λ a. a.success) a rest,
      );
      failures = omega (
        arith,
        later.failures,
        total-failures t.failures a.success a.kind,
        length-filter classified a rest,
      );
      kinds = λ k. omega (
        arith,
        later.kinds k,
        amount-failures k t.failures a.success a.kind,
        length-filter (failed_with k) a rest,
      );
      statuses = λ s. omega (
        arith,
        later.statuses s,
        amount-count_some s t.statuses a.status,
        length-filter (answered_with s) a rest,
      );
    }

rows-failures :
    (k : FailureKind) (m : List (FailureKind × ℕ)) (ok : Bool) (o : Option FailureKind)
    → weight (row k) m ≡ min 1 (weight (amount k) m)
    → let n = (if ok then m else count_some count_up o m) in
      weight (row k) n ≡ min 1 (weight (amount k) n)
rows-failures k m true o h = h
rows-failures k m false o h = rows-count_some k m o h

rows-note_all :
    (t : Tally) (outcomes : List Attempt) (k : FailureKind)
    → weight (row k) t.failures ≡ min 1 (weight (amount k) t.failures)
    → weight (row k) (note_all t outcomes).failures
      ≡ min 1 (weight (amount k) (note_all t outcomes).failures)
unfolding note_all note
rows-note_all t [] k h = h
rows-note_all t (a ∷ rest) k h =
    rows-note_all (note t a) rest k (rows-failures k t.failures a.success a.kind h)

status_rows-note_all :
    (t : Tally) (outcomes : List Attempt) (s : ℕ)
    → weight (row s) t.statuses ≡ min 1 (weight (amount s) t.statuses)
    → weight (row s) (note_all t outcomes).statuses
      ≡ min 1 (weight (amount s) (note_all t outcomes).statuses)
unfolding note_all note
status_rows-note_all t [] s h = h
status_rows-note_all t (a ∷ rest) s h =
    status_rows-note_all (note t a) rest s (rows-count_some s t.statuses a.status h)

-- A weight of the sorted rows is that of the map's entries, in whatever order these came.
pub weight-sorted {ℓ κ} :
    {A : Type ℓ} {B : Type κ} (lt : B → B → Bool) (w : B → ℕ) (f : A → B) {visited m : List A}
    → Perm visited m
    → weight w (sort_by lt (map f visited)) ≡ weight (λ a. w (f a)) m
weight-sorted lt w f {visited} p =
    weight-Perm w (sort_by-perm lt (map f visited)) ∙ weight-map w f visited ∙ weight-Perm _ p

pub from_zero : (n : ℕ) → 0 + n ≡ n
from_zero n = omega arith

module _ (fl : Float) (kinds_of : List (FailureKind × ℕ) → List (FailureKind × ℕ))
    (statuses_of : List (ℕ × ℕ) → List (ℕ × ℕ))
    (visits_kinds : (m : List (FailureKind × ℕ)) → Perm (kinds_of m) m)
    (visits_statuses : (m : List (ℕ × ℕ)) → Perm (statuses_of m) m) (destination : SocketAddr)
    (outcomes : List Attempt) where
  abbrev probed : ProbeResult fl.F
  probed = repeat_impl fl kinds_of statuses_of destination outcomes

  -- Where the two hash maps are visited in any order, the report counts the attempts: `successes`
  -- and the number of latency samples are the attempts that succeeded, `failures` is the failed
  -- attempts that have a failure kind, every kind and every status has one row if some attempt
  -- counts for it and else none, and its row counts exactly these attempts.
  pub repeat_impl-counts :
      (probed.successes ≡ length (filter (λ a. a.success) outcomes))
      × (probed.latency.count ≡ probed.successes)
      × (probed.failures ≡ length (filter classified outcomes))
      × ((k : FailureKind)
          → (kind_total k probed.failure_counts ≡ length (filter (failed_with k) outcomes))
            × (kind_rows k probed.failure_counts
                ≡ min 1 (length (filter (failed_with k) outcomes))))
      × ((s : ℕ)
          → (status_total s probed.status_counts ≡ length (filter (answered_with s) outcomes))
            × (status_rows s probed.status_counts
                ≡ min 1 (length (filter (answered_with s) outcomes))))
  unfolding repeat_impl report summarize weight
  repeat_impl-counts =
      let t = note_all fresh outcomes in
      let all = note_all-Accounts fresh outcomes in
      let vk = visits_kinds t.failures in
      let vs = visits_statuses t.statuses in
      (
        all.successes ∙ from_zero _,
        all.samples ∙ sym all.successes,
        sum-values-weight (kinds_of t.failures) ∙ weight-Perm _ vk ∙ all.failures ∙ from_zero _,
        λ k. (
          weight-sorted failure_lt _ failure_count vk ∙ all.kinds k ∙ from_zero _,
          weight-sorted failure_lt _ failure_count vk
              ∙ rows-note_all fresh outcomes k (omega arith)
              ∙ ap (min 1) (all.kinds k ∙ from_zero _),
        ),
        λ s. (
          weight-sorted status_lt _ status_count vs ∙ all.statuses s ∙ from_zero _,
          weight-sorted status_lt _ status_count vs
              ∙ status_rows-note_all fresh outcomes s (omega arith)
              ∙ ap (min 1) (all.statuses s ∙ from_zero _),
        ),
      )

-- An HTTP attempt succeeds when the response came and its body ended.
abbrev pub completed : HttpObservation → Bool
completed obs = not (is_some obs.failure) && is_some obs.body_bytes

http_outcome-cases :
    (obs : HttpObservation)
    → ((http_outcome obs).success ≡ completed obs)
      × (classified (http_outcome obs) ≡ not (completed obs))
unfolding http_outcome
http_outcome-cases obs = elim (Option-cases obs.failure) [
  | inr (e, h) ↦ rw h (refl, refl)
  | inl h ↦ elim (Option-cases obs.body_bytes) [
    | inl g ↦ rw (h, g) (refl, refl)
    | inr (n, g) ↦ rw (h, g) (refl, refl)
  ]
]

length-completed :
    (obs : List HttpObservation)
    → (length (filter (λ a. a.success) (map http_outcome obs)) ≡ length (filter completed obs))
      × (length (filter (λ a. a.success) (map http_outcome obs))
            + length (filter classified (map http_outcome obs))
          ≡ length obs)
length-completed [] = (refl, refl)
length-completed (o ∷ obs) = ground (arith, http_outcome-cases o, length-completed obs)

-- An HTTP, HTTP/2 or HTTP/3 run leaves no attempt out, whatever the probes observe: an attempt is
-- a success exactly if it has no failure and its body ended, and every other one is a failure with
-- a kind.
pub http_repeat-counts :
    (fl : Float) (kinds_of : List (FailureKind × ℕ) → List (FailureKind × ℕ))
    (statuses_of : List (ℕ × ℕ) → List (ℕ × ℕ))
    (visits_kinds : (m : List (FailureKind × ℕ)) → Perm (kinds_of m) m)
    (visits_statuses : (m : List (ℕ × ℕ)) → Perm (statuses_of m) m) (destination : SocketAddr)
    (obs : List HttpObservation)
    → let r = http_repeat fl kinds_of statuses_of destination obs in
      (r.successes ≡ length (filter completed obs)) × (r.successes + r.failures ≡ r.attempts)
unfolding http_repeat
http_repeat-counts fl kinds_of statuses_of vk vs destination obs =
    let (successes, all) = length-completed obs in
    let (hs, hl, hf, hk, hc) =
      repeat_impl-counts fl kinds_of statuses_of vk vs destination (map http_outcome obs) in
    (hs ∙ successes, omega (arith, hs, hf, all, length-map http_outcome obs))
