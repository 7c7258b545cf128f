-- ===== src/Probe/Deterministic.antt =====
-- src/probe.rs, `repeat_impl`: the report does not depend on the iteration order of its hash maps.
use mathlib.Core.List.{Perm}
use ip_tools.Base.{
  ℕ, ◌+◌, ◌≡◌, refl, ap, sym, ◌∙◌, List, [], ◌∷◌, map, Bool, true, ◌&&◌, ◌↔◌, arith, PartialEq,
  ◌==◌, nat_eq, Float, values, sort_by-Perm, IsLinear, frequent_first-IsLinear, weight, weight-Perm,
  map-Perm, IsSorted, sort_by-IsSorted,
}
use ip_tools.Net.{SocketAddr}
use ip_tools.Model.{
  FailureKind, kind_index, kind_index-injective, kind_eq, kind_beq_iff, FailureCount, StatusCount,
  sum,
}
use ip_tools.Probe.{
  Attempt, failure_lt, status_lt, failure_count, status_count, report, repeat_impl, fresh, note_all,
}

pub failure_beq : FailureCount → FailureCount → Bool
failure_beq f g = f.kind == g.kind && f.count == g.count

pub failure_beq_iff : (f g : FailureCount) → (failure_beq f g ≡ true) ↔ (f ≡ g)
unfolding failure_beq
failure_beq_iff f g = ground (arith, kind_beq_iff f.kind g.kind)

instance abbrev pub failure_eq : PartialEq FailureCount
failure_eq = record { beq = failure_beq; beq_iff = failure_beq_iff }

pub status_beq : StatusCount → StatusCount → Bool
status_beq s t = s.status == t.status && s.count == t.count

pub status_beq_iff : (s t : StatusCount) → (status_beq s t ≡ true) ↔ (s ≡ t)
unfolding status_beq
status_beq_iff s t = ground arith

instance abbrev pub status_eq : PartialEq StatusCount
status_eq = record { beq = status_beq; beq_iff = status_beq_iff }

failure_ext : (f g : FailureCount) → f.kind ≡ g.kind → f.count ≡ g.count → f ≡ g
failure_ext f g h k = λ i. record { kind = h i; count = k i }

status_ext : (s t : StatusCount) → s.status ≡ t.status → s.count ≡ t.count → s ≡ t
status_ext s t h k = λ i. record { status = h i; count = k i }

pub failure_lt-IsLinear : IsLinear failure_lt
failure_lt-IsLinear =
    frequent_first-IsLinear (λ (f : FailureCount). f.count)
      (λ (f : FailureCount). kind_index f.kind)
      (λ f g h k. failure_ext f g (kind_index-injective f.kind g.kind k) h)

pub status_lt-IsLinear : IsLinear status_lt
status_lt-IsLinear =
    frequent_first-IsLinear (λ (s : StatusCount). s.count) (λ (s : StatusCount). s.status)
      (λ s t h k. status_ext s t k h)

pub sum-values-weight {ℓ} : {K : Type ℓ} (m : List (K × ℕ)) → sum (values m) ≡ weight (λ e. e.1) m
unfolding sum weight
sum-values-weight [] = refl
sum-values-weight (e ∷ m) = ap (λ n. e.1 + n) (sum-values-weight m)

pub sum-values-Perm {ℓ} :
    {K : Type ℓ} (m n : List (K × ℕ)) → Perm m n → sum (values m) ≡ sum (values n)
sum-values-Perm m n p = sum-values-weight m ∙ weight-Perm (λ e. e.1) p ∙ sym (sum-values-weight n)

-- Two processes, whose hash maps are visited in the orders of `kinds_of` and `statuses_of`, and of
-- `kinds_of'` and `statuses_of'`, print the same report for the same outcomes, the two lists of
-- counts included.
pub repeat_impl-order :
    (fl : Float) (kinds_of kinds_of' : List (FailureKind × ℕ) → List (FailureKind × ℕ))
    (statuses_of statuses_of' : List (ℕ × ℕ) → List (ℕ × ℕ))
    → ((m : List (FailureKind × ℕ)) → Perm (kinds_of m) (kinds_of' m))
    → ((m : List (ℕ × ℕ)) → Perm (statuses_of m) (statuses_of' m))
    → (destination : SocketAddr) (outcomes : List Attempt)
    → repeat_impl fl kinds_of statuses_of destination outcomes
      ≡ repeat_impl fl kinds_of' statuses_of' destination outcomes
unfolding repeat_impl report
repeat_impl-order fl kinds_of kinds_of' statuses_of statuses_of' hk hs destination outcomes =
    let t = note_all fresh outcomes in
    rw
      (
        sum-values-Perm (kinds_of t.failures) (kinds_of' t.failures) (hk t.failures),
        sort_by-Perm failure_lt failure_lt-IsLinear (map-Perm failure_count (hk t.failures)),
        sort_by-Perm status_lt status_lt-IsLinear (map-Perm status_count (hs t.statuses)),
      )
      refl

-- The rows of both lists of counts stand the most frequent first, and among equal counts in the
-- order of the failure kinds' declaration, or of the statuses.
pub repeat_impl-IsSorted :
    (fl : Float) (kinds_of : List (FailureKind × ℕ) → List (FailureKind × ℕ))
    (statuses_of : List (ℕ × ℕ) → List (ℕ × ℕ)) (destination : SocketAddr) (outcomes : List Attempt)
    → let r = repeat_impl fl kinds_of statuses_of destination outcomes in
      IsSorted failure_lt r.failure_counts × IsSorted status_lt r.status_counts
unfolding repeat_impl report
repeat_impl-IsSorted fl kinds_of statuses_of destination outcomes =
    let t = note_all fresh outcomes in
    (
      sort_by-IsSorted failure_lt failure_lt-IsLinear.asymmetric
          (map failure_count (kinds_of t.failures)),
      sort_by-IsSorted status_lt status_lt-IsLinear.asymmetric
          (map status_count (statuses_of t.statuses)),
    )
