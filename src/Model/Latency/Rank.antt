-- ===== src/Model/Latency/Rank.antt =====
-- What `LatencySummary::percentile` and `summarize` report of the samples.
use ip_tools.Base.{
  ℕ, zero, suc, ◌+◌, ◌-◌, ◌*◌, ◌/◌, ◌≤◌, ◌<◌, ◌^◌, min, ◌≡◌, refl, sym, ◌∙◌, List, [], ◌∷◌, some,
  length, get_elem?, nat_eq, arith,
}
use native.Mathlib.Nat.{mul-le-mul_right}
use ip_tools.Model.Latency.{
  Percent, p50, p90, p95, p99, percent, sort_unstable, nearest_rank, percentile,
}
use ip_tools.Model.Latency.Order.{
  count_le, count_lt, sort_unstable-IsSorted, count_le-sort_unstable, count_lt-sort_unstable,
  length-sort_unstable, get_elem?-count_le, get_elem?-count_lt, get_elem?-le,
}

lt-get_elem? : (xs : List ℕ) (i : ℕ) → i < length xs → (v : ℕ) × (get_elem? xs i ≡ some v)
lt-get_elem? [] i h = absurd (omega arith)
lt-get_elem? (x ∷ xs) zero h = (x, refl)
lt-get_elem? (x ∷ xs) (suc i) h = lt-get_elem? xs i (omega arith)

percent-bounds : (p : Percent) → (0 < percent p) × (percent p ≤ 100)
percent-bounds p50 = (omega arith, omega arith)
percent-bounds p90 = (omega arith, omega arith)
percent-bounds p95 = (omega arith, omega arith)
percent-bounds p99 = (omega arith, omega arith)

-- The position that `percentile` reads.
abbrev position : ℕ → ℕ → ℕ
position p n = min ((p * n + 99) / 100 - 1) (n - 1)

percentile_lem :
    (xs : List ℕ) (p : Percent) (n : ℕ)
    → length xs ≡ n
    → 0 < n
    → percentile xs p ≡ get_elem? xs (position (percent p) n)
unfolding percentile nearest_rank
percentile_lem xs p n e h = rw (← e) (ground (arith, e, h))

-- The bounds in numbers: `n` samples, `up` of them at most the value, `down` below it.
rank_bounds :
    (p n up down : ℕ)
    → 0 < n
    → 0 < p
    → p ≤ 100
    → position p n < up
    → down ≤ position p n
    → (p * n ≤ 100 * up) × (100 * down < p * n)
rank_bounds p n up down some_sample some_p at_most h k =
    let le : p * n ≤ 100 * n = mul-le-mul_right n at_most in
    let one : 1 * n ≤ p * n = mul-le-mul_right n some_p in (omega arith, omega arith)

-- At the percentages that a summary has, of at least one sample and fewer than 2 ^ 45, `percentile`
-- of the sorted samples gives the nearest rank: at least that percentage of the samples are at most
-- the value, and a smaller percentage of them are below it.
pub percentile_rank :
    (samples : List ℕ) (p : Percent)
    → 0 < length samples
    → length samples < 2 ^ 45
    → (v : ℕ) × (percentile (sort_unstable samples) p ≡ some v)
      × (percent p * length samples ≤ 100 * count_le v samples)
      × (100 * count_lt v samples < percent p * length samples)
percentile_rank samples p some_sample at_most_2_45 =
    let (some_p, at_most) = percent-bounds p in
    let sorted = sort_unstable samples in
    let pos = position (percent p) (length samples) in
    let len : length sorted ≡ length samples = length-sort_unstable samples in
    let (v, e) = lt-get_elem? sorted pos (omega (arith, len)) in
    let up = get_elem?-count_le sorted pos v (sort_unstable-IsSorted samples) e in
    let down = get_elem?-count_lt sorted pos v (sort_unstable-IsSorted samples) e in
    let (most, fewer) =
      rank_bounds (percent p) (length samples) (count_le v samples) (count_lt v samples) some_sample
        some_p at_most (omega (arith, up, count_le-sort_unstable v samples))
        (omega (arith, down, count_lt-sort_unstable v samples)) in
    (v, percentile_lem sorted p (length samples) len some_sample ∙ e, most, fewer)

-- `percentile` does not fall as the percentage grows.
pub percentile_monotone :
    (samples : List ℕ) (p q : Percent) (v w : ℕ)
    → 0 < length samples
    → percent p ≤ percent q
    → percentile (sort_unstable samples) p ≡ some v
    → percentile (sort_unstable samples) q ≡ some w
    → v ≤ w
percentile_monotone samples p q v w some_sample le e k =
    let sorted = sort_unstable samples in
    let len : length sorted ≡ length samples = length-sort_unstable samples in
    let n = length samples in
    let grow : percent p * n ≤ percent q * n = mul-le-mul_right n le in
    get_elem?-le sorted (position (percent p) n) (position (percent q) n) v w
      (sort_unstable-IsSorted samples) (omega arith)
      (sym (percentile_lem sorted p n len some_sample) ∙ e)
      (sym (percentile_lem sorted q n len some_sample) ∙ k)
