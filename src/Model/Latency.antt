-- ===== src/Model/Latency.antt =====
-- src/model/latency.rs: latency distributions over the successful attempts, in milliseconds.
pub mod Order
pub mod Rank
use ip_tools.Base.{
  ℕ, ◌+◌, ◌-◌, ◌*◌, ◌/◌, ◌%◌, ◌^◌, min, Option, none, some, List, [], ◌∷◌, ◌++◌, ◌==◌, nat_eq, leb,
  ltb, if◌then◌else◌, length, get_elem?, first, last, map, Float,
}

pub record LatencyStats : Type 0 where
  pub samples : List ℕ

abbrev pub empty_stats : LatencyStats
empty_stats = record { samples = [] }

-- `LatencyStats::push`.
abbrev pub push : LatencyStats → ℕ → LatencyStats
push s ms = record { samples = s.samples ++ (ms ∷ []) }

pub record LatencySummary : Type 0 where
  pub count : ℕ
  pub min : Option ℕ
  pub p50 : Option ℕ
  pub p90 : Option ℕ
  pub p95 : Option ℕ
  pub p99 : Option ℕ
  pub max : Option ℕ
  pub mean : Option ℕ
  pub jitter : Option ℕ
  pub samples : List ℕ

-- `sort_unstable` on numbers: equal numbers cannot be told apart, so the result is the one
-- ascending arrangement.
pub insert_sorted : ℕ → List ℕ → List ℕ
insert_sorted x [] = x ∷ []
insert_sorted x (y ∷ ys) = if leb x y then x ∷ y ∷ ys else y ∷ insert_sorted x ys

unfoldable pub sort_unstable : List ℕ → List ℕ
unfolding insert_sorted
sort_unstable [] = []
sort_unstable (x ∷ xs) = insert_sorted x (sort_unstable xs)

-- The percentages with which `percentile` is called: the `f64` literals 50.0, 90.0, 95.0 and 99.0.
pub data Percent : Type 0 where
  p50 : Percent
  p90 : Percent
  p95 : Percent
  p99 : Percent

abbrev pub percent : Percent → ℕ
percent p50 = 50
percent p90 = 90
percent p95 = 95
percent p99 = 99

-- `((p / 100.0) * n as f64).ceil()`. At these percentages and for `n` below 2 ^ 45 the `f64` product,
-- rounded up, is `⌈p · n / 100⌉`: each quotient `p / 100.0` is off by less than 2 ^ -54 of itself, so
-- that a whole product is met exactly, and another is 1 / 100 at least from a whole number.
unfoldable pub nearest_rank : Percent → ℕ → ℕ
nearest_rank p n = (percent p * n + 99) / 100

-- `LatencySummary::percentile`; each percentage is in its range.
unfoldable pub percentile : List ℕ → Percent → Option ℕ
unfolding nearest_rank
percentile sorted p =
    let n = length sorted in
    if n == 0 then none else get_elem? sorted (Prim.Native.Nat.min (nearest_rank p n - 1) (n - 1))

-- The sum in `u128`.
unfoldable pub sum : List ℕ → ℕ
sum [] = 0
sum (x ∷ xs) = x + sum xs

-- `mean`: the quotient in `u128`, then `as u64`.
unfoldable pub mean_of : List ℕ → Option ℕ
unfolding sum
mean_of samples = let n = length samples in if n == 0 then none else some (sum samples / n % 2 ^ 64)

module _ (fl : Float) where
  open fl use {F, zero_f, of_ℕ, add_f, sub_f, mul_f, div_f, sqrt_f, to_u64}

  unfoldable pub sum_f : F → List F → F
  sum_f acc [] = acc
  sum_f acc (x ∷ xs) = sum_f (add_f acc x) xs

  -- `jitter`: the standard deviation about the exact mean.
  unfoldable pub jitter_of : List ℕ → Option ℕ
  unfolding sum_f
  jitter_of samples =
      let n = length samples in
      let mean_f = div_f (sum_f zero_f (map of_ℕ samples)) (of_ℕ n) in
      let square = λ (s : ℕ). mul_f (sub_f (of_ℕ s) mean_f) (sub_f (of_ℕ s) mean_f) in
      let variance = div_f (sum_f zero_f (map square samples)) (of_ℕ n) in
      if n == 0 then none else some (to_u64 (sqrt_f variance))

  -- `LatencyStats::summarize`, `From<&LatencyStats> for LatencySummary`.
  unfoldable pub summarize : LatencyStats → LatencySummary
  summarize stats =
      let sorted = sort_unstable stats.samples in
      record {
        count = length stats.samples;
        min = first sorted;
        p50 = percentile sorted Percent.p50;
        p90 = percentile sorted Percent.p90;
        p95 = percentile sorted Percent.p95;
        p99 = percentile sorted Percent.p99;
        max = last sorted;
        mean = mean_of stats.samples;
        jitter = jitter_of stats.samples;
        samples = stats.samples;
      }
