-- ===== src/Model/Examples.antt =====
-- Percentiles of a few samples.
use ip_tools.Base.{ℕ, ◌*◌, ◌≤◌, ◌<◌, ◌≡◌, refl, List, [], ◌∷◌, some, length, arith}
use ip_tools.Model.Latency.{p50, p95, sort_unstable, percentile}
use ip_tools.Model.Latency.Order.{count_le, count_lt}
use ip_tools.Model.Latency.Rank.{percentile_rank}

abbrev samples : List ℕ
samples = 30 ∷ 10 ∷ 20 ∷ []

percentile_rank_example :
    (v : ℕ) × (percentile (sort_unstable samples) p50 ≡ some v)
    × (50 * length samples ≤ 100 * count_le v samples)
    × (100 * count_lt v samples < 50 * length samples)
percentile_rank_example = percentile_rank samples p50 (omega arith) (omega arith)

median : percentile (sort_unstable samples) p50 ≡ some 20
unfolding percentile sort_unstable
median = refl

tail : percentile (sort_unstable samples) p95 ≡ some 30
unfolding percentile sort_unstable
tail = refl
