-- ===== src/Cli/Parallel/Examples.antt =====
-- src/cli/mod.rs, `parallel_map_with_limit`, at two items and one permit: the second waits for the
-- first, whose task panics.
use ip_tools.Base.{
  ℕ, ◌*◌, ◌≤◌, ◌≡◌, ◌⊎◌, refl, max, Option, none, some, List, [], ◌∷◌, length, filter_map,
  if◌then◌else◌, ltb,
}
use mathlib.Core.List.{Perm}
use ip_tools.Cli.Parallel.{Pool, Step, spawn, finish, Run, here, next, started, shared_semaphore}
use ip_tools.Cli.Parallel.Finishes.{IsDone, parallel_map-finishes}

abbrev probe_above : ℕ → Option ℕ
probe_above i = if ltb 2 i then some (10 * i) else none

abbrev two_items : List ℕ
two_items = 2 ∷ 3 ∷ []

abbrev ended_all : Pool ℕ ℕ
ended_all = record { waiting = []; running = []; permits = 1; out = 30 ∷ [] }

whole_run : Run probe_above (started probe_above two_items 0) 4 ended_all
unfolding started shared_semaphore
whole_run =
    next
      (next (next (next here (spawn _ 2 (3 ∷ []) 0 refl refl)) (finish _ [] [] 2 refl))
        (spawn _ 3 [] 0 refl refl))
      (finish _ [] [] 3 refl)

parallel_map-finishes_example :
    (length ended_all.running ≤ max 0 1)
    × (length ended_all.running ≤ 256)
    × (4 ≤ 2 * length two_items)
    × ((IsDone ended_all
          × (4 ≡ 2 * length two_items)
          × ((ended : List ℕ) × (ended_all.out ≡ filter_map probe_above ended)
              × Perm ended two_items))
        ⊎ ((t : Pool ℕ ℕ) × Step probe_above ended_all t))
parallel_map-finishes_example = parallel_map-finishes probe_above two_items 0 4 ended_all whole_run
