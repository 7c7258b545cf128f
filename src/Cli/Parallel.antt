-- ===== src/Cli/Parallel.antt =====
-- src/cli/mod.rs: `parallel_map_with_limit`, which runs a task for each item under a semaphore. The
-- runtime chooses which task ends next: a run is a sequence of steps. A result stands in `out` once
-- its task has ended, in which order `JoinSet::join_next` gives the results.
pub mod Finishes
mod Examples
use ip_tools.Base.{ℕ, suc, ◌+◌, ◌*◌, ◌≡◌, min, max, Option, none, some, List, [], ◌∷◌, ◌++◌, length}

abbrev pub max_concurrency : ℕ
max_concurrency = 256

-- `shared_semaphore`: the permits, `concurrency.clamp(1, MAX_CONCURRENCY)`.
unfoldable pub shared_semaphore : ℕ → ℕ
shared_semaphore concurrency = min (max concurrency 1) max_concurrency

pub record Pool {ℓ κ} (I : Type ℓ) (T : Type κ) : Type (ℓ ⊔ κ) where
  pub waiting : List I
  pub running : List I
  pub permits : ℕ
  pub out : List T

-- `out.push(value)`; a task that panicked has no value, and is dropped.
abbrev pub push_value {κ} : {T : Type κ} → List T → Option T → List T
push_value out none = out
push_value out (some value) = out ++ (value ∷ [])

module _ {ℓ κ} {I : Type ℓ} {T : Type κ} (f : I → Option T) where
  unfoldable pub started : List I → ℕ → Pool I T
  unfolding shared_semaphore
  started items concurrency = record {
    waiting = items;
    running = [];
    permits = shared_semaphore concurrency;
    out = [];
  }

  -- The loop takes a permit and spawns a task; a task ends and drops its permit.
  pub data Step : Pool I T → Pool I T → Type (ℓ ⊔ κ) where
    spawn :
        (s : Pool I T) (i : I) (rest : List I) (p : ℕ)
        → s.waiting ≡ i ∷ rest
        → s.permits ≡ p + 1
        → Step s (record s { waiting = rest; running = i ∷ s.running; permits = p })
    finish :
        (s : Pool I T) (before after : List I) (i : I)
        → s.running ≡ before ++ (i ∷ after)
        → Step s (record s {
          running = before ++ after;
          permits = s.permits + 1;
          out = push_value s.out (f i);
        })

  -- A run, with the number of its steps.
  pub data Run (s : Pool I T) : ℕ → Pool I T → Type (ℓ ⊔ κ) where
    here : Run s 0 s
    next : {n : ℕ} {t u : Pool I T} → Run s n t → Step t u → Run s (suc n) u
