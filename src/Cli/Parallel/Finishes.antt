-- ===== src/Cli/Parallel/Finishes.antt =====
-- src/cli/mod.rs, `parallel_map_with_limit`: the tasks that run are bounded, and every run ends with
-- the result of each item.
use mathlib.Core.List.{Perm, perm_middle}
use mathlib.Core.List.Perm
use ip_tools.Base.{
  ℕ, zero, suc, ◌+◌, ◌*◌, ◌≤◌, ◌≡◌, ◌⊎◌, inl, inr, refl, sym, ap, ◌∙◌, max, Option, none, some,
  List, [], ◌∷◌, ◌++◌, append_assoc, append-nil, length, length-append, filter_map, push_some,
  arith,
}
use ip_tools.Cli.Parallel.{
  Pool, shared_semaphore, push_value, started, Step, spawn, finish, Run, here, next,
}

abbrev pub IsDone {ℓ κ} : {I : Type ℓ} {T : Type κ} → Pool I T → Type 0
IsDone s = (length s.waiting ≡ 0) × (length s.running ≡ 0)

-- The steps that are left.
abbrev pub steps_left {ℓ κ} : {I : Type ℓ} {T : Type κ} → Pool I T → ℕ
steps_left s = 2 * length s.waiting + length s.running

module _ {ℓ κ} {I : Type ℓ} {T : Type κ} (f : I → Option T) where
  push_some-push_value :
      (o p : Option T) (ts : List T)
      → push_some f o (push_value ts p) ≡ push_value (push_some f o ts) p
  push_some-push_value none p ts = refl
  push_some-push_value (some t) none ts = refl
  push_some-push_value (some t) (some u) ts = refl

  push_some-nil : (o : Option T) → push_some f o [] ≡ push_value [] o
  push_some-nil none = refl
  push_some-nil (some t) = refl

  filter_map-value :
      (is : List I) (i : I) → filter_map f (is ++ (i ∷ [])) ≡ push_value (filter_map f is) (f i)
  filter_map-value [] i = push_some-nil (f i)
  filter_map-value (j ∷ is) i =
      ap (push_some f (f j)) (filter_map-value is i)
      ∙ push_some-push_value (f j) (f i) (filter_map f is)

  -- Every permit is there or with a running task, and the results are those of the tasks that ended,
  -- in that order; no item is lost.
  abbrev pub IsSound : List I → ℕ → Pool I T → Type (ℓ ⊔ κ)
  IsSound items limit s =
      (s.permits + length s.running ≡ limit)
      × ((ended : List I) × (s.out ≡ filter_map f ended)
          × Perm (ended ++ (s.running ++ s.waiting)) items)

  -- The task that ends goes from those that run to those that ended.
  moved :
      (ended before after waiting : List I) (i : I)
      → Perm
          ((ended ++ (i ∷ [])) ++ ((before ++ after) ++ waiting))
          (ended ++ ((before ++ (i ∷ after)) ++ waiting))
  moved ended before after waiting i =
      rw (append_assoc ended (i ∷ []) ((before ++ after) ++ waiting))
        (Perm.append_left ended (Perm.append_right waiting (Perm.symm (perm_middle before after))))

  Step-IsSound :
      (items : List I) (limit : ℕ) {s t : Pool I T}
      → Step f s t
      → IsSound items limit s
      → IsSound items limit t
  Step-IsSound items limit (spawn s i rest p w q) (bound, (ended, out, perm)) =
      let all_items : Perm (ended ++ (s.running ++ (i ∷ rest))) items = rw w at perm in
      (
        omega (arith, bound, q),
        (
          ended,
          out,
          Perm.trans (Perm.append_left ended (Perm.symm (perm_middle s.running rest))) all_items,
        ),
      )
  Step-IsSound items limit (finish s before after i r) (bound, (ended, out, perm)) =
      let permits : s.permits + length (before ++ (i ∷ after)) ≡ limit = rw r at bound in
      let all_items : Perm (ended ++ ((before ++ (i ∷ after)) ++ s.waiting)) items = rw r at perm in
      (
        omega (arith, permits, length-append before after, length-append before (i ∷ after)),
        (
          ended ++ (i ∷ []),
          ap (λ ts. push_value ts (f i)) out ∙ sym (filter_map-value ended i),
          Perm.trans (moved ended before after s.waiting i) all_items,
        ),
      )

  Run-IsSound :
      (items : List I) (concurrency : ℕ) {n : ℕ} {t : Pool I T}
      → Run f (started f items concurrency) n t
      → IsSound items (shared_semaphore concurrency) t
  unfolding started
  Run-IsSound items concurrency here = (omega arith, ([], refl, Perm.refl items))
  Run-IsSound items concurrency (next run step) =
      Step-IsSound items (shared_semaphore concurrency) step (Run-IsSound items concurrency run)

  Step-steps_left : {s t : Pool I T} → Step f s t → steps_left t + 1 ≡ steps_left s
  Step-steps_left (spawn s i rest p w q) = omega (arith, ap length w)
  Step-steps_left (finish s before after i r) =
      omega (arith, ap length r, length-append before after, length-append before (i ∷ after))

  Run-steps_left :
      {s : Pool I T} {n : ℕ} {t : Pool I T} → Run f s n t → n + steps_left t ≡ steps_left s
  Run-steps_left here = omega arith
  Run-steps_left (next run step) = omega (arith, Run-steps_left run, Step-steps_left step)

  -- Something can go on while an item waits or a task runs: if no task runs, every permit is there.
  can_step :
      (limit : ℕ) (s : Pool I T)
      → 1 ≤ limit
      → s.permits + length s.running ≡ limit
      → IsDone s ⊎ ((t : Pool I T) × Step f s t)
  can_step limit s positive bound = by_lists (s.running) (s.waiting) refl refl
    where
      first_permit : (p : ℕ) → s.permits ≡ p → s.running ≡ [] → (q : ℕ) × (s.permits ≡ q + 1)
      first_permit zero h r = absurd (omega (arith, bound, positive, h, ap length r))
      first_permit (suc q) h r = (q, omega (arith, h))

      by_lists :
          (running waiting : List I)
          → s.running ≡ running
          → s.waiting ≡ waiting
          → IsDone s ⊎ ((t : Pool I T) × Step f s t)
      by_lists (i ∷ rest) waiting r w = inr (_, finish s [] rest i r)
      by_lists [] [] r w = inl (ap length w, ap length r)
      by_lists [] (i ∷ rest) r w =
          let permit = first_permit s.permits refl r in inr (_, spawn s i rest permit.0 w permit.1)

  IsDone-out :
      (items : List I) (limit : ℕ) (s : Pool I T)
      → IsSound items limit s
      → IsDone s
      → (ended : List I) × (s.out ≡ filter_map f ended) × Perm ended items
  IsDone-out items limit s (_, (ended, out, perm)) (w, r) = by_lists s.running s.waiting w r perm
    where
      by_lists :
          (running waiting : List I)
          → length waiting ≡ 0
          → length running ≡ 0
          → Perm (ended ++ (running ++ waiting)) items
          → (ended : List I) × (s.out ≡ filter_map f ended) × Perm ended items
      by_lists [] [] h k all = (ended, out, rw (append-nil ended) at all)
      by_lists running (i ∷ rest) h k all = absurd (omega (arith, h))
      by_lists (i ∷ rest) [] h k all = absurd (omega (arith, k))

  -- Whichever task the runtime ends next, as many tasks run at once as the concurrency allows, 1 at
  -- least and 256 at most; a run has two steps for each item at most, and it can go on until each
  -- item has been waited for, spawned and ended. Then the results are those of all items in the order
  -- in which they ended, less the tasks that panicked.
  pub parallel_map-finishes :
      (items : List I) (concurrency n : ℕ) (s : Pool I T)
      → Run f (started f items concurrency) n s
      → (length s.running ≤ max concurrency 1)
        × (length s.running ≤ 256)
        × (n ≤ 2 * length items)
        × ((IsDone s
              × (n ≡ 2 * length items)
              × ((ended : List I) × (s.out ≡ filter_map f ended) × Perm ended items))
            ⊎ ((t : Pool I T) × Step f s t))
  unfolding started shared_semaphore
  parallel_map-finishes items concurrency n s run = elim (can_step limit s positive sound.0) [
    | inl done ↦ (
      at_most,
      capped,
      steps,
      inl (done, omega (arith, left, done.0, done.1), IsDone-out items limit s sound done),
    )
    | inr next_step ↦ (at_most, capped, steps, inr next_step)
  ]
    where
      limit : ℕ
      limit = shared_semaphore concurrency

      sound : IsSound items (shared_semaphore concurrency) s
      sound = Run-IsSound items concurrency run

      left : n + steps_left s ≡ 2 * length items + 0
      left = Run-steps_left run

      positive : 1 ≤ shared_semaphore concurrency
      positive = omega arith

      at_most : length s.running ≤ max concurrency 1
      at_most = omega (arith, sound.0)

      capped : length s.running ≤ 256
      capped = omega (arith, sound.0)

      steps : n ≤ 2 * length items
      steps = omega (arith, left)
