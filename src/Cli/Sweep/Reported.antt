-- ===== src/Cli/Sweep/Reported.antt =====
-- src/cli/mod.rs, `run_probe_flow`: the report has the targets in the order in which they were given,
-- whatever the order in which the runtime ends the tasks of the two phases.
use mathlib.Core.List.{Perm}
use mathlib.Core.List.Perm
use ip_tools.Base.{
  ℕ, zero, suc, ◌+◌, ◌<◌, ◌≡◌, refl, ◌∙◌, ap, true, false, ltb, Option, none, some, List, [], ◌∷◌,
  map, length, push_some, replicate, insert_by, sort_by, sort_by-Perm, sort_by-perm, IsLinear,
  IsSorted, sort_by-IsSorted, Text, Result, nat_eq, arith,
}
use ip_tools.Net.{IpAddr, v4, v6, ip_lt, ip_eq, ip_beq_iff, SocketAddr, addr_lt}
use ip_tools.Target.{Target}
use ip_tools.Cli.Sweep.{
  Scope, Pooled, Indexed, Item, idx_lt, sort_by_idx, probe_items, pool_at, push_all, take_slot,
  key_lt, gathered, gather, count_none, unresolved, per_target, indexed_rows, swept, to_probe,
  range, run_item, entry_at, resolved_in,
}
use ip_tools.Cli.Sweep.Slots.{results_of, take_slot-results}

ltb-IsLinear : IsLinear ltb
ltb-IsLinear = record {
  asymmetric = λ a b. ground arith;
  connex = λ a b. ground arith;
  transitive = λ a b c. ground arith;
}

module _ {A : Type 0} (f : ℕ → A) where
  insert_by-entry_at :
      (idx : ℕ) (is : List ℕ)
      → insert_by idx_lt (entry_at f idx) (map (entry_at f) is)
        ≡ map (entry_at f) (insert_by ltb idx is)
  unfolding insert_by
  insert_by-entry_at idx [] = refl
  insert_by-entry_at idx (i ∷ is) = ground (arith, insert_by-entry_at idx is)

  sort_by_idx-entry_at :
      (is : List ℕ) → sort_by_idx (map (entry_at f) is) ≡ map (entry_at f) (sort_by ltb is)
  unfolding sort_by
  sort_by_idx-entry_at [] = refl
  sort_by_idx-entry_at (i ∷ is) =
      ap (insert_by idx_lt (entry_at f i)) (sort_by_idx-entry_at is)
      ∙ insert_by-entry_at i (sort_by ltb is)

insert_by-range :
    (idx count : ℕ) → insert_by ltb idx (range (suc idx) count) ≡ range idx (suc count)
unfolding insert_by
insert_by-range idx zero = refl
insert_by-range idx (suc count) = ground arith

sort_by-range : (idx count : ℕ) → sort_by ltb (range idx count) ≡ range idx count
unfolding sort_by
sort_by-range idx zero = refl
sort_by-range idx (suc count) =
    ap (insert_by ltb idx) (sort_by-range (suc idx) count) ∙ insert_by-range idx count

-- The tasks' results, back in the order of the targets.
pub sort_by_idx-order :
    {A : Type 0} (f : ℕ → A) (count : ℕ) (order : List ℕ)
    → Perm order (range 0 count)
    → sort_by_idx (map (entry_at f) order) ≡ map (entry_at f) (range 0 count)
sort_by_idx-order f count order p =
    sort_by_idx-entry_at f order
    ∙ ap (map (entry_at f)) (sort_by-Perm ltb ltb-IsLinear p ∙ sort_by-range 0 count)

sort_by_idx-range :
    {A : Type 0} (f : ℕ → A) (count : ℕ)
    → sort_by_idx (map (entry_at f) (range 0 count)) ≡ map (entry_at f) (range 0 count)
sort_by_idx-range f count = sort_by_idx-order f count (range 0 count) (Perm.refl (range 0 count))

module _ {O : Type 0} (sort_key : O → SocketAddr) (probe : ℕ → Text → SocketAddr → O)
    (pool_of : ℕ → Pooled) where
  -- The rows of a report on the targets at some indices, and how many of those had no address: a row
  -- has a result for each destination of its target, sorted by the destination.
  pub data Reported : List ℕ → List (Text × List O) → ℕ → Type 0 where
    no_target : Reported [] [] 0
    no_address :
        {idx : ℕ} {is : List ℕ} {rows : List (Text × List O)} {n : ℕ}
        → pool_of idx ≡ none
        → Reported is rows n
        → Reported (idx ∷ is) rows (n + 1)
    probed :
        {idx : ℕ} {is : List ℕ} {rows : List (Text × List O)} {n : ℕ} (host : Text)
        (dests : List SocketAddr) (results : List O)
        → pool_of idx ≡ some (host, dests)
        → Perm results (map (probe idx host) dests)
        → IsSorted (key_lt sort_key) results
        → Reported is rows n
        → Reported (idx ∷ is) ((host, results) ∷ rows) n

  ip_lt-asymmetric : (a b : IpAddr) → ip_lt a b ≡ true → ip_lt b a ≡ false
  ip_lt-asymmetric (v4 a) (v4 b) h = ground (arith, h)
  ip_lt-asymmetric (v4 a) (v6 b) h = refl
  ip_lt-asymmetric (v6 a) (v4 b) h = ground (arith, h)
  ip_lt-asymmetric (v6 a) (v6 b) h = ground (arith, h)

  addr_lt-asymmetric : (a b : SocketAddr) → addr_lt a b ≡ true → addr_lt b a ≡ false
  addr_lt-asymmetric a b h = ground (
    arith,
    h,
    ip_lt-asymmetric a.ip b.ip,
    ip_lt-asymmetric b.ip a.ip,
    ip_beq_iff b.ip a.ip,
    ip_beq_iff a.ip b.ip,
  )

  key_lt-asymmetric : (a b : O) → key_lt sort_key a b ≡ true → key_lt sort_key b a ≡ false
  key_lt-asymmetric a b h = addr_lt-asymmetric (sort_key a) (sort_key b) h

  map-gather :
      (slots : List (Option (List O))) (is : List ℕ)
      → map (gather sort_key slots) (map (entry_at pool_of) is)
        ≡ map (entry_at (λ idx. gathered sort_key slots idx (pool_of idx))) is
  map-gather slots [] = refl
  map-gather slots (i ∷ is) =
      ap (λ rest. gather sort_key slots (entry_at pool_of i) ∷ rest) (map-gather slots is)

  gathered-Reported :
      (slots : List (Option (List O))) (first count : ℕ)
      → ((idx : ℕ)
          → idx < first + count
          → Perm (take_slot slots idx) (results_of probe idx (pool_of idx)))
      → Reported
          (range first count)
          (per_target (map (gather sort_key slots) (map (entry_at pool_of) (range first count))))
          (unresolved (map (gather sort_key slots) (map (entry_at pool_of) (range first count))))
  unfolding unresolved
  gathered-Reported slots first zero h = no_target
  gathered-Reported slots first (suc count) h =
      row_of (pool_of first) refl (h first (omega arith))
        (gathered-Reported slots (suc first) count (λ idx k. h idx (omega (arith, k))))
    where
      rest : List (Indexed (Option (Text × List O)))
      rest = map (gather sort_key slots) (map (entry_at pool_of) (range (suc first) count))

      row_of :
          (pool : Pooled)
          → pool_of first ≡ pool
          → Perm (take_slot slots first) (results_of probe first (pool_of first))
          → Reported (range (suc first) count) (per_target rest) (unresolved rest)
          → Reported
              (first ∷ range (suc first) count)
              (push_some
                (λ (entry : Indexed (Option (Text × List O))). entry.1)
                (gathered sort_key slots first (pool_of first))
                (per_target rest))
              (count_none (gathered sort_key slots first (pool_of first)) (unresolved rest))
      row_of none e all later = rw e (no_address e later)
      row_of (some (host, dests)) e all later =
          let results : Perm (take_slot slots first) (map (probe first host) dests) = rw e at all in
          rw e (
            probed host dests _ e
              (Perm.trans (sort_by-perm (key_lt sort_key) (take_slot slots first)) results)
              (sort_by-IsSorted (key_lt sort_key) key_lt-asymmetric (take_slot slots first)) later)

  indexed_rows-Reported :
      (count : ℕ) (order : List ℕ) (ended : List Item)
      → Perm order (range 0 count)
      → Perm ended (probe_items (sort_by_idx (resolved_in pool_of order)))
      → Reported
          (range 0 count)
          (per_target
            (indexed_rows sort_key count (resolved_in pool_of order) (map (run_item probe) ended)))
          (unresolved
            (indexed_rows sort_key count (resolved_in pool_of order) (map (run_item probe) ended)))
  unfolding indexed_rows
  indexed_rows-Reported count order ended p q =
      rw (sorted, again)
        (gathered-Reported slots 0 count (λ idx h.
          take_slot-results probe pool_of count idx ended (omega (arith, h)) (rw sorted at q)))
    where
      slots : List (Option (List O))
      slots = push_all (map (run_item probe) ended) (replicate count none)

      sorted : sort_by_idx (resolved_in pool_of order) ≡ map (entry_at pool_of) (range 0 count)
      sorted = sort_by_idx-order pool_of count order p

      again :
          sort_by_idx (map (gather sort_key slots) (map (entry_at pool_of) (range 0 count)))
          ≡ map (gather sort_key slots) (map (entry_at pool_of) (range 0 count))
      again =
          rw (map-gather slots (range 0 count))
            (sort_by_idx-range (λ idx. gathered sort_key slots idx (pool_of idx)) count)

-- Whatever the order in which the tasks of the two phases end, the report has the targets in the
-- order in which they were given: a row for each that has addresses, with the result of each
-- address, sorted by address, and a count of those that have none.
pub swept-Reported :
    {O : Type 0} (scope : Scope) (resolve : Text → Result (List IpAddr) Text)
    (targets : List Target) (probe : ℕ → Text → SocketAddr → O) (sort_key : O → SocketAddr)
    (order : List ℕ) (ended : List Item)
    → Perm order (range 0 (length targets))
    → Perm ended (to_probe scope resolve targets order)
    → Reported sort_key probe
        (pool_at scope resolve targets)
        (range 0 (length targets))
        (per_target (swept scope resolve targets sort_key probe order ended))
        (unresolved (swept scope resolve targets sort_key probe order ended))
swept-Reported scope resolve targets probe sort_key order ended p q =
    indexed_rows-Reported sort_key probe (pool_at scope resolve targets) (length targets) order
      ended p q
