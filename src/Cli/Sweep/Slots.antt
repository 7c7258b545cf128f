-- ===== src/Cli/Sweep/Slots.antt =====
-- src/cli/mod.rs, the results of `run_probe_flow` by target: the slot of a target has the results of
-- its probes, in the order in which they came in.
use mathlib.Core.List.{Perm, filter_map as core_filter_map}
use mathlib.Core.List.Perm
use ip_tools.Base.{
  ℕ, zero, suc, ◌+◌, ◌<◌, ◌≤◌, ◌≡◌, refl, sym, ◌∙◌, ap, ◌==◌, nat_eq, eq_of_beq, Bool-cases, inl,
  inr, if◌then◌else◌, Option, none, some, List, [], ◌∷◌, ◌++◌, append-nil, append_assoc, map,
  length, filter_map, replicate, Text, arith,
}
use ip_tools.Net.{SocketAddr}
use ip_tools.Cli.Sweep.{
  Indexed, Item, Pooled, items_of, probe_items, pushed, or_default, push_at, push_all, take_slot,
  range, run_item,
}

module _ {ℓ κ} {A : Type ℓ} {B : Type κ} (f : A → Option B) where
  pub filter_map-append :
      (xs ys : List A) → filter_map f (xs ++ ys) ≡ filter_map f xs ++ filter_map f ys
  filter_map-append [] ys = refl
  filter_map-append (x ∷ xs) ys = ground (arith, filter_map-append xs ys)

  filter_map-core : (xs : List A) → core_filter_map f xs ≡ filter_map f xs
  unfolding core_filter_map
  filter_map-core [] = refl
  filter_map-core (x ∷ xs) = ground (arith, filter_map-core xs)

  -- A permutation of the items gives a permutation of what is read off them.
  pub filter_map-Perm : {xs ys : List A} → Perm xs ys → Perm (filter_map f xs) (filter_map f ys)
  filter_map-Perm {xs} {ys} p =
      rw (sym (filter_map-core xs), sym (filter_map-core ys)) (Perm.filter_map f p)

module _ {O : Type 0} where
  abbrev pub result_at : ℕ → Indexed O → Option O
  result_at idx entry = if entry.0 == idx then some entry.1 else none

  or_default-pushed : (slot : Option (List O)) (o : O) → pushed slot o ≡ or_default slot ++ (o ∷ [])
  or_default-pushed none o = refl
  or_default-pushed (some os) o = refl

  length-push_at :
      (slots : List (Option (List O))) (i : ℕ) (o : O) → length (push_at slots i o) ≡ length slots
  unfolding push_at
  length-push_at [] i o = refl
  length-push_at (slot ∷ slots) zero o = refl
  length-push_at (slot ∷ slots) (suc i) o = ap suc (length-push_at slots i o)

  take_slot-push_at :
      (slots : List (Option (List O))) (i : ℕ) (o : O) (idx : ℕ)
      → idx < length slots
      → take_slot (push_at slots i o) idx
        ≡ take_slot slots idx ++ filter_map (result_at idx) ((i, o) ∷ [])
  unfolding push_at take_slot
  take_slot-push_at [] i o idx h = absurd (omega (arith, h))
  take_slot-push_at (slot ∷ slots) zero o zero h = rw (or_default-pushed slot o) (ground arith)
  take_slot-push_at (slot ∷ slots) zero o (suc idx) h =
      ground (arith, append-nil (take_slot slots idx))
  take_slot-push_at (slot ∷ slots) (suc i) o zero h = ground (arith, append-nil (or_default slot))
  take_slot-push_at (slot ∷ slots) (suc i) o (suc idx) h =
      ground (arith, take_slot-push_at slots i o idx (omega (arith, h)))

  pub take_slot-push_all :
      (probed : List (Indexed O)) (slots : List (Option (List O))) (idx : ℕ)
      → idx < length slots
      → take_slot (push_all probed slots) idx
        ≡ take_slot slots idx ++ filter_map (result_at idx) probed
  unfolding push_all
  take_slot-push_all [] slots idx h = sym (append-nil (take_slot slots idx))
  take_slot-push_all (entry ∷ probed) slots idx h =
      take_slot-push_all probed (push_at slots entry.0 entry.1) idx
        (omega (arith, h, length-push_at slots entry.0 entry.1))
      ∙ ap (λ os. os ++ filter_map (result_at idx) probed)
          (take_slot-push_at slots entry.0 entry.1 idx h)
      ∙ append_assoc (take_slot slots idx) _ _
      ∙ ap (λ os. take_slot slots idx ++ os)
          (sym (filter_map-append (result_at idx) (entry ∷ []) probed))

  length-replicate : (n : ℕ) (a : O) → length (replicate n a) ≡ n
  length-replicate zero a = refl
  length-replicate (suc n) a = ap suc (length-replicate n a)

  pub take_slot-replicate : (n idx : ℕ) → take_slot {O = O} (replicate n none) idx ≡ []
  unfolding take_slot
  take_slot-replicate zero idx = refl
  take_slot-replicate (suc n) zero = refl
  take_slot-replicate (suc n) (suc idx) = take_slot-replicate n idx

module _ {O : Type 0} (probe : ℕ → Text → SocketAddr → O) where
  abbrev item_result : ℕ → Item → Option O
  item_result idx item = result_at idx (run_item probe item)

  -- The results of a target's probes, one for each of its destinations.
  abbrev pub results_of : ℕ → Pooled → List O
  results_of idx none = []
  results_of idx (some (host, dests)) = map (probe idx host) dests

  item_result-host :
      (i idx : ℕ) (host : Text) (dests : List SocketAddr)
      → filter_map (item_result idx) (items_of i (some (host, dests)))
        ≡ (if i == idx then map (probe idx host) dests else [])
  item_result-host i idx host [] = ground arith
  item_result-host i idx host (d ∷ dests) = ground (arith, item_result-host i idx host dests)

  item_result-items_of :
      (i idx : ℕ) (pool : Pooled)
      → filter_map (item_result idx) (items_of i pool)
        ≡ (if i == idx then results_of idx pool else [])
  item_result-items_of i idx none = ground arith
  item_result-items_of i idx (some (host, dests)) = item_result-host i idx host dests

  filter_map-run_item :
      (idx : ℕ) (items : List Item)
      → filter_map (result_at idx) (map (run_item probe) items) ≡ filter_map (item_result idx) items
  filter_map-run_item idx [] = refl
  filter_map-run_item idx (item ∷ items) = ground (arith, filter_map-run_item idx items)

  module _ (pool_of : ℕ → Pooled) where
    abbrev pub indexed : ℕ → Indexed Pooled
    indexed idx = (idx, pool_of idx)

    item_result-fresh :
        (first count idx : ℕ)
        → idx < first
        → filter_map (item_result idx) (probe_items (map indexed (range first count))) ≡ []
    unfolding probe_items
    item_result-fresh first zero idx h = refl
    item_result-fresh first (suc count) idx h =
        filter_map-append (item_result idx) (items_of first (pool_of first)) _
        ∙ ground (
          arith,
          h,
          item_result-items_of first idx (pool_of first),
          item_result-fresh (suc first) count idx (omega (arith, h)),
        )

    item_result-range :
        (first count idx : ℕ)
        → first ≤ idx
        → idx < first + count
        → filter_map (item_result idx) (probe_items (map indexed (range first count)))
          ≡ results_of idx (pool_of idx)
    unfolding probe_items
    item_result-range first zero idx h k = absurd (omega (arith, h, k))
    item_result-range first (suc count) idx h k =
        filter_map-append (item_result idx) (items_of first (pool_of first)) _
        ∙ elim (Bool-cases (first == idx)) [
          | inl e ↦ ground (
            arith,
            eq_of_beq first idx e,
            append-nil (results_of idx (pool_of first)),
            item_result-items_of first idx (pool_of first),
            item_result-fresh (suc first) count idx (ground (arith, eq_of_beq first idx e)),
          )
          | inr e ↦ ground (
            arith,
            e,
            item_result-items_of first idx (pool_of first),
            item_result-range (suc first) count idx (ground (arith, h, e)) (omega (arith, k)),
          )
        ]

    -- The slot of a target, from the results of all items in any order.
    pub take_slot-results :
        (count idx : ℕ) (ended : List Item)
        → idx < count
        → Perm ended (probe_items (map indexed (range 0 count)))
        → Perm
            (take_slot (push_all (map (run_item probe) ended) (replicate count none)) idx)
            (results_of idx (pool_of idx))
    take_slot-results count idx ended h p =
        rw
          (
            take_slot-push_all (map (run_item probe) ended) (replicate count none) idx
                (omega (arith, h, length-replicate {O = Option (List O)} count none)),
            take_slot-replicate {O = O} count idx,
            filter_map-run_item idx ended,
            sym (item_result-range 0 count idx (omega arith) (omega (arith, h))),
          )
          (filter_map-Perm (item_result idx) p)
