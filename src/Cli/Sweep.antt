-- ===== src/Cli/Sweep.antt =====
-- src/cli/mod.rs: `run_probe_flow`, which resolves every target, probes every address and reports
-- the results by target. Resolvers, probes and the printing are parameters; the two calls of
-- `parallel_map_with_limit` are the lists of their results, in any order that the runtime chooses.
-- The guards on the flags and the targets are those of `run_exit` (Exit).
pub mod Slots
pub mod Reported
pub mod Exit
mod Examples
use ip_tools.Base.{
  ℕ, zero, suc, ◌+◌, ◌==◌, nat_eq, Bool, true, false, ◌&&◌, ◌||◌, not, if◌then◌else◌, ltb, Option,
  none, some, List, [], ◌∷◌, ◌++◌, map, filter, length, is_empty, get_elem?, filter_map, push_some,
  replicate, sort_by, Text, Result, done, fail,
}
use ip_tools.Net.{IpAddr, ip_is_v4, SocketAddr, addr_lt}
use ip_tools.Target.{Target}

pub record Scope : Type 0 where
  pub ipv4_only : Bool
  pub ipv6_only : Bool

abbrev pub in_scope : Scope → IpAddr → Bool
in_scope scope ip =
    if scope.ipv4_only then ip_is_v4 ip else if scope.ipv6_only then not (ip_is_v4 ip) else true

abbrev pub destinations : Scope → ℕ → List IpAddr → List SocketAddr
destinations scope port addrs =
    map (λ ip. record { ip = ip; port = port }) (filter (in_scope scope) addrs)

-- A host and the addresses to probe; nothing for a target that does not resolve, or whose pool the
-- scope has emptied.
abbrev pub Pooled : Type 0
Pooled = Option (Text × List SocketAddr)

abbrev pub pooled : Scope → Text → List SocketAddr → Pooled
pooled scope host dests =
    if is_empty dests && (scope.ipv4_only || scope.ipv6_only) then none else some (host, dests)

module _ (scope : Scope) (resolve : Text → Result (List IpAddr) Text) where
  abbrev pub resolve_target : Target → Pooled
  resolve_target target = elim (resolve target.host) [
    | done addrs ↦ pooled scope target.host (destinations scope target.port addrs)
    | fail err ↦ none
  ]

  -- The task of the target at an index, `targets_with_index`.
  abbrev pub pool_at : List Target → ℕ → Pooled
  pool_at targets idx = elim (get_elem? targets idx) [
    | some target ↦ resolve_target target
    | none ↦ none
  ]

-- The indices of `count` targets.
abbrev pub range : ℕ → ℕ → List ℕ
range idx zero = []
range idx (suc count) = idx ∷ range (suc idx) count

-- `(idx, output)`, and `sort_by_key(|(idx, _)| *idx)`.
abbrev pub Indexed {ℓ} : Type ℓ → Type ℓ
Indexed A = ℕ × A

abbrev pub idx_lt {ℓ} : {A : Type ℓ} → Indexed A → Indexed A → Bool
idx_lt a b = ltb a.0 b.0

abbrev pub sort_by_idx {ℓ} : {A : Type ℓ} → List (Indexed A) → List (Indexed A)
sort_by_idx = sort_by idx_lt

abbrev pub entry_at {ℓ} : {A : Type ℓ} → (ℕ → A) → ℕ → Indexed A
entry_at f idx = (idx, f idx)

-- The results of the first phase, whose tasks ended in the order of `order`.
abbrev pub resolved_in : (ℕ → Pooled) → List ℕ → List (Indexed Pooled)
resolved_in pool_of order = map (entry_at pool_of) order

abbrev pub Item : Type 0
Item = Indexed (Text × SocketAddr)

abbrev pub items_of : ℕ → Pooled → List Item
items_of idx none = []
items_of idx (some (host, dests)) = map (λ d. (idx, (host, d))) dests

unfoldable pub probe_items : List (Indexed Pooled) → List Item
probe_items [] = []
probe_items (entry ∷ resolved) = items_of entry.0 entry.1 ++ probe_items resolved

-- `unresolved += 1`.
abbrev pub count_none : {A : Type 0} → Option A → ℕ → ℕ
count_none none n = n + 1
count_none (some row) n = n

unfoldable pub unresolved : {A : Type 0} → List (Indexed (Option A)) → ℕ
unresolved [] = 0
unresolved (entry ∷ indexed) = count_none entry.1 (unresolved indexed)

abbrev pub per_target : {A : Type 0} → List (Indexed (Option A)) → List A
per_target indexed = filter_map (λ entry. entry.1) indexed

-- The task of an item in the second phase: its index and its result. `probe` presents the name of
-- `--sni`, or else the host.
abbrev pub run_item : {O : Type 0} → (ℕ → Text → SocketAddr → O) → Item → Indexed O
run_item probe item = (item.0, probe item.0 item.1.0 item.1.1)

module _ {O : Type 0} where
  -- `per_target[idx].get_or_insert_with(Vec::new).push(result)`; the length of the vector is the
  -- number of targets, so that an index is never out of range.
  abbrev pub pushed : Option (List O) → O → List O
  pushed none result = result ∷ []
  pushed (some results) result = results ++ (result ∷ [])

  unfoldable pub push_at : List (Option (List O)) → ℕ → O → List (Option (List O))
  push_at [] idx result = []
  push_at (slot ∷ slots) zero result = some (pushed slot result) ∷ slots
  push_at (slot ∷ slots) (suc idx) result = slot ∷ push_at slots idx result

  unfoldable pub push_all : List (Indexed O) → List (Option (List O)) → List (Option (List O))
  push_all [] slots = slots
  push_all (entry ∷ probed) slots = push_all probed (push_at slots entry.0 entry.1)

  -- `per_target[idx].take().unwrap_or_default()`; each index is taken once.
  abbrev pub or_default : Option (List O) → List O
  or_default none = []
  or_default (some results) = results

  unfoldable pub take_slot : List (Option (List O)) → ℕ → List O
  take_slot [] idx = []
  take_slot (slot ∷ slots) zero = or_default slot
  take_slot (slot ∷ slots) (suc idx) = take_slot slots idx

module _ {O : Type 0} (sort_key : O → SocketAddr) where
  abbrev pub key_lt : O → O → Bool
  key_lt a b = addr_lt (sort_key a) (sort_key b)

  abbrev pub gathered : List (Option (List O)) → ℕ → Pooled → Option (Text × List O)
  gathered slots idx none = none
  gathered slots idx (some (host, dests)) = some (host, sort_by key_lt (take_slot slots idx))

  abbrev pub gather : List (Option (List O)) → Indexed Pooled → Indexed (Option (Text × List O))
  gather slots entry = (entry.0, gathered slots entry.0 entry.1)

  -- The results by target, from the results of the two phases as they came in.
  unfoldable pub indexed_rows :
      ℕ → List (Indexed Pooled) → List (Indexed O) → List (Indexed (Option (Text × List O)))
  indexed_rows target_count resolved probed =
      sort_by_idx
        (map (gather (push_all probed (replicate target_count none))) (sort_by_idx resolved))

module _ (scope : Scope) (resolve : Text → Result (List IpAddr) Text) (targets : List Target) where
  -- The items of the second phase, once the tasks of the first have ended in some order.
  abbrev pub to_probe : List ℕ → List Item
  to_probe order = probe_items (sort_by_idx (resolved_in (pool_at scope resolve targets) order))

  -- The whole flow, from the orders in which the tasks of its two phases ended.
  abbrev pub swept :
      {O : Type 0}
      → (O → SocketAddr)
      → (ℕ → Text → SocketAddr → O)
      → List ℕ
      → List Item
      → List (Indexed (Option (Text × List O)))
  swept sort_key probe order ended =
      indexed_rows sort_key (length targets) (resolved_in (pool_at scope resolve targets) order)
        (map (run_item probe) ended)
