-- ===== src/Route/Hops.antt =====
-- src/route.rs, `aggregate_runs`: the hops of a time to live go to one entry of the map.
pub mod Rows
use ip_tools.Base.{
  ℕ, suc, ◌+◌, ◌≤◌, ◌<◌, ◌≡◌, refl, sym, ◌∙◌, Option, none, some, List, [], ◌∷◌, ◌++◌, append_assoc,
  keys, filter, filter-append, Bool, true, false, Bool-cases, inl, inr, ltb, nat_eq, ◌==◌, arith,
  if◌then◌else◌, All, entry, beq_refl, eq_of_beq, ap,
}
use ip_tools.Route.{RouteHop, HopTally, note_hop, or_insert, put_hop, put_run, put_runs}

-- `BTreeMap::get`.
unfoldable pub get {ℓ} : {V : Type ℓ} → ℕ → List (ℕ × V) → Option V
get k [] = none
get k ((j, v) ∷ m) = let later = get k m in if j == k then some v else later

abbrev pub Ascending : List ℕ → Type 0
Ascending [] = Unit
Ascending (k ∷ ks) = All (λ j. k < j) ks × Ascending ks

All-above : (i k : ℕ) (ks : List ℕ) → i < k → All (λ j. k < j) ks → All (λ j. i < j) ks
All-above i k [] h a = tt
All-above i k (j ∷ ks) h (a, rest) = (omega arith, All-above i k ks h rest)

other-key : {i j : ℕ} → i < j → (j == i) ≡ false
other-key h = ground arith

above-key : {i j : ℕ} → i < j → (i == j) ≡ false
above-key h = ground arith

irrefl : (k : ℕ) → ltb k k ≡ false
irrefl k = ground arith

module _ {ℓ} {V : Type ℓ} (k : ℕ) (f : Option V → V) where
  All-entry :
      (i : ℕ) (m : List (ℕ × V))
      → i < k
      → All (λ j. i < j) (keys m)
      → All (λ j. i < j) (keys (entry ltb k f m))
  unfolding entry
  All-entry i [] h a = (h, tt)
  All-entry i ((j, v) ∷ m) h (a, rest) = elim (Bool-cases (ltb k j)) [
    | inl c ↦ rw c (h, (a, rest))
    | inr c ↦ elim (Bool-cases (ltb j k)) [
      | inl d ↦ rw (c, d) (a, All-entry i m h rest)
      | inr d ↦ rw (c, d) (a, rest)
    ]
  ]

  pub entry-Ascending : (m : List (ℕ × V)) → Ascending (keys m) → Ascending (keys (entry ltb k f m))
  unfolding entry
  entry-Ascending [] h = (tt, tt)
  entry-Ascending ((j, v) ∷ m) (a, s) = elim (Bool-cases (ltb k j)) [
    | inl c ↦
        let below : k < j = ground (arith, c) in
        rw c ((below, All-above k j (keys m) below a), (a, s))
    | inr c ↦ elim (Bool-cases (ltb j k)) [
      | inl d ↦ rw (c, d) (All-entry j m (ground (arith, d)) a, entry-Ascending m s)
      | inr d ↦ rw (c, d) (a, s)
    ]
  ]

  get-below : (m : List (ℕ × V)) → All (λ j. k < j) (keys m) → get k m ≡ none
  unfolding get
  get-below [] h = refl
  get-below ((j, v) ∷ m) (h, hs) = rw (get-below m hs, other-key h) refl

  pub get-entry :
      (m : List (ℕ × V)) → Ascending (keys m) → get k (entry ltb k f m) ≡ some (f (get k m))
  unfolding entry get
  get-entry [] h = rw (beq_refl k) refl
  get-entry ((j, v) ∷ m) (a, s) = elim (Bool-cases (ltb k j)) [
    | inl c ↦
        let below : k < j = ground (arith, c) in
        rw (c, beq_refl k, get-below m (All-above k j (keys m) below a), other-key below) refl
    | inr c ↦ elim (Bool-cases (ltb j k)) [
      | inl d ↦
          let above : j < k = ground (arith, d) in rw (c, d, above-key above, get-entry m s) refl
      | inr d ↦ let same : j ≡ k = ground (arith, c, d) in rw (same, irrefl k, beq_refl k) refl
    ]
  ]

  pub get-entry_other :
      (i : ℕ) (m : List (ℕ × V)) → (k == i) ≡ false → get i (entry ltb k f m) ≡ get i m
  unfolding entry get
  get-entry_other i [] h = rw h refl
  get-entry_other i ((j, v) ∷ m) h = elim (Bool-cases (ltb k j)) [
    | inl c ↦ rw (c, h) refl
    | inr c ↦ elim (Bool-cases (ltb j k)) [
      | inl d ↦ rw (c, d, get-entry_other i m h) refl
      | inr d ↦ let same : j ≡ k = ground (arith, c, d) in rw (same, irrefl k, h) refl
    ]
  ]

abbrev pub of_ttl : ℕ → RouteHop → Bool
of_ttl ttl hop = hop.ttl == ttl

-- The entry of a time to live after its hops `hops`, from what it was.
unfoldable pub fold_hops : Option HopTally → List RouteHop → Option HopTally
fold_hops o [] = o
fold_hops o (hop ∷ hops) = fold_hops (some (note_hop (or_insert o) hop)) hops

put_hop-Ascending :
    (hop : RouteHop) (m : List (ℕ × HopTally))
    → Ascending (keys m)
    → Ascending (keys (put_hop hop m))
unfolding put_hop
put_hop-Ascending hop m = entry-Ascending hop.ttl (λ t. note_hop (or_insert t) hop) m

get-put_hop :
    (ttl : ℕ) (hop : RouteHop) (m : List (ℕ × HopTally))
    → Ascending (keys m)
    → get ttl (put_hop hop m) ≡ fold_hops (get ttl m) (filter (of_ttl ttl) (hop ∷ []))
unfolding put_hop fold_hops
get-put_hop ttl hop m s = elim (Bool-cases (hop.ttl == ttl)) [
  | inl h ↦
      rw (h, sym (eq_of_beq hop.ttl ttl h))
        (get-entry hop.ttl (λ t. note_hop (or_insert t) hop) m s)
  | inr h ↦ rw h (get-entry_other hop.ttl (λ t. note_hop (or_insert t) hop) ttl m h)
]

fold_hops-append :
    (xs ys : List RouteHop) (o : Option HopTally)
    → fold_hops o (xs ++ ys) ≡ fold_hops (fold_hops o xs) ys
unfolding fold_hops
fold_hops-append [] ys o = refl
fold_hops-append (x ∷ xs) ys o = fold_hops-append xs ys (some (note_hop (or_insert o) x))

put_run-Ascending :
    (run : List RouteHop) (m : List (ℕ × HopTally))
    → Ascending (keys m)
    → Ascending (keys (put_run run m))
unfolding put_run
put_run-Ascending [] m s = s
put_run-Ascending (hop ∷ run) m s =
    put_run-Ascending run (put_hop hop m) (put_hop-Ascending hop m s)

get-put_run :
    (ttl : ℕ) (run : List RouteHop) (m : List (ℕ × HopTally))
    → Ascending (keys m)
    → get ttl (put_run run m) ≡ fold_hops (get ttl m) (filter (of_ttl ttl) run)
unfolding put_run
get-put_run ttl [] m s = unfold fold_hops in refl
get-put_run ttl (hop ∷ run) m s =
    get-put_run ttl run (put_hop hop m) (put_hop-Ascending hop m s)
    ∙ ap (λ o. fold_hops o (filter (of_ttl ttl) run)) (get-put_hop ttl hop m s)
    ∙ sym (fold_hops-append (filter (of_ttl ttl) (hop ∷ [])) (filter (of_ttl ttl) run) (get ttl m))
    ∙ ap (fold_hops (get ttl m)) (sym (filter-append (of_ttl ttl) (hop ∷ []) run))

pub put_runs-Ascending :
    (runs : List (List RouteHop)) (m : List (ℕ × HopTally))
    → Ascending (keys m)
    → Ascending (keys (put_runs runs m))
unfolding put_runs
put_runs-Ascending [] m s = s
put_runs-Ascending (run ∷ runs) m s =
    put_runs-Ascending runs (put_run run m) (put_run-Ascending run m s)

abbrev pub all_hops : List (List RouteHop) → List RouteHop
all_hops [] = []
all_hops (run ∷ runs) = run ++ all_hops runs

pub get-put_runs :
    (ttl : ℕ) (runs : List (List RouteHop)) (m : List (ℕ × HopTally))
    → Ascending (keys m)
    → get ttl (put_runs runs m) ≡ fold_hops (get ttl m) (filter (of_ttl ttl) (all_hops runs))
unfolding put_runs
get-put_runs ttl [] m s = unfold fold_hops in refl
get-put_runs ttl (run ∷ runs) m s =
    get-put_runs ttl runs (put_run run m) (put_run-Ascending run m s)
    ∙ ap (λ o. fold_hops o (filter (of_ttl ttl) (all_hops runs))) (get-put_run ttl run m s)
    ∙ sym (
        fold_hops-append (filter (of_ttl ttl) run) (filter (of_ttl ttl) (all_hops runs))
          (get ttl m))
    ∙ ap (fold_hops (get ttl m)) (sym (filter-append (of_ttl ttl) run (all_hops runs)))
