-- ===== src/Model/Latency/Order.antt =====
-- Percentiles of a latency distribution, as ranks among the samples.
use ip_tools.Base.{
  ℕ, zero, suc, ◌+◌, ◌≤◌, ◌<◌, ◌≡◌, refl, Bool-cases, inl, inr, List, [], ◌∷◌, Option, some, All,
  length, get_elem?, ltb, leb, nat_eq, if◌then◌else◌, arith,
}
use ip_tools.Model.Latency.{insert_sorted, sort_unstable}

abbrev pub IsSorted : List ℕ → Type 0
IsSorted [] = Unit
IsSorted (x ∷ xs) = All (λ y. x ≤ y) xs × IsSorted xs

-- How many of the samples are at most `v`.
unfoldable pub count_le : ℕ → List ℕ → ℕ
count_le v [] = 0
count_le v (x ∷ xs) = (if leb x v then 1 else 0) + count_le v xs

All-weaken : (x y : ℕ) (xs : List ℕ) → x ≤ y → All (λ z. y ≤ z) xs → All (λ z. x ≤ z) xs
All-weaken x y [] h k = tt
All-weaken x y (z ∷ xs) h (k, ks) = (omega arith, All-weaken x y xs h ks)

All-insert_sorted :
    (x v : ℕ) (xs : List ℕ) → x ≤ v → All (λ z. x ≤ z) xs → All (λ z. x ≤ z) (insert_sorted v xs)
unfolding insert_sorted
All-insert_sorted x v [] h k = (h, tt)
All-insert_sorted x v (y ∷ ys) h (k, ks) = elim (Bool-cases (leb v y)) [
  | inl e ↦ rw e (h, (k, ks))
  | inr e ↦ rw e (k, All-insert_sorted x v ys h ks)
]

insert_sorted-IsSorted : (v : ℕ) (xs : List ℕ) → IsSorted xs → IsSorted (insert_sorted v xs)
unfolding insert_sorted
insert_sorted-IsSorted v [] h = (tt, tt)
insert_sorted-IsSorted v (y ∷ ys) (h, hs) = elim (Bool-cases (leb v y)) [
  | inl e ↦ let le : v ≤ y = ground (arith, e) in rw e ((le, All-weaken v y ys le h), (h, hs))
  | inr e ↦ rw e (All-insert_sorted y v ys (ground (arith, e)) h, insert_sorted-IsSorted v ys hs)
]

pub sort_unstable-IsSorted : (xs : List ℕ) → IsSorted (sort_unstable xs)
unfolding sort_unstable
sort_unstable-IsSorted [] = tt
sort_unstable-IsSorted (x ∷ xs) =
    insert_sorted-IsSorted x (sort_unstable xs) (sort_unstable-IsSorted xs)

count_le-insert_sorted :
    (v x : ℕ) (xs : List ℕ)
    → count_le v (insert_sorted x xs) ≡ (if leb x v then 1 else 0) + count_le v xs
unfolding count_le insert_sorted
count_le-insert_sorted v x [] = refl
count_le-insert_sorted v x (y ∷ ys) = elim (Bool-cases (leb x y)) [
  | inl e ↦ rw e refl
  | inr e ↦ rw e (omega (arith, count_le-insert_sorted v x ys))
]

-- Sorting keeps the samples.
pub count_le-sort_unstable : (v : ℕ) (xs : List ℕ) → count_le v (sort_unstable xs) ≡ count_le v xs
unfolding count_le sort_unstable
count_le-sort_unstable v [] = refl
count_le-sort_unstable v (x ∷ xs) =
    omega (arith, count_le-insert_sorted v x (sort_unstable xs), count_le-sort_unstable v xs)

length-insert_sorted : (x : ℕ) (xs : List ℕ) → length (insert_sorted x xs) ≡ suc (length xs)
unfolding insert_sorted
length-insert_sorted x [] = refl
length-insert_sorted x (y ∷ ys) = elim (Bool-cases (leb x y)) [
  | inl e ↦ rw e refl
  | inr e ↦ rw e (omega (arith, length-insert_sorted x ys))
]

pub length-sort_unstable : (xs : List ℕ) → length (sort_unstable xs) ≡ length xs
unfolding sort_unstable
length-sort_unstable [] = refl
length-sort_unstable (x ∷ xs) =
    omega (arith, length-insert_sorted x (sort_unstable xs), length-sort_unstable xs)

some_inj : (x v : ℕ) → ◌≡◌ {A = Option ℕ} (some x) (some v) → x ≡ v
some_inj x v h = cc h

All-get_elem? :
    (x v : ℕ) (xs : List ℕ) (i : ℕ) → All (λ y. x ≤ y) xs → get_elem? xs i ≡ some v → x ≤ v
All-get_elem? x v [] i h e = cc e
All-get_elem? x v (y ∷ ys) zero (h, hs) e = omega (arith, h, some_inj y v e)
All-get_elem? x v (y ∷ ys) (suc i) (h, hs) e = All-get_elem? x v ys i hs e

-- The element at position `i` of an ascending list has `i + 1` elements that are at most it.
pub get_elem?-count_le :
    (xs : List ℕ) (i v : ℕ) → IsSorted xs → get_elem? xs i ≡ some v → i < count_le v xs
unfolding count_le
get_elem?-count_le [] i v h e = cc e
get_elem?-count_le (x ∷ xs) zero v (h, hs) e =
    let le : x ≤ v = omega (arith, some_inj x v e) in ground (arith, le)
get_elem?-count_le (x ∷ xs) (suc i) v (h, hs) e =
    let le : x ≤ v = All-get_elem? x v xs i h e in
    ground (arith, le, get_elem?-count_le xs i v hs e)

pub get_elem?-le :
    (xs : List ℕ) (i j v w : ℕ)
    → IsSorted xs
    → i ≤ j
    → get_elem? xs i ≡ some v
    → get_elem? xs j ≡ some w
    → v ≤ w
get_elem?-le [] i j v w s h e k = cc e
get_elem?-le (x ∷ xs) zero zero v w s h e k = omega (arith, some_inj x v e, some_inj x w k)
get_elem?-le (x ∷ xs) zero (suc j) v w (s, ss) h e k =
    let le : x ≤ w = All-get_elem? x w xs j s k in omega (arith, le, some_inj x v e)
get_elem?-le (x ∷ xs) (suc i) zero v w s h e k = absurd (omega arith)
get_elem?-le (x ∷ xs) (suc i) (suc j) v w (s, ss) h e k =
    get_elem?-le xs i j v w ss (omega arith) e k

-- How many of the samples are less than `v`.
unfoldable pub count_lt : ℕ → List ℕ → ℕ
count_lt v [] = 0
count_lt v (x ∷ xs) = (if ltb x v then 1 else 0) + count_lt v xs

count_lt-insert_sorted :
    (v x : ℕ) (xs : List ℕ)
    → count_lt v (insert_sorted x xs) ≡ (if ltb x v then 1 else 0) + count_lt v xs
unfolding count_lt insert_sorted
count_lt-insert_sorted v x [] = refl
count_lt-insert_sorted v x (y ∷ ys) = elim (Bool-cases (leb x y)) [
  | inl e ↦ rw e refl
  | inr e ↦ rw e (omega (arith, count_lt-insert_sorted v x ys))
]

pub count_lt-sort_unstable : (v : ℕ) (xs : List ℕ) → count_lt v (sort_unstable xs) ≡ count_lt v xs
unfolding count_lt sort_unstable
count_lt-sort_unstable v [] = refl
count_lt-sort_unstable v (x ∷ xs) =
    omega (arith, count_lt-insert_sorted v x (sort_unstable xs), count_lt-sort_unstable v xs)

none_below : (v x : ℕ) (xs : List ℕ) → v ≤ x → All (λ y. x ≤ y) xs → count_lt v xs ≡ 0
unfolding count_lt
none_below v x [] h k = refl
none_below v x (y ∷ ys) h (k, ks) = ground (arith, none_below v x ys h ks)

pub get_elem?-count_lt :
    (xs : List ℕ) (i v : ℕ) → IsSorted xs → get_elem? xs i ≡ some v → count_lt v xs ≤ i
unfolding count_lt
get_elem?-count_lt [] i v h e = cc e
get_elem?-count_lt (x ∷ xs) zero v (h, hs) e =
    let le : v ≤ x = omega (arith, some_inj x v e) in ground (arith, le, none_below v x xs le h)
get_elem?-count_lt (x ∷ xs) (suc i) v (h, hs) e = ground (arith, get_elem?-count_lt xs i v hs e)
