-- ===== src/Probe/Distribution.antt =====
-- What a hash map of counters holds after `count_up`: how many rows a key has, and their total.
use ip_tools.Base.{
  ℕ, ◌+◌, ◌≡◌, refl, ap, List, [], ◌∷◌, false, inl, inr, Bool-cases, max, arith, PartialEq, ◌==◌,
  eq_of_beq, beq_refl, if◌then◌else◌, count_up, weight,
}

module _ {ℓ} {K : Type ℓ} ⦃e : PartialEq K⦄ (k : K) where
  abbrev pub row : K × ℕ → ℕ
  row r = if r.0 == k then 1 else 0

  abbrev pub amount : K × ℕ → ℕ
  amount r = if r.0 == k then r.1 else 0

  pub rows-count_up : (m : List (K × ℕ)) → weight row (count_up k m) ≡ max 1 (weight row m)
  unfolding weight count_up
  rows-count_up [] = ground (arith, beq_refl k)
  rows-count_up ((j, n) ∷ m) = ground (arith, rows-count_up m)

  pub amount-count_up : (m : List (K × ℕ)) → weight amount (count_up k m) ≡ weight amount m + 1
  unfolding weight count_up
  amount-count_up [] = ground (arith, beq_refl k)
  amount-count_up ((j, n) ∷ m) = ground (arith, amount-count_up m)

  module _ (j : K) (other : (j == k) ≡ false) where
    pub rows-count_up_other : (m : List (K × ℕ)) → weight row (count_up j m) ≡ weight row m
    unfolding weight count_up
    rows-count_up_other [] = ground (arith, other)
    rows-count_up_other ((i, n) ∷ m) = ground (arith, rows-count_up_other m)

    pub amount-count_up_other : (m : List (K × ℕ)) → weight amount (count_up j m) ≡ weight amount m
    unfolding weight count_up
    amount-count_up_other [] = ground (arith, other)
    amount-count_up_other ((i, n) ∷ m) = elim (Bool-cases (i == j)) [
      | inl h ↦ ground (arith, h, ap (λ c. c == k) (eq_of_beq i j h), amount-count_up_other m)
      | inr h ↦ ground (arith, h, amount-count_up_other m)
    ]

-- Every increment adds one to the total.
pub total-count_up {ℓ} :
    {K : Type ℓ} ⦃e : PartialEq K⦄ (k : K) (m : List (K × ℕ))
    → weight (λ r. r.1) (count_up k m) ≡ weight (λ r. r.1) m + 1
unfolding weight count_up
total-count_up k [] = refl
total-count_up k ((j, n) ∷ m) = ground (arith, total-count_up k m)
