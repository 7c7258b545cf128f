-- ===== src/Report/Diagnoses/Numbers.antt =====
-- The numbers in a printed line of src/report.rs, as a reader of the line finds them.
use ip_tools.Base.{
  ℕ, zero, suc, ◌+◌, ◌-◌, ◌*◌, ◌/◌, ◌%◌, ◌<◌, ◌≤◌, ◌≡◌, refl, ap, ◌∙◌, true, false, Bool-cases, inl,
  inr, Option, none, some, List, [], ◌∷◌, ◌++◌, ltb, if◌then◌else◌, is_digit, digits, decimal, Text,
  arith,
}

-- The numbers that stand in a text: its runs of digits.
unfoldable pub numbers_from : Option ℕ → Text → List ℕ
numbers_from none [] = []
numbers_from (some n) [] = n ∷ []
numbers_from none (c ∷ s) =
    let rest = numbers_from none s in
    let more = numbers_from (some (c - b'0')) s in if is_digit c then more else rest
numbers_from (some n) (c ∷ s) =
    let rest = numbers_from none s in
    let more = numbers_from (some (n * 10 + (c - b'0'))) s in if is_digit c then more else n ∷ rest

unfoldable pub numbers : Text → List ℕ
unfolding numbers_from
numbers s = numbers_from none s

numbers_from-digits :
    (fuel n : ℕ) (out : Text)
    → n < fuel
    → numbers_from none (digits fuel n out) ≡ numbers_from (some n) out
unfolding digits numbers_from
numbers_from-digits zero n out h = absurd (omega (arith, h))
numbers_from-digits (suc fuel) n out h = elim (Bool-cases (ltb n 10)) [
  | inl e ↦
      let same : b'0' + n - b'0' ≡ n = omega arith in
      let digit : is_digit (b'0' + n) ≡ true = ground (arith, e) in
      rw e (rw (numbers_from, digit, same) refl)
  | inr e ↦
      let big : 10 ≤ n = ground (arith, e) in
      let whole : n / 10 * 10 + (b'0' + n % 10 - b'0') ≡ n = omega arith in
      let digit : is_digit (b'0' + n % 10) ≡ true = ground arith in
      rw e (
        numbers_from-digits fuel (n / 10) ((b'0' + n % 10) ∷ out) (omega (arith, big, h))
        ∙ rw (numbers_from, digit, whole) refl)
]

digits-append :
    (fuel n : ℕ) (out rest : Text) → digits fuel n out ++ rest ≡ digits fuel n (out ++ rest)
unfolding digits
digits-append zero n out rest = refl
digits-append (suc fuel) n out rest = elim (Bool-cases (ltb n 10)) [
  | inl e ↦ rw e refl
  | inr e ↦ rw e (digits-append fuel (n / 10) _ rest)
]

-- A number in decimal is read, if no digit follows.
pub numbers_from-decimal :
    (n c : ℕ) (rest : Text)
    → is_digit c ≡ false
    → numbers_from none (decimal n ++ (c ∷ rest)) ≡ n ∷ numbers_from none rest
unfolding decimal numbers_from
numbers_from-decimal n c rest h =
    ap (numbers_from none) (digits-append (suc n) n [] (c ∷ rest))
    ∙ (numbers_from-digits (suc n) n (c ∷ rest) (omega arith) ∙ rw (numbers_from, h) refl)
