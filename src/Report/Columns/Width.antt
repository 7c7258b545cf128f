-- ===== src/Report/Columns/Width.antt =====
-- src/report.rs: a column that is as wide as its widest cell.
use ip_tools.Base.{
  ℕ, zero, suc, ◌+◌, ◌-◌, ◌≤◌, ◌≡◌, refl, ap, ◌∙◌, max, Bool, true, Bool-cases, inl, inr, ◌&&◌, ltb,
  leb, List, [], ◌∷◌, ◌++◌, map, filter, All, length, replicate, Option, none, some, arith, Text,
}
use ip_tools.Report.Columns.{chars_count, pad_right, larger, largest, at_least}

pub chars_count-le : (s : Text) → chars_count s ≤ length s
unfolding chars_count
chars_count-le [] = omega arith
chars_count-le (c ∷ s) = elim (Bool-cases (leb 128 c && ltb c 192)) [
  | inl e ↦ rw e (omega (arith, chars_count-le s))
  | inr e ↦ rw e (omega (arith, chars_count-le s))
]

pub chars_count-append : (s t : Text) → chars_count (s ++ t) ≡ chars_count s + chars_count t
unfolding chars_count
chars_count-append [] t = omega arith
chars_count-append (c ∷ s) t = elim (Bool-cases (leb 128 c && ltb c 192)) [
  | inl e ↦ rw e (chars_count-append s t)
  | inr e ↦ rw e (omega (arith, chars_count-append s t))
]

pub chars_count-blanks : (n : ℕ) → chars_count (replicate n 32) ≡ n
unfolding chars_count
chars_count-blanks zero = refl
chars_count-blanks (suc n) = ap suc (chars_count-blanks n)

pub chars_count-pad_right : (w : ℕ) (s : Text) → length s ≤ w → chars_count (pad_right w s) ≡ w
unfolding pad_right
chars_count-pad_right w s h =
    chars_count-append s (replicate (w - chars_count s) 32)
    ∙ omega (arith, chars_count-le s, chars_count-blanks (w - chars_count s))

at_least-larger : (w n : ℕ) (o : Option ℕ) → at_least w (larger n o) ≡ max n (at_least w o)
at_least-larger w n none = refl
at_least-larger w n (some m) = omega arith

All-le {ℓ} :
    {A : Type ℓ} (f : A → ℕ) (v w : ℕ) (xs : List A)
    → v ≤ w
    → All (λ x. f x ≤ v) xs
    → All (λ x. f x ≤ w) xs
All-le f v w [] h a = tt
All-le f v w (x ∷ xs) h (a, rest) = (omega (arith, h, a), All-le f v w xs h rest)

pub at_least-largest {ℓ} :
    {A : Type ℓ} (w : ℕ) (f : A → ℕ) (xs : List A)
    → All (λ x. f x ≤ at_least w (largest (map f xs))) xs
at_least-largest w f [] = tt
at_least-largest w f (x ∷ xs) =
    let whole = at_least-larger w (f x) (largest (map f xs)) in
    (omega (arith, whole), All-le f _ _ xs (omega (arith, whole)) (at_least-largest w f xs))

pub at_least-le : (w : ℕ) (ns : List ℕ) → w ≤ at_least w (largest ns)
at_least-le w [] = omega arith
at_least-le w (n ∷ ns) = omega (arith, at_least-larger w n (largest ns), at_least-le w ns)

pub All-weaken {ℓ} :
    {A : Type ℓ} (P Q : A → Type 0) (xs : List A) → ((x : A) → P x → Q x) → All P xs → All Q xs
All-weaken P Q [] f h = tt
All-weaken P Q (x ∷ xs) f (h, hs) = (f x h, All-weaken P Q xs f hs)

pub All-filter {ℓ} :
    {A : Type ℓ} (p : A → Bool) (P : A → Type 0) (xs : List A)
    → All P (filter p xs)
    → All (λ x. p x ≡ true → P x) xs
All-filter p P [] h = tt
All-filter p P (x ∷ xs) h = elim (Bool-cases (p x)) [
  | inl e ↦
      let both : P x × All P (filter p xs) = rw e at h in ((λ q. both.0), All-filter p P xs both.1)
  | inr e ↦ ((λ q. absurd (ground (arith, e, q))), All-filter p P xs (rw e at h))
]

-- A row with a cell of `w` characters behind its head, which is a text filled up with blanks, and a
-- blank behind the cell.
abbrev pub HasColumn : Text → ℕ → Text → Text → Type 0
HasColumn head w shown row =
    (blanks : ℕ) × (rest : Text) × (row ≡ head ++ ((shown ++ replicate blanks 32) ++ (32 ∷ rest)))
    × (chars_count shown + blanks ≡ w)

-- One row for each element, in order.
module _ {ℓ} {A : Type ℓ} (R : A → Text → Type 0) where
  abbrev pub AllRows : List A → List Text → Type 0
  AllRows [] [] = Unit
  AllRows (x ∷ xs) (row ∷ rows) = R x row × AllRows xs rows
  AllRows _ _ = ⊥

  pub AllRows-map : (f : A → Text) (xs : List A) → All (λ x. R x (f x)) xs → AllRows xs (map f xs)
  AllRows-map f [] h = tt
  AllRows-map f (x ∷ xs) (h, hs) = (h, AllRows-map f xs hs)

-- Enough blanks fill a text up.
pub filled : (w : ℕ) (s : Text) → length s ≤ w → chars_count s + (w - chars_count s) ≡ w
filled w s h = omega (arith, h, chars_count-le s)
