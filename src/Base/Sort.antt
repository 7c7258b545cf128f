-- ===== src/Base/Sort.antt =====
-- Rust's stable `sort_by` and `sort_by_key`, for a Boolean order, and sums of weights over lists.
-- A weight does not see the order of a list: sorting a list, or taking a hash map's entries in
-- another order, leaves it.
use Prim.Native.Nat.{ℕ, ◌+◌}
use mathlib.Core.Path.{◌≡◌, refl, sym, ◌∙◌, ap}
use mathlib.Core.Logic.{inl, inr}
use mathlib.Core.Bool.{Bool, true, false, ◌&&◌, ◌||◌}
use mathlib.Core.HLevel.{hedberg}
use mathlib.Core.List.{List, [], ◌∷◌, map, Perm, foldr, is_set}
use mathlib.Core.List.Perm
use native.Mathlib.Omega.{arith}
use ip_tools.Base.Logic.{
  ltb, if◌then◌else◌, PartialEq, ◌==◌, Bool-cases, nat_eq, beq_refl, eq_of_beq,
}

-- What an equality test decides is a set.
pub PartialEq-IsSet {ℓ} : {A : Type ℓ} ⦃e : PartialEq A⦄ → IsSet A
PartialEq-IsSet = hedberg (λ x y. elim (Bool-cases (x == y)) [
  | inl h ↦ yes (eq_of_beq x y h)
  | inr h ↦ no (λ (e : x ≡ y). absurd (ground (arith, beq_refl x, h, e)))
])

module _ {ℓ} {A : Type ℓ} (lt : A → A → Bool) where
  -- `x` stood in front of the list: it stays in front of what is not below it.
  unfoldable pub insert_by : A → List A → List A
  insert_by x [] = x ∷ []
  insert_by x (y ∷ ys) = let rest = insert_by x ys in if lt y x then y ∷ rest else x ∷ y ∷ ys

  unfoldable pub sort_by : List A → List A
  unfolding insert_by
  sort_by [] = []
  sort_by (x ∷ xs) = insert_by x (sort_by xs)

  -- A strict order in which nothing but equal elements stands side by side.
  pub record IsLinear : Type ℓ where
    pub asymmetric : (a b : A) → lt a b ≡ true → lt b a ≡ false
    pub connex : (a b : A) → lt a b ≡ false → lt b a ≡ false → a ≡ b
    pub transitive : (a b c : A) → lt a b ≡ true → lt b c ≡ true → lt a c ≡ true

  module _ (linear : IsLinear) where
    insert_by_comm :
        (x y : A) (l : List A) → insert_by x (insert_by y l) ≡ insert_by y (insert_by x l)
    unfolding insert_by
    insert_by_comm x y [] =
        grind (arith, linear.asymmetric x y, linear.asymmetric y x, linear.connex x y)
    insert_by_comm x y (z ∷ l) = grind (
      arith,
      linear.asymmetric x y,
      linear.asymmetric y x,
      linear.connex x y,
      linear.transitive z x y,
      linear.transitive z y x,
      insert_by_comm x y l,
    )

    sort_by-foldr : (xs : List A) → sort_by xs ≡ foldr insert_by [] xs
    unfolding sort_by
    sort_by-foldr [] = refl
    sort_by-foldr (x ∷ xs) = ap (insert_by x) (sort_by-foldr xs)

    -- Sorting forgets the order that the elements came in.
    pub sort_by-Perm : ⦃e : PartialEq A⦄ {xs ys : List A} → Perm xs ys → sort_by xs ≡ sort_by ys
    sort_by-Perm {xs = xs} {ys} p =
        sort_by-foldr xs
        ∙ Perm.foldr-eq (is_set PartialEq-IsSet) insert_by insert_by_comm p []
        ∙ sym (sort_by-foldr ys)

  insert_by-perm : (x : A) (l : List A) → Perm (insert_by x l) (x ∷ l)
  unfolding insert_by
  insert_by-perm x [] = Perm.refl (x ∷ [])
  insert_by-perm x (y ∷ l) = elim (Bool-cases (lt y x)) [
    | inl h ↦
        rw (h, if◌then◌else◌) (Perm.trans (Perm.cons y (insert_by-perm x l)) (Perm.swap x y l))
    | inr h ↦ rw (h, if◌then◌else◌) (Perm.refl (x ∷ y ∷ l))
  ]

  pub sort_by-perm : (xs : List A) → Perm (sort_by xs) xs
  unfolding sort_by
  sort_by-perm [] = Perm.refl []
  sort_by-perm (x ∷ xs) = Perm.trans (insert_by-perm x (sort_by xs)) (Perm.cons x (sort_by-perm xs))

  -- No element is below the one in front of it.
  abbrev pub FollowedBy : A → List A → Type 0
  FollowedBy x [] = Unit
  FollowedBy x (y ∷ ys) = lt y x ≡ false

  abbrev pub IsSorted : List A → Type 0
  IsSorted [] = Unit
  IsSorted (x ∷ xs) = FollowedBy x xs × IsSorted xs

  module _ (asymmetric : (a b : A) → lt a b ≡ true → lt b a ≡ false) where
    insert_by-FollowedBy :
        (y x : A) (l : List A) → lt x y ≡ false → FollowedBy y l → FollowedBy y (insert_by x l)
    unfolding insert_by
    insert_by-FollowedBy y x [] h k = h
    insert_by-FollowedBy y x (z ∷ l) h k = elim (Bool-cases (lt z x)) [
      | inl e ↦ rw (e, if◌then◌else◌) k
      | inr e ↦ rw (e, if◌then◌else◌) h
    ]

    insert_by-IsSorted : (x : A) (l : List A) → IsSorted l → IsSorted (insert_by x l)
    unfolding insert_by
    insert_by-IsSorted x [] s = (tt, tt)
    insert_by-IsSorted x (y ∷ l) (h, s) = elim (Bool-cases (lt y x)) [
      | inl e ↦
          rw (e, if◌then◌else◌)
            (insert_by-FollowedBy y x l (asymmetric y x e) h, insert_by-IsSorted x l s)
      | inr e ↦ rw (e, if◌then◌else◌) (e, (h, s))
    ]

    pub sort_by-IsSorted : (xs : List A) → IsSorted (sort_by xs)
    unfolding sort_by
    sort_by-IsSorted [] = tt
    sort_by-IsSorted (x ∷ xs) = insert_by-IsSorted x (sort_by xs) (sort_by-IsSorted xs)

-- The sum of a weight over a list.
module _ {ℓ} {A : Type ℓ} (w : A → ℕ) where
  unfoldable pub weight : List A → ℕ
  weight [] = 0
  weight (x ∷ xs) = w x + weight xs

  weight-foldr : (xs : List A) → weight xs ≡ foldr (λ x n. w x + n) 0 xs
  unfolding weight
  weight-foldr [] = refl
  weight-foldr (x ∷ xs) = ap (λ n. w x + n) (weight-foldr xs)

  pub weight-Perm : {xs ys : List A} → Perm xs ys → weight xs ≡ weight ys
  weight-Perm {xs} {ys} p =
      weight-foldr xs
      ∙ Perm.foldr-eq PartialEq-IsSet (λ x n. w x + n) (λ a b n. omega arith) p 0
      ∙ sym (weight-foldr ys)

pub weight-map {ℓ κ} :
    {A : Type ℓ} {B : Type κ} (w : B → ℕ) (f : A → B) (xs : List A)
    → weight w (map f xs) ≡ weight (λ a. w (f a)) xs
unfolding weight
weight-map w f [] = refl
weight-map w f (x ∷ xs) = ap (λ n. w (f x) + n) (weight-map w f xs)

pub map-Perm {ℓ κ} :
    {A : Type ℓ} {B : Type κ} (f : A → B) {xs ys : List A} → Perm xs ys → Perm (map f xs) (map f ys)
map-Perm f p = Perm.map f p

-- The most frequent first, and a key between equal counts: `(Reverse(count), key)`.
abbrev pub frequent_first {ℓ} : {A : Type ℓ} → (count key : A → ℕ) → A → A → Bool
frequent_first count key a b =
    ltb (count b) (count a) || (count a == count b && ltb (key a) (key b))

pub frequent_first-IsLinear {ℓ} :
    {A : Type ℓ} (count key : A → ℕ)
    → ((a b : A) → count a ≡ count b → key a ≡ key b → a ≡ b)
    → IsLinear (frequent_first count key)
frequent_first-IsLinear count key same = record {
  asymmetric = λ a b h. ground arith;
  connex = λ a b h k. same a b (ground arith) (ground arith);
  transitive = λ a b c h k. ground arith;
}
