-- ===== src/Base/Splitting.antt =====
-- Splitting texts at a character that one of their parts does not have.
use ip_tools.Base.Logic.{nat_eq, ◌==◌, Bool-cases, beq_refl, eq_of_beq}
use ip_tools.Base.Lists.{all}
use ip_tools.Base.Strings.{
  Text, matches_count, rsplit_once, strip_prefix, split_once, split, is_digit, strip_suffix,
}
use Prim.Native.Nat.{ℕ, ◌+◌, ◌<◌}
use mathlib.Core.Path.{◌≡◌, refl, ap}
use mathlib.Core.Logic.{inl, inr}
use mathlib.Core.Bool.{Bool, true, false}
use mathlib.Core.Option.{none, some}
use mathlib.Core.List.{List, [], ◌∷◌, ◌++◌, reverse-append, reverse-reverse}
use native.Mathlib.Omega.{arith}

pub matches_count-append :
    (c : ℕ) (s t : Text) → matches_count c (s ++ t) ≡ matches_count c s + matches_count c t
unfolding matches_count
matches_count-append c [] t = omega arith
matches_count-append c (d ∷ s) t = ground (arith, matches_count-append c s t)

-- A text whose characters all pass a test that `c` fails does not have `c`.
pub matches_count-all :
    (p : ℕ → Bool) (c : ℕ) (s : Text) → p c ≡ false → all p s ≡ true → matches_count c s ≡ 0
unfolding matches_count
matches_count-all p c [] h k = refl
matches_count-all p c (d ∷ s) h k = elim (Bool-cases (c == d)) [
  | inl e ↦ let same : c ≡ d = eq_of_beq c d e in absurd (ground (arith, h, k, ap p same))
  | inr e ↦ rw e (omega (arith, matches_count-all p c s h (ground (arith, k))))
]

pub rsplit_once-none : (c : ℕ) (s : Text) → matches_count c s ≡ 0 → rsplit_once c s ≡ none
unfolding matches_count rsplit_once
rsplit_once-none c [] h = refl
rsplit_once-none c (d ∷ s) h =
    let other : (c == d) ≡ false = ground (arith, h) in
    rw (rsplit_once-none c s (ground (arith, h)), other) refl

pub rsplit_once-last :
    (c : ℕ) (s t : Text) → matches_count c t ≡ 0 → rsplit_once c (s ++ (c ∷ t)) ≡ some (s, t)
unfolding rsplit_once
rsplit_once-last c [] t h = rw (rsplit_once-none c t h, beq_refl c) refl
rsplit_once-last c (d ∷ s) t h = rw (rsplit_once-last c s t h) refl

pub strip_prefix-none :
    (p s : Text) (c : ℕ) → matches_count c s < matches_count c p → strip_prefix p s ≡ none
unfolding matches_count strip_prefix
strip_prefix-none [] s c h = absurd (omega arith)
strip_prefix-none (d ∷ p) [] c h = refl
strip_prefix-none (d ∷ p) (e ∷ s) c h = elim (Bool-cases (d == e)) [
  | inl g ↦ rw g (strip_prefix-none p s c (ground (arith, h, g)))
  | inr g ↦ rw g refl
]

-- A separator that a test refuses is not among the bytes that pass it.
apart : (p : ℕ → Bool) (c d : ℕ) → p c ≡ false → p d ≡ true → (c == d) ≡ false
apart p c d h k = elim (Bool-cases (c == d)) [
  | inl e ↦ let same : c ≡ d = eq_of_beq c d e in absurd (ground (arith, h, k, ap p same))
  | inr e ↦ e
]

pub split_once-first :
    (p : ℕ → Bool) (c : ℕ) (s t : Text)
    → p c ≡ false
    → all p s ≡ true
    → split_once c (s ++ (c ∷ t)) ≡ some (s, t)
unfolding split_once
split_once-first p c [] t h k = rw (beq_refl c) refl
split_once-first p c (d ∷ s) t h k =
    let other : (c == d) ≡ false = apart p c d h (ground (arith, k)) in
    rw other (rw (split_once-first p c s t h (ground (arith, k))) refl)

split-none : (p : ℕ → Bool) (c : ℕ) (s : Text) → p c ≡ false → all p s ≡ true → split c s ≡ s ∷ []
unfolding split
split-none p c [] h k = refl
split-none p c (d ∷ s) h k =
    let other : (c == d) ≡ false = apart p c d h (ground (arith, k)) in
    rw (split-none p c s h (ground (arith, k))) (rw other refl)

split-first :
    (p : ℕ → Bool) (c : ℕ) (s t u : Text) (us : List Text)
    → p c ≡ false
    → all p s ≡ true
    → split c t ≡ u ∷ us
    → split c (s ++ (c ∷ t)) ≡ s ∷ u ∷ us
unfolding split
split-first p c [] t u us h k e = rw e (rw (beq_refl c) refl)
split-first p c (d ∷ s) t u us h k e =
    let other : (c == d) ≡ false = apart p c d h (ground (arith, k)) in
    rw (split-first p c s t u us h (ground (arith, k)) e) (rw other refl)

-- Three fields.
pub split-fields :
    (c : ℕ) (a b d : Text)
    → is_digit c ≡ false
    → all is_digit a ≡ true
    → all is_digit b ≡ true
    → all is_digit d ≡ true
    → split c (a ++ (c ∷ (b ++ (c ∷ d)))) ≡ a ∷ b ∷ d ∷ []
split-fields c a b d h k l m =
    split-first is_digit c a (b ++ (c ∷ d)) b (d ∷ []) h k
      (split-first is_digit c b d d [] h l (split-none is_digit c d h m))

pub strip_suffix-append : (s : Text) (c : ℕ) → strip_suffix (c ∷ []) (s ++ (c ∷ [])) ≡ some s
unfolding strip_suffix strip_prefix
strip_suffix-append s c =
    rw (strip_suffix, reverse-append s (c ∷ []))
      (rw (strip_prefix, beq_refl c) (ap some (reverse-reverse s)))
