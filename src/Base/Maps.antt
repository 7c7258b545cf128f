-- ===== src/Base/Maps.antt =====
-- Rust's `BTreeMap` and `BTreeSet`: ascending lists under a strict order `lt`, in which two keys
-- with neither below the other are the same key. And `HashMap` entry counters, in the order of
-- first insertion.
use Prim.Native.Nat.{ℕ, ◌+◌}
use mathlib.Core.Bool.{Bool, true, false}
use mathlib.Core.List.{List, [], ◌∷◌, map}
use mathlib.Core.Option.{Option, none, some}
use ip_tools.Base.Logic.{if◌then◌else◌, PartialEq, ◌==◌, ltb, nat_eq}
use ip_tools.Base.Strings.{Text}

module _ {ℓ} {K : Type ℓ} (lt : K → K → Bool) where
  -- `map.entry(k)`, whose value, if any, `f` replaces.
  unfoldable pub entry {κ} : {V : Type κ} → K → (Option V → V) → List (K × V) → List (K × V)
  entry k f [] = (k, f none) ∷ []
  entry k f ((j, v) ∷ m) =
      let later = entry k f m in
      if lt k j
      then (k, f none) ∷ (j, v) ∷ m
      else if lt j k
      then (j, v) ∷ later
      else (j, f (some v)) ∷ m

  -- `BTreeSet::insert`.
  unfoldable pub set_insert : K → List K → List K
  set_insert k [] = k ∷ []
  set_insert k (j ∷ s) =
      let later = set_insert k s in
      if lt k j then k ∷ j ∷ s else if lt j k then j ∷ later else j ∷ s

  unfoldable pub set_extend : List K → List K → List K
  unfolding set_insert
  set_extend [] s = s
  set_extend (k ∷ ks) s = set_extend ks (set_insert k s)

module _ {ℓ} {K : Type ℓ} ⦃e : PartialEq K⦄ where
  -- `*counts.entry(k).or_default() += 1`.
  unfoldable pub count_up : K → List (K × ℕ) → List (K × ℕ)
  count_up k [] = (k, 1) ∷ []
  count_up k ((j, n) ∷ m) =
      let later = count_up k m in if j == k then (j, n + 1) ∷ m else (j, n) ∷ later

abbrev pub keys {ℓ κ} : {K : Type ℓ} {V : Type κ} → List (K × V) → List K
keys m = map (λ e. e.0) m

abbrev pub values {ℓ κ} : {K : Type ℓ} {V : Type κ} → List (K × V) → List V
values m = map (λ e. e.1) m

-- `str`'s order: by bytes, and a prefix first.
unfoldable pub text_lt : Text → Text → Bool
text_lt [] [] = false
text_lt [] (d ∷ t) = true
text_lt (c ∷ s) [] = false
text_lt (c ∷ s) (d ∷ t) =
    let later = text_lt s t in if ltb c d then true else if c == d then later else false
