-- ===== src/Cli/Status/Spec.antt =====
-- src/cli/mod.rs, `parse_status_spec`: a status spec reads back, and stands for status codes.
use ip_tools.Base.{
  ℕ, zero, suc, ◌*◌, beq_refl, ◌≤◌, ◌≡◌, refl, sym, ap, ◌∙◌, inl, inr, true, ◌&&◌, Bool-cases,
  nat_eq, leb, none, Option-cases, [], ◌∷◌, arith, Text, text, trim, decimal, is_digit, all,
  strip_suffix, matches_count, parse_u16, Result, done,
}
use mathlib.Core.List.{reverse}
use ip_tools.Base.Decimal.{decimal-digits, parse_u16-decimal}
use ip_tools.Base.Trimmed.{is_visible, all-reverse, trim-visible}
use ip_tools.Base.Splitting.{strip_prefix-none, matches_count-all}
use ip_tools.Cli.Status.{
  StatusSpec, exact, class, matches, describes, parse_class, parse_code, parse_spec,
  parse_status_spec,
}

abbrev pub IsSpec : StatusSpec → Type 0
IsSpec (exact code) = (100 ≤ code) × (code ≤ 599)
IsSpec (class hundred) = (1 ≤ hundred) × (hundred ≤ 5)

visible-digits : (s : Text) → all is_digit s ≡ true → all is_visible s ≡ true
visible-digits [] h = refl
visible-digits (c ∷ s) h = ground (arith, h, visible-digits s (ground (arith, h)))

no_suffix : (s : Text) → all is_digit s ≡ true → strip_suffix (text "xx") s ≡ none
unfolding strip_suffix text matches_count
no_suffix s h =
    let none_left = strip_prefix-none (b'x' ∷ b'x' ∷ []) (reverse s) b'x' (
      omega (arith, matches_count-all is_digit b'x' (reverse s) refl (all-reverse is_digit s h))) in
    rw (none_left, strip_suffix) refl

parse_code-decimal :
    (spec : Text) (code : ℕ)
    → 100 ≤ code
    → code ≤ 599
    → parse_code spec (decimal code) ≡ done (exact code)
unfolding parse_code
parse_code-decimal spec code low high =
    let inside : (leb 100 code && leb code 599) ≡ true = ground arith in
    rw (parse_u16-decimal code (omega arith), parse_code, inside) refl

parse-exact :
    (spec : Text) (code : ℕ)
    → 100 ≤ code
    → code ≤ 599
    → parse_spec spec (decimal code) ≡ done (exact code)
unfolding parse_spec
parse-exact spec code low high =
    rw (no_suffix (decimal code) (decimal-digits code), parse_spec)
      (parse_code-decimal spec code low high)

parse-class :
    (hundred : ℕ)
    → 1 ≤ hundred
    → hundred ≤ 5
    → parse_status_spec (describes (class hundred)) ≡ done (class hundred)
unfolding describes parse_status_spec
parse-class zero h k = absurd (omega arith)
parse-class (suc zero) h k = refl
parse-class (suc (suc zero)) h k = refl
parse-class (suc (suc (suc zero))) h k = refl
parse-class (suc (suc (suc (suc zero)))) h k = refl
parse-class (suc (suc (suc (suc (suc zero))))) h k = refl
parse-class (suc (suc (suc (suc (suc (suc n)))))) h k = absurd (omega arith)

-- A spec in range, that is a code of 100 to 599 or a class of 1 to 5, is read back from its
-- description.
pub parse_status_spec-describes :
    (spec : StatusSpec) → IsSpec spec → parse_status_spec (describes spec) ≡ done spec
unfolding describes parse_status_spec
parse_status_spec-describes (exact code) (low, high) =
    ap (parse_spec (decimal code))
      (trim-visible (decimal code) (visible-digits (decimal code) (decimal-digits code)))
    ∙ parse-exact (decimal code) code low high
parse_status_spec-describes (class hundred) (low, high) = parse-class hundred low high

-- A spec that is accepted stands for status codes, and for some.
abbrev pub StandsForCodes : StatusSpec → Type 0
unfolding matches
StandsForCodes spec =
    ((status : ℕ) → matches spec status ≡ true → (100 ≤ status) × (status ≤ 599))
    × ((status : ℕ) × (matches spec status ≡ true))

IsSpec-StandsForCodes : (spec : StatusSpec) → IsSpec spec → StandsForCodes spec
unfolding matches
IsSpec-StandsForCodes (exact code) (low, high) =
    (λ status h. (ground (arith, h), ground (arith, h)), (code, beq_refl code))
IsSpec-StandsForCodes (class hundred) (low, high) =
    (λ status h. (ground (arith, h), ground (arith, h)), (hundred * 100, ground arith))

parse_class-IsSpec :
    (spec digits : Text) (a : StatusSpec) → parse_class spec digits ≡ done a → IsSpec a
unfolding parse_class
parse_class-IsSpec spec digits a e = elim (Option-cases (parse_u16 digits)) [
  | inl g ↦ cc (rw (g, parse_class) at e)
  | inr (n, g) ↦ elim (Bool-cases (leb 1 n && leb n 5)) [
    | inr b ↦ cc (rw (g, parse_class, b) at e)
    | inl b ↦
        let k : ◌≡◌ {A = Result StatusSpec Text} (done (class n)) (done a) =
          rw (g, parse_class, b) at e in
        let same : class n ≡ a = cc k in rw (sym same) (ground (arith, b), ground (arith, b))
  ]
]

parse_code-IsSpec : (spec s : Text) (a : StatusSpec) → parse_code spec s ≡ done a → IsSpec a
unfolding parse_code
parse_code-IsSpec spec s a e = elim (Option-cases (parse_u16 s)) [
  | inl g ↦ cc (rw (g, parse_code) at e)
  | inr (n, g) ↦ elim (Bool-cases (leb 100 n && leb n 599)) [
    | inr b ↦ cc (rw (g, parse_code, b) at e)
    | inl b ↦
        let k : ◌≡◌ {A = Result StatusSpec Text} (done (exact n)) (done a) =
          rw (g, parse_code, b) at e in
        let same : exact n ≡ a = cc k in rw (sym same) (ground (arith, b), ground (arith, b))
  ]
]

-- An accepted spec is in range, it matches nothing but codes of 100 to 599, and it matches one.
pub parse_status_spec-IsSpec :
    (spec : Text) (a : StatusSpec) → parse_status_spec spec ≡ done a → IsSpec a × StandsForCodes a
unfolding parse_status_spec parse_spec
parse_status_spec-IsSpec spec a e = let r = in_range (trim spec) e in (r, IsSpec-StandsForCodes a r)
  where
    in_range : (s : Text) → parse_spec spec s ≡ done a → IsSpec a
    in_range s k = elim (Option-cases (strip_suffix (text "xx") s)) [
      | inl g ↦ parse_code-IsSpec spec s a (rw (g, parse_spec) at k)
      | inr (d, g) ↦ parse_class-IsSpec spec d a (rw (g, parse_spec) at k)
    ]
