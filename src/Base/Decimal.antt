-- ===== src/Base/Decimal.antt =====
-- Decimal numbers read back as they are written.
use ip_tools.Base.Logic.{ltb, leb, nat_eq, ◌==◌, Bool-cases}
use ip_tools.Base.Lists.{all, is_empty, replicate}
use ip_tools.Base.Ints.{pos, i64_max, parse_i64}
use ip_tools.Base.Strings.{
  Text, is_digit, digits, decimal, scan_digits, parse_unsigned, parse_u16, u16_max,
}
use Prim.Native.Nat.{ℕ, zero, suc, ◌+◌, ◌-◌, ◌*◌, ◌/◌, ◌%◌, ◌≤◌, ◌<◌}
use mathlib.Core.Path.{◌≡◌, refl, ap, ◌∙◌}
use mathlib.Core.Logic.{inl, inr}
use mathlib.Core.Bool.{true, false, ◌&&◌}
use mathlib.Core.Option.{Option, some}
use mathlib.Core.List.{[], ◌∷◌, ◌++◌}
use native.Mathlib.Omega.{arith}

scan-digit :
    (limit n d : ℕ) (s : Text)
    → d < 10
    → n * 10 + d ≤ limit
    → scan_digits limit n ((b'0' + d) ∷ s) ≡ scan_digits limit (n * 10 + d) s
unfolding scan_digits
scan-digit limit n d s h k =
    let fits : (is_digit (b'0' + d) && leb (n * 10 + (b'0' + d - b'0')) limit) ≡ true =
      ground arith in
    let same : b'0' + d - b'0' ≡ d = omega arith in rw (fits, same) refl

scan-digits :
    (limit fuel n : ℕ) (out : Text)
    → n < fuel
    → n ≤ limit
    → scan_digits limit 0 (digits fuel n out) ≡ scan_digits limit n out
unfolding digits
scan-digits limit zero n out h k = absurd (omega arith)
scan-digits limit (suc fuel) n out h k = elim (Bool-cases (ltb n 10)) [
  | inl e ↦
      let same : 0 * 10 + n ≡ n = omega arith in
      rw e (
        scan-digit limit 0 n out (ground (arith, e)) (omega arith)
        ∙ ap (λ x. scan_digits limit x out) same)
  | inr e ↦
      let big : 10 ≤ n = ground (arith, e) in
      let whole : n / 10 * 10 + n % 10 ≡ n = omega arith in
      rw e (
        scan-digits limit fuel (n / 10) ((b'0' + n % 10) ∷ out) (omega (arith, big)) (omega arith)
        ∙ scan-digit limit (n / 10) (n % 10) out (omega arith) (omega arith)
        ∙ rw whole refl)
]

all-digits :
    (fuel n : ℕ) (out : Text) → all is_digit out ≡ true → all is_digit (digits fuel n out) ≡ true
unfolding digits
all-digits zero n out h = h
all-digits (suc fuel) n out h = elim (Bool-cases (ltb n 10)) [
  | inl e ↦ rw e (ground (arith, e, h))
  | inr e ↦ rw e (all-digits fuel (n / 10) _ (ground (arith, h)))
]

digits-nonempty : (fuel n d : ℕ) (out : Text) → is_empty (digits fuel n (d ∷ out)) ≡ false
unfolding digits
digits-nonempty zero n d out = refl
digits-nonempty (suc fuel) n d out = elim (Bool-cases (ltb n 10)) [
  | inl e ↦ rw e refl
  | inr e ↦ rw e (digits-nonempty fuel (n / 10) (b'0' + n % 10) (d ∷ out))
]

pub decimal-digits : (n : ℕ) → all is_digit (decimal n) ≡ true
unfolding decimal
decimal-digits n = all-digits (suc n) n [] refl

pub decimal-nonempty : (n : ℕ) → is_empty (decimal n) ≡ false
unfolding decimal digits
decimal-nonempty n = elim (Bool-cases (ltb n 10)) [
  | inl e ↦ rw e refl
  | inr e ↦ rw e (digits-nonempty n (n / 10) (b'0' + n % 10) [])
]

-- Behind its test for a sign the parser reads digits.
parse-digits :
    (limit : ℕ) (s : Text)
    → all is_digit s ≡ true
    → is_empty s ≡ false
    → parse_unsigned limit s ≡ scan_digits limit 0 s
unfolding parse_unsigned
parse-digits limit [] h k = absurd (ground (arith, k))
parse-digits limit (c ∷ []) h k = refl
parse-digits limit (c ∷ d ∷ s) h k =
    let unsigned : (c == b'+') ≡ false = ground (arith, h) in rw unsigned refl

pub scan_digits-decimal : (limit n : ℕ) → n ≤ limit → scan_digits limit 0 (decimal n) ≡ some n
unfolding scan_digits decimal
scan_digits-decimal limit n h = scan-digits limit (suc n) n [] (omega arith) h

pub scan_digits-zeros :
    (limit k : ℕ) (s : Text) → scan_digits limit 0 (replicate k b'0' ++ s) ≡ scan_digits limit 0 s
unfolding scan_digits
scan_digits-zeros limit zero s = refl
scan_digits-zeros limit (suc k) s =
    scan-digit limit 0 0 (replicate k b'0' ++ s) (omega arith) (omega arith)
    ∙ scan_digits-zeros limit k s

pub parse_i64-digits :
    (s : Text) (n : ℕ)
    → all is_digit s ≡ true
    → is_empty s ≡ false
    → scan_digits i64_max 0 s ≡ some n
    → parse_i64 s ≡ some (pos n)
unfolding parse_i64
parse_i64-digits [] n h k e = absurd (ground (arith, k))
parse_i64-digits (c ∷ []) n h k e = rw e refl
parse_i64-digits (c ∷ d ∷ s) n h k e =
    let unsigned : (c == b'-') ≡ false = ground (arith, h) in
    rw (unsigned, parse-digits i64_max (c ∷ d ∷ s) h k, e) refl

pub parse-decimal : (limit n : ℕ) → n ≤ limit → parse_unsigned limit (decimal n) ≡ some n
unfolding scan_digits decimal
parse-decimal limit n h =
    parse-digits limit (decimal n) (decimal-digits n) (decimal-nonempty n)
    ∙ scan-digits limit (suc n) n [] (omega arith) h

pub parse_u16-decimal : (n : ℕ) → n ≤ u16_max → parse_u16 (decimal n) ≡ some n
unfolding parse_u16
parse_u16-decimal n h = parse-decimal u16_max n h

-- What is read is within the limit.
scan_digits-le :
    (limit n : ℕ) (s : Text) (m : ℕ) → n ≤ limit → scan_digits limit n s ≡ some m → m ≤ limit
unfolding scan_digits
scan_digits-le limit n [] m h e = omega (arith, h, some_inj n m e)
  where
    some_inj : (n m : ℕ) → ◌≡◌ {A = Option ℕ} (some n) (some m) → n ≡ m
    some_inj n m h = cc h
scan_digits-le limit n (c ∷ s) m h e =
    let fits = is_digit c && leb (n * 10 + (c - b'0')) limit in
    elim (Bool-cases (is_digit c && leb (n * 10 + (c - b'0')) limit)) [
      | inl t ↦ scan_digits-le limit (n * 10 + (c - b'0')) s m (ground (arith, t)) (rw t at e)
      | inr t ↦ cc (rw t at e)
    ]

pub parse_u16-lt : (s : Text) (m : ℕ) → parse_u16 s ≡ some m → m < 65536
unfolding parse_u16 parse_unsigned
parse_u16-lt [] m e = cc e
parse_u16-lt (c ∷ []) m e = omega (arith, scan_digits-le 65535 0 (c ∷ []) m (omega arith) e)
parse_u16-lt (c ∷ d ∷ s) m e = elim (Bool-cases (c == b'+')) [
  | inl t ↦ omega (arith, scan_digits-le 65535 0 (d ∷ s) m (omega arith) (rw t at e))
  | inr t ↦ omega (arith, scan_digits-le 65535 0 (c ∷ d ∷ s) m (omega arith) (rw t at e))
]
