-- ===== src/Base/Tests.antt =====
-- `from_utf8_lossy` at sample bytes, and numbers for the examples of the other modules.
use Prim.Native.Nat.{ℕ, ◌+◌, ◌-◌, ◌*◌, ◌/◌}
use ip_tools.Base.Floats.{Float}
use ip_tools.Base.Strings.{decimal}
use mathlib.Core.Path.{◌≡◌, refl}
use mathlib.Core.List.{[], ◌∷◌, ◌++◌}
use ip_tools.Base.Utf8.{replacement, from_utf8_lossy}

lossy_test :
    (from_utf8_lossy (0x61 ∷ 0xFF ∷ 0x62 ∷ []) ≡ 0x61 ∷ replacement ++ 0x62 ∷ [])
    × (from_utf8_lossy (0xC3 ∷ 0xA9 ∷ []) ≡ 0xC3 ∷ 0xA9 ∷ [])
    × (from_utf8_lossy (0xE2 ∷ 0x82 ∷ 0x41 ∷ []) ≡ replacement ++ 0x41 ∷ [])
unfolding from_utf8_lossy
lossy_test = (refl, refl, refl)

-- Whole numbers in place of `f64`.
abbrev pub naturals : Float
naturals = record {
  F = ℕ;
  zero_f = 0;
  of_ℕ = λ n. n;
  add_f = λ a b. a + b;
  sub_f = λ a b. a - b;
  mul_f = λ a b. a * b;
  div_f = λ a b. a / b;
  sqrt_f = λ a. a;
  to_u64 = λ a. a;
  fixed1 = decimal;
}
