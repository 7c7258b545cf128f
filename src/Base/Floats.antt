-- ===== src/Base/Floats.antt =====
-- Rust's `f64`, which the program computes two figures with: the jitter of a latency distribution
-- and a success rate. The type and its operations are a parameter.
use ip_tools.Base.Strings.{Text}
use Prim.Native.Nat.{ℕ}

pub record Float : Type 1 where
  pub F : Type 0
  pub zero_f : F
  pub of_ℕ : ℕ → F
  pub add_f : F → F → F
  pub sub_f : F → F → F
  pub mul_f : F → F → F
  pub div_f : F → F → F
  pub sqrt_f : F → F
  -- `as u64`: towards zero, and saturating
  pub to_u64 : F → ℕ
  -- `{:.1}`
  pub fixed1 : F → Text
