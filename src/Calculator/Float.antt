-- ===== src/Calculator/Float.antt =====
-- Go's `float64`, as far as the banded and the decayed calculator use it. Floating-point hardware
-- is not part of the source, so the type and its operations are parameters.
use cnspec.Common.{ℕ, Bool, ℤ, pos}

pub record Float64 : Type 1 where
  pub Carrier : Type 0
  pub of_ℤ : ℤ → Carrier
  pub add : Carrier → Carrier → Carrier
  pub sub : Carrier → Carrier → Carrier
  pub mul : Carrier → Carrier → Carrier
  pub div : Carrier → Carrier → Carrier
  pub neg : Carrier → Carrier
  pub exp : Carrier → Carrier
  pub is_zero : Carrier → Bool
  -- uint32(math.Floor(x))
  pub floor_u32 : Carrier → ℕ

-- float64(n) for a `uint32` or a constant.
abbrev pub of_ℕ : (f : Float64) → ℕ → f.Carrier
of_ℕ f n = f.of_ℤ (pos n)
