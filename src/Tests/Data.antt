-- ===== src/Tests/Data.antt =====
-- Inputs for the tests. The naturals stand for the floats: all the laws of rounding hold of them.
use native.Mathlib.Nat.{mul-div_cancel, le-div_iff_mul-le, div-mul-le_self}
use cnspec.Score.{Score, ScoreType, zero_score}
use cnspec.Calculator.Order.{Entry}
use cnspec.Calculator.Float.{Float64}
use cnspec.Calculator.Bands.{FloatLaws}
use cnspec.Common.{
  ◌==◌, refl, ◌/◌, ◌-◌, negsuc, [], ◌∷◌, ◌*◌, ◌<◌, ◌+◌, pos, none, arith, ◌≤◌, ℤ, true, List, ℕ,
}

abbrev to_natural : ℤ → ℕ
to_natural (pos n) = n
to_natural (negsuc n) = 0

abbrev pub naturals : Float64
naturals = record {
  Carrier = ℕ;
  of_ℤ = to_natural;
  add = λ x y. x + y;
  sub = λ x y. x - y;
  mul = λ x y. x * y;
  div = λ x y. x / y;
  neg = λ x. 0;
  exp = λ x. 1;
  is_zero = λ x. x == 0;
  floor_u32 = λ x. x;
}

div_mono : (x y n : ℕ) → 0 < n → x ≤ y → x / n ≤ y / n
div_mono x y n some_n h = (le-div_iff_mul-le some_n).1 (omega (arith, div-mul-le_self x n))

mul_mono : (w x y z : ℕ) → w ≤ x → y ≤ z → w * y ≤ x * z
mul_mono w x y z h k = grind arith

pub naturals_laws : FloatLaws naturals
naturals_laws = record {
  le = λ x y. x ≤ y;
  le_trans = λ x y z h k. omega arith;
  of_ℕ-le = λ m n h _. h;
  add_mono = λ w x y z _ _ _ _ h k. omega arith;
  mul_mono = λ w x y z _ _ _ _ h k. mul_mono w x y z h k;
  div_mono = λ x y n h _ k. div_mono x y n h k;
  add_exact = λ m n h. refl;
  mul_exact = λ m n _ _ _. refl;
  div_exact = λ m n h _ _. mul-div_cancel m h;
  floor_le = λ x n h k l. l;
}

-- A complete result with one datapoint.
abbrev pub scored : ℕ → ℕ → Score
scored v w = record zero_score {
  qr_id = "check";
  type = ScoreType.result;
  value = v;
  weight = w;
  score_completion = 100;
  data_completion = 100;
  data_total = 1;
}

abbrev pub entry : Score → Entry
entry s = record { score = s; found = true; impact = none }

-- A passing check of weight 1 and a failing one of weight 3.
abbrev pub two_checks : List Entry
two_checks = entry (scored 100 1) ∷ entry (scored 40 3) ∷ []

abbrev pub result_of : ℕ → Score
result_of v = record zero_score {
  type = ScoreType.result;
  value = v;
  weight = 4;
  score_completion = 100;
  data_completion = 100;
  data_total = 2;
}
