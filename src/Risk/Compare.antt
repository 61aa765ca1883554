-- ===== src/Risk/Compare.antt =====
-- Three-way comparisons as Go writes them: a negative, zero or positive integer, and what a
-- comparison has to satisfy to order a list.
use cnspec.Common.{
  refl, suc, ◌&&◌, not, ◌||◌, arith, ℤ, pos, zero, negsuc, Bool, true, false, is_pos, ◌≡◌, List, [],
  ◌∷◌, All,
}

-- The test `v < 0` of the source.
abbrev pub is_neg : ℤ → Bool
is_neg (pos n) = false
is_neg (negsuc n) = true

-- `first`, and `second` where `first` is zero.
abbrev pub either : ℤ → ℤ → ℤ
either (pos zero) second = second
either first second = first

module _ {ℓ} {T : Type ℓ} (cmp : T → T → ℤ) where
  pub record IsComparison : Type ℓ where
    pub swap : (a b : T) → is_neg (cmp a b) ≡ is_pos (cmp b a)
    pub trans :
        (a b c : T) → is_pos (cmp a b) ≡ false → is_pos (cmp b c) ≡ false → is_pos (cmp a c) ≡ false

  -- `a` may stand before `b`.
  abbrev pub Before : T → T → Type 0
  Before a b = is_pos (cmp a b) ≡ false

  abbrev pub Sorted : List T → Type ℓ
  Sorted [] = Unit
  Sorted (x ∷ xs) = All (Before x) xs × Sorted xs

is_pos-either : (u v : ℤ) → is_pos (either u v) ≡ (is_pos u || (not (is_neg u) && is_pos v))
is_pos-either (pos zero) v = refl
is_pos-either (pos (suc n)) v = ground arith
is_pos-either (negsuc n) v = refl

is_neg-either : (u v : ℤ) → is_neg (either u v) ≡ (is_neg u || (not (is_pos u) && is_neg v))
is_neg-either (pos zero) v = refl
is_neg-either (pos (suc n)) v = ground arith
is_neg-either (negsuc n) v = refl

-- Comparing by one key and then by another is a comparison.
module _ {ℓ} {T : Type ℓ} (c d : T → T → ℤ) (first : IsComparison c) (second : IsComparison d) where
  pub either-IsComparison : IsComparison (λ a b. either (c a b) (d a b))
  either-IsComparison = record {
    swap = λ a b. ground (
      arith,
      is_neg-either (c a b) (d a b),
      is_pos-either (c b a) (d b a),
      first.swap a b,
      first.swap b a,
      second.swap a b,
    );
    trans = λ x y z h k. ground (
      arith,
      is_pos-either (c x y) (d x y),
      is_pos-either (c y z) (d y z),
      is_pos-either (c x z) (d x z),
      first.swap x y,
      first.swap y x,
      first.swap y z,
      first.swap z y,
      first.swap x z,
      first.swap z x,
      first.trans x y z,
      first.trans z x y,
      first.trans y z x,
      second.trans x y z,
    );
  }
