-- ===== src/Calculator/Bands.antt =====
-- The value of the banded calculator: which range it lies in, by the worst band that has a failing
-- check. Floating-point arithmetic enters through laws that IEEE 754 rounding satisfies.
use mathlib.Core.Path.{subst}
use cnspec.Calculator.Float.{Float64, of_ℕ}
use cnspec.Calculator.Banded.{
  Bands, Band, banded_value, passing, pcr_low, pcr_mid, pcr_high, pcr_crit, file_weight,
}
use cnspec.Common.{
  sub32, inr, inl, ◌∙◌, ◌==◌, ◌≢◌, ap, Bool-cases, ◌≡◌, arith, word, ◌+◌, ◌<◌, ◌*◌, ◌≤◌, ℕ,
}
use cnspec.Score.{Score}

-- Rounding is monotone on the numbers from 0 to 2^32, integers below 2^32 are exact, and the floor
-- of a number from 0 up to such an integer is at most that integer. `le` is the order of floats.
pub record FloatLaws (f : Float64) : Type 1 where
  pub le : f.Carrier → f.Carrier → Type 0
  pub le_trans : (x y z : f.Carrier) → le x y → le y z → le x z
  pub of_ℕ-le : (m n : ℕ) → m ≤ n → n ≤ word → le (of_ℕ f m) (of_ℕ f n)
  pub add_mono :
      (w x y z : f.Carrier)
      → le (of_ℕ f 0) w
      → le (of_ℕ f 0) y
      → le x (of_ℕ f word)
      → le z (of_ℕ f word)
      → le w x
      → le y z
      → le (f.add w y) (f.add x z)
  pub mul_mono :
      (w x y z : f.Carrier)
      → le (of_ℕ f 0) w
      → le (of_ℕ f 0) y
      → le x (of_ℕ f word)
      → le z (of_ℕ f word)
      → le w x
      → le y z
      → le (f.mul w y) (f.mul x z)
  pub div_mono :
      (x y : f.Carrier) (n : ℕ)
      → 0 < n
      → n < word
      → le x y
      → le (f.div x (of_ℕ f n)) (f.div y (of_ℕ f n))
  pub add_exact : (m n : ℕ) → m + n < word → f.add (of_ℕ f m) (of_ℕ f n) ≡ of_ℕ f (m + n)
  pub mul_exact :
      (m n : ℕ) → m < word → n < word → m * n < word → f.mul (of_ℕ f m) (of_ℕ f n) ≡ of_ℕ f (m * n)
  pub div_exact :
      (m n : ℕ) → 0 < n → n < word → m * n < word → f.div (of_ℕ f (m * n)) (of_ℕ f n) ≡ of_ℕ f m
  pub floor_le :
      (x : f.Carrier) (n : ℕ) → n < word → le (of_ℕ f 0) x → le x (of_ℕ f n) → f.floor_u32 x ≤ n

-- No band has more failing weight than weight.
pub record IsFiled (n : ℕ) (b : Bands) : Type 0 where
  pub crit_fits : (b.crit ≤ b.crit_max) × (b.crit_max ≤ n)
  pub high_fits : (b.high ≤ b.high_max) × (b.high_max ≤ n)
  pub mid_fits : (b.mid ≤ b.mid_max) × (b.mid_max ≤ n)
  pub low_fits : (b.low ≤ b.low_max) × (b.low_max ≤ n)

pub file_weight-IsFiled :
    (n : ℕ) (k : Band) (b : Bands) (s : Score)
    → IsFiled n b
    → n + s.weight < word
    → IsFiled (n + s.weight) (file_weight k b s)
unfolding file_weight
file_weight-IsFiled n Band.critical b s h lt = ground arith
file_weight-IsFiled n _ b s h lt = ground arith

module _ (f : Float64) (laws : FloatLaws f) where
  open laws use {
    le, le_trans, of_ℕ-le, add_mono, mul_mono, div_mono, add_exact, mul_exact, div_exact, floor_le,
  }

  -- The number lies between m and n.
  abbrev Between : ℕ → ℕ → f.Carrier → Type 0
  Between m n x = le (of_ℕ f m) x × le x (of_ℕ f n)

  of_ℕ-Between : (m n k : ℕ) → m ≤ k → k ≤ n → n ≤ word → Between m n (of_ℕ f k)
  of_ℕ-Between m n k h e lt = (of_ℕ-le m k h (omega arith), of_ℕ-le k n e lt)

  -- A number up to n is one up to 2^32.
  capped : (n : ℕ) (x : f.Carrier) → n ≤ word → le x (of_ℕ f n) → le x (of_ℕ f word)
  capped n x lt h = le_trans _ _ _ h (of_ℕ-le n word lt (omega arith))

  exact : (k : ℕ) → k < word → le (of_ℕ f k) (of_ℕ f k)
  exact k lt = of_ℕ-le k k (omega arith) (omega arith)

  mul-Between :
      (m n : ℕ) (x y : f.Carrier)
      → m < word
      → n < word
      → m * n < word
      → Between 0 m x
      → Between 0 n y
      → Between 0 (m * n) (f.mul x y)
  mul-Between m n x y ml nl lt h k =
      let zero_low : le (of_ℕ f 0) (of_ℕ f 0) = exact 0 (omega arith) in
      let cap_x = capped m x (omega arith) h.1 in
      let cap_y = capped n y (omega arith) k.1 in
      (
        subst (λ z. le z (f.mul x y)) (mul_exact 0 0 (omega arith) (omega arith) (omega arith))
            (mul_mono _ x _ y zero_low zero_low cap_x cap_y h.0 k.0),
        subst (λ z. le (f.mul x y) z) (mul_exact m n ml nl lt)
            (mul_mono x _ y _ h.0 k.0 (capped m _ (omega arith) (exact m ml))
              (capped n _ (omega arith) (exact n nl)) h.1 k.1),
      )

  div-Between :
      (m n : ℕ) (x : f.Carrier)
      → 0 < n
      → n < word
      → m * n < word
      → Between 0 (m * n) x
      → Between 0 m (f.div x (of_ℕ f n))
  div-Between m n x pos small lt h =
      let none_of_it : 0 ≡ 0 * n = omega arith in
      (
        subst (λ z. le z (f.div x (of_ℕ f n)))
            (ap (λ (t : ℕ). f.div (of_ℕ f t) (of_ℕ f n)) none_of_it
              ∙ div_exact 0 n pos small (omega arith))
            (div_mono _ x n pos small h.0),
        subst (λ z. le (f.div x (of_ℕ f n)) z) (div_exact m n pos small lt)
            (div_mono x _ n pos small h.1),
      )

  passing-Between :
      (all failed : ℕ) → failed ≤ all → all < word → Between 0 1 (passing f all failed)
  unfolding passing
  passing-Between all failed h lt = elim (Bool-cases (all == 0)) [
    | inl empty ↦ rw empty (of_ℕ-Between 0 1 1 (omega arith) (omega arith) (omega arith))
    | inr filled ↦ rw filled (
        div-Between 1 all (of_ℕ f (sub32 all failed)) (ground arith) lt (omega arith)
          (of_ℕ-Between 0 (1 * all) (sub32 all failed) (omega arith) (omega arith) (omega arith)))
  ]

  add-Between :
      (m n : ℕ) (x : f.Carrier)
      → m + n < word
      → Between 0 n x
      → Between 0 (m + n) (f.add (of_ℕ f m) x)
  add-Between m n x lt h =
      let whole : 0 ≤ m + 0 = omega arith in
      let at_m : le (of_ℕ f m) (of_ℕ f m) = exact m (omega arith) in
      let cap_m = capped m _ (omega arith) at_m in
      let low_m = of_ℕ-le 0 m (omega arith) (omega arith) in
      let low : le (of_ℕ f 0) (of_ℕ f 0) = exact 0 (omega arith) in
      (
        le_trans _ _ _ (of_ℕ-le 0 (m + 0) whole (omega arith)) (
            subst (λ z. le z (f.add (of_ℕ f m) x)) (add_exact m 0 (omega arith))
              (add_mono _ _ _ x low_m low cap_m (capped n x (omega arith) h.1) at_m h.0)),
        subst (λ z. le (f.add (of_ℕ f m) x) z) (add_exact m n lt)
            (add_mono _ _ x _ low_m h.0 cap_m (capped n _ (omega arith) (exact n (omega arith)))
              at_m h.1),
      )

  module _ (n : ℕ) (b : Bands) (h : IsFiled n b) (lt : n < word) where
    pcr_low-Between : Between 0 1 (pcr_low f b)
    unfolding pcr_low
    pcr_low-Between = passing-Between b.low_max b.low h.low_fits.0 (omega arith)

    pcr_mid-Between : Between 0 1 (pcr_mid f b)
    unfolding pcr_mid
    pcr_mid-Between =
        mul-Between 1 1 _ _ (omega arith) (omega arith) (omega arith)
          (div-Between 1 4 _ (omega arith) (omega arith) (omega arith)
            (add-Between 3 1 _ (omega arith) pcr_low-Between))
          (passing-Between b.mid_max b.mid h.mid_fits.0 (omega arith))

    pcr_high-Between : Between 0 1 (pcr_high f b)
    unfolding pcr_high
    pcr_high-Between =
        mul-Between 1 1 _ _ (omega arith) (omega arith) (omega arith)
          (div-Between 1 2 _ (omega arith) (omega arith) (omega arith)
            (add-Between 1 1 _ (omega arith) pcr_mid-Between))
          (passing-Between b.high_max b.high h.high_fits.0 (omega arith))

    pcr_crit-Between : Between 0 1 (pcr_crit f b)
    unfolding pcr_crit
    pcr_crit-Between =
        mul-Between 1 1 _ _ (omega arith) (omega arith) (omega arith)
          (div-Between 1 5 _ (omega arith) (omega arith) (omega arith) (
            add-Between 1 4 _ (omega arith) (
              mul-Between 4 1 _ _ (omega arith) (omega arith) (omega arith)
                (of_ℕ-Between 0 4 4 (omega arith) (omega arith) (omega arith)) pcr_high-Between)))
          (passing-Between b.crit_max b.crit h.crit_fits.0 (omega arith))

    share-le :
        (m : ℕ) (p : f.Carrier)
        → m * 1 < word
        → Between 0 1 p
        → f.floor_u32 (f.mul (of_ℕ f m) p) ≤ m * 1
    share-le m p small k =
        let whole =
          mul-Between m 1 (of_ℕ f m) p (omega arith) (omega arith) small
            (of_ℕ-Between 0 m m (omega arith) (omega arith) (omega arith)) k in
        floor_le _ (m * 1) small whole.0 whole.1

    -- The value of the bands: at most 50 if a critical check fails, else from 10 to 60 if a high one
    -- does, else from 30 to 80 if a medium one does, else from 60 to 100 if a low one does, and 100 if
    -- none fails.
    pub banded_value-ranges :
        let v = banded_value f b in
        (b.crit ≢ 0 → v ≤ 50)
        × (b.crit ≡ 0 → b.high ≢ 0 → (10 ≤ v) × (v ≤ 60))
        × (b.crit ≡ 0 → b.high ≡ 0 → b.mid ≢ 0 → (30 ≤ v) × (v ≤ 80))
        × (b.crit ≡ 0 → b.high ≡ 0 → b.mid ≡ 0 → b.low ≢ 0 → (60 ≤ v) × (v ≤ 100))
        × (b.crit ≡ 0 → b.high ≡ 0 → b.mid ≡ 0 → b.low ≡ 0 → v ≡ 100)
    unfolding banded_value
    banded_value-ranges =
        let crit = share-le 50 (pcr_crit f b) (omega arith) pcr_crit-Between in
        let high = share-le 50 (pcr_high f b) (omega arith) pcr_high-Between in
        let mid = share-le 50 (pcr_mid f b) (omega arith) pcr_mid-Between in
        let low = share-le 40 (pcr_low f b) (omega arith) pcr_low-Between in ground arith
