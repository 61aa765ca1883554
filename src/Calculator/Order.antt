-- ===== src/Calculator/Order.antt =====
-- The order in which scores are added does not matter to a calculator that counts in integers.
use cnspec.Common.{ℕ, Bool, Option, some, ◌≡◌, ◌≢◌, refl, arith, ap}
use cnspec.Score.{Score}
use cnspec.Impact.{Impact, ScoringSystem}
use cnspec.Calculator
use cnspec.Calculator.{Calculator, average, weighted, worst, banded, decayed}
use cnspec.Calculator.Average
use cnspec.Calculator.Weighted
use cnspec.Calculator.Worst
use cnspec.Calculator.Worst.{lower_value}
use cnspec.Calculator.Banded
use cnspec.Calculator.Banded.{Band, Bands, band_of, category, file_weight}
use cnspec.Calculator.Float.{Float64}

module _ (s t : Score) where
  lower_value_comm : (v : ℕ) → lower_value (lower_value v s) t ≡ lower_value (lower_value v t) s
  unfolding lower_value
  lower_value_comm v = ground arith

  file_comm :
      (k l : Band) (b : Bands)
      → file_weight l (file_weight k b s) t ≡ file_weight k (file_weight l b t) s
  unfolding file_weight
  file_comm Band.critical l b = ground arith
  file_comm _ l b = ground arith

  module _ (i j : Option Impact) where
    average_comm :
        (c : Average.Average)
        → Average.add (Average.add c s i) t j ≡ Average.add (Average.add c t j) s i
    unfolding Average.add
    average_comm c = ground arith

    weighted_comm :
        (c : Weighted.Weighted)
        → Weighted.add (Weighted.add c s i) t j ≡ Weighted.add (Weighted.add c t j) s i
    unfolding Weighted.add
    weighted_comm c = ground arith

    worst_comm :
        (c : Worst.Worst) → Worst.add (Worst.add c s i) t j ≡ Worst.add (Worst.add c t j) s i
    unfolding Worst.add
    worst_comm c = ground (arith, lower_value_comm c.value)

    banded_comm :
        (c : Banded.Banded) → Banded.add (Banded.add c s i) t j ≡ Banded.add (Banded.add c t j) s i
    unfolding Banded.add
    banded_comm c = ground (
      arith,
      lower_value_comm c.value,
      file_comm (band_of (category i)) (band_of (category j)) c.bands,
    )

-- The decayed calculator adds floating-point numbers, so its sums may depend on the order.
abbrev pub IsExact : {f : Float64} → Calculator f → Type 0
IsExact (decayed c) = ⊥
IsExact _ = Unit

-- A child of a reporting job: its score, whether it was found, and the impact of the edge.
abbrev pub Entry : Type 0
Entry = record { score : Score; found : Bool; impact : Option Impact }

module _ (f : Float64) where
  -- The loop over the children.
  unfoldable pub add_entry : Calculator f → Entry → Calculator f
  add_entry c e = Calculator.add_specd_score f c e.score e.found e.impact

  pub add_comm :
      (c : Calculator f) (s t : Score) (i j : Option Impact)
      → IsExact c
      → Calculator.add f (Calculator.add f c s i) t j
        ≡ Calculator.add f (Calculator.add f c t j) s i
  unfolding Calculator.add
  add_comm (average c) s t i j h = ap average (average_comm s t i j c)
  add_comm (weighted c) s t i j h = ap weighted (weighted_comm s t i j c)
  add_comm (worst c) s t i j h = ap worst (worst_comm s t i j c)
  add_comm (banded c) s t i j h = ap banded (banded_comm s t i j c)
  add_comm (decayed c) s t i j h = absurd h

  pub add-IsExact :
      (c : Calculator f) (s : Score) (i : Option Impact)
      → IsExact c
      → IsExact (Calculator.add f c s i)
  unfolding Calculator.add
  add-IsExact (decayed c) s i h = h
  add-IsExact _ s i h = h

  pub new-IsExact :
      (system : ScoringSystem) (flag : Bool) (c : Calculator f)
      → Calculator.new_score_calculator f system flag ≡ some c
      → system ≢ ScoringSystem.decayed
      → IsExact c
  unfolding Calculator.new_score_calculator
  new-IsExact ScoringSystem.decayed flag c e ne = absurd (ne refl)
  new-IsExact _ flag (decayed c) e ne = cc
  new-IsExact _ flag _ e ne = tt
