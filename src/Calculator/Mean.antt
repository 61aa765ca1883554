-- ===== src/Calculator/Mean.antt =====
-- The value of a scored result under the systems `average`, `weighted` and `worst`.
use mathlib.Core.List.{Memᴰ}
use mathlib.Core.Option.{some-injective}
use cnspec.Calculator
use cnspec.Calculator.{
  Impact, ScoreType, Option, Score, some, if◌then◌else◌, Bool, ScoringSystem, ℕ, Float64,
  Calculator, average, weighted, worst,
}
use cnspec.Calculator.Average
use cnspec.Calculator.Weighted
use cnspec.Calculator.Worst
use cnspec.Calculator.Order.{Entry, add_entry}
use cnspec.Calculator.Load.{added, sum}
use cnspec.Calculator.Value.{
  value_of, count_of, weight_of, weighted_value_of, rated, RankedAt, AtMost, average-fold,
  weighted-fold, worst-fold, fold-average, fold-weighted, fold-worst,
}
use cnspec.Common.{
  ap, ◌∙◌, [], sym, ◌∷◌, length, ◌⊎◌, arith, All, ◌≤◌, word, refl, ◌<◌, ◌/◌, ◌==◌, ◌≡◌, List,
  if◌then◌else◌,
}
use cnspec.Calculator.Summary.{scored_value}
use cnspec.Common.Order.{fold}
use cnspec.Calculator.Completion.{result-value}

-- The systems that `NewScoreCalculator` gives the plain average to.
pub data IsAveraging : ScoringSystem → Type 0 where
  by_default : IsAveraging ScoringSystem.scoring_unspecified
  by_name : IsAveraging ScoringSystem.average
  data_only : IsAveraging ScoringSystem.data_only

-- Integer division, with 0 where nothing is counted.
abbrev pub mean : ℕ → ℕ → ℕ
mean total cnt = if cnt == 0 then 0 else total / cnt

module _ (f : Float64) (flag : Bool) where
  new-average :
      (system : ScoringSystem)
      → IsAveraging system
      → Calculator.new_score_calculator f system flag
        ≡ some (average (Average.init (Average.zero_value flag)))
  unfolding Calculator.new_score_calculator
  new-average _ by_default = refl
  new-average _ by_name = refl
  new-average _ data_only = refl

  new-weighted :
      Calculator.new_score_calculator f ScoringSystem.weighted flag
      ≡ some (weighted (Weighted.init (Weighted.zero_value flag)))
  unfolding Calculator.new_score_calculator
  new-weighted = refl

  new-worst :
      Calculator.new_score_calculator f ScoringSystem.worst flag
      ≡ some (worst (Worst.init (Worst.zero_value flag)))
  unfolding Calculator.new_score_calculator
  new-worst = refl

  count_of-le : (s : Score) (i : Option Impact) → count_of flag s i ≤ 1
  unfolding rated
  count_of-le s i = ground arith

  sum-count_of-le : (k : List Entry) → sum (count_of flag) k ≤ length k
  sum-count_of-le [] = omega arith
  sum-count_of-le (e ∷ k) = omega (arith, count_of-le (added e).0 (added e).1, sum-count_of-le k)

  module _ (k : List Entry) where
    average-value :
        sum (value_of flag) k < word
        → sum (count_of flag) k < word
        → scored_value f (fold (add_entry f) (average (Average.init (Average.zero_value flag))) k)
          ≡ mean (sum (value_of flag) k) (sum (count_of flag) k)
    unfolding scored_value Average.init
    average-value small few =
        let (v, n) =
          average-fold flag k (Average.init (Average.zero_value flag)) refl (omega arith)
            (omega arith) in
        rw (fold-average f k (Average.init (Average.zero_value flag))) (ground arith)

    weighted-value :
        sum (weighted_value_of flag) k < word
        → sum (weight_of flag) k < word
        → scored_value f
            (fold (add_entry f) (weighted (Weighted.init (Weighted.zero_value flag))) k)
          ≡ mean (sum (weighted_value_of flag) k) (sum (weight_of flag) k)
    unfolding scored_value Weighted.init
    weighted-value small few =
        let (v, n) =
          weighted-fold flag k (Weighted.init (Weighted.zero_value flag)) refl (omega arith)
            (omega arith) in
        rw (fold-weighted f k (Weighted.init (Weighted.zero_value flag))) (ground arith)

    worst-value :
        let v =
          scored_value f (fold (add_entry f) (worst (Worst.init (Worst.zero_value flag))) k) in
        (v ≤ 100)
        × All (AtMost flag v) k
        × ((v ≡ 100) ⊎ ((e : Entry) × Memᴰ e k × RankedAt flag v e))
    unfolding scored_value Worst.init
    worst-value =
        rw (fold-worst f k (Worst.init (Worst.zero_value flag))) (worst-fold flag k _ refl)

module _ (f : Float64) (flag : Bool) (k : List Entry) (r : Score) (lt : length k < word) where
  -- Under the default system, `average` and `data_only` the value of a scored result is the sum
  -- of the values of the rated children, divided by their number and rounded down, if these sums
  -- stay below 2^32.
  pub average_mean :
      (system : ScoringSystem) (c : Calculator f)
      → IsAveraging system
      → Calculator.new_score_calculator f system flag ≡ some c
      → sum (value_of flag) k < word
      → Calculator.calculate f (fold (add_entry f) c k) ≡ some r
      → r.type ≡ ScoreType.result
      → r.value ≡ mean (sum (value_of flag) k) (sum (count_of flag) k)
  average_mean system c av new small e scored =
      let same = some-injective _ _ (sym new ∙ new-average f flag system av) in
      result-value f system flag c new k r lt e scored
      ∙ ap (λ (x : Calculator f). scored_value f (fold (add_entry f) x k)) same
      ∙ average-value f flag k small (omega (arith, sum-count_of-le f flag k))

  -- Under `weighted` the value of a scored result is the sum of value times weight over the rated
  -- children, divided by the sum of their weights, if these sums stay below 2^32.
  pub weighted_mean :
      (c : Calculator f)
      → Calculator.new_score_calculator f ScoringSystem.weighted flag ≡ some c
      → sum (weighted_value_of flag) k < word
      → sum (weight_of flag) k < word
      → Calculator.calculate f (fold (add_entry f) c k) ≡ some r
      → r.type ≡ ScoreType.result
      → r.value ≡ mean (sum (weighted_value_of flag) k) (sum (weight_of flag) k)
  weighted_mean c new small few e scored =
      let same = some-injective _ _ (sym new ∙ new-weighted f flag) in
      result-value f ScoringSystem.weighted flag c new k r lt e scored
      ∙ ap (λ (x : Calculator f). scored_value f (fold (add_entry f) x k)) same
      ∙ weighted-value f flag k small few

  -- Under `worst` the value of a scored result is the least value of a rated child with a weight,
  -- and 100 if there is none: it is at most 100 and at most the value of each such child, and it
  -- is 100 or the value of one of them.
  pub worst_least :
      (c : Calculator f)
      → Calculator.new_score_calculator f ScoringSystem.worst flag ≡ some c
      → Calculator.calculate f (fold (add_entry f) c k) ≡ some r
      → r.type ≡ ScoreType.result
      → (r.value ≤ 100)
        × All (AtMost flag r.value) k
        × ((r.value ≡ 100) ⊎ ((e : Entry) × Memᴰ e k × RankedAt flag r.value e))
  worst_least c new e scored =
      let same = some-injective _ _ (sym new ∙ new-worst f flag) in
      let value =
        result-value f ScoringSystem.worst flag c new k r lt e scored
        ∙ ap (λ (x : Calculator f). scored_value f (fold (add_entry f) x k)) same in
      rw value (worst-value f flag k)
