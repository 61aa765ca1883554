-- ===== src/Calculator/Summary.antt =====
-- What the five calculators agree on: everything but the value of the score. `step` and `summary`
-- describe it once; `Add` and `Calculate` of each calculator implement them.
use cnspec.Common.{
  ℕ, suc, ◌+◌, ◌/◌, ◌≤◌, ◌<◌, Bool, true, Option, some, ◌≡◌, arith, word, ◌==◌, if◌then◌else◌,
}
use cnspec.Score.{Score, ScoreType}
use cnspec.Impact.{Impact}
use cnspec.Calculator
use cnspec.Calculator.{Calculator, average, weighted, worst, banded, decayed}
use cnspec.Calculator.Tally
use cnspec.Calculator.Tally.{
  Tally, add_data, add_completion, add_result, mark_error, is_ignored, unscored_result,
}
use cnspec.Calculator.Float.{Float64}

step_typed : ScoreType → Bool → Tally → Score → Option Impact → Tally
unfolding add_data add_completion add_result
step_typed ScoreType.skip flag t s i = t
step_typed ScoreType.disabled flag t s i = t
step_typed ScoreType.out_of_scope flag t s i = t
step_typed ScoreType.unscored flag t s i = add_data t s
step_typed ScoreType.result flag t s i = if is_ignored i then t else add_result t s
step_typed ScoreType.error flag t s i =
    let t' = mark_error t in if flag then add_result t' s else add_completion t' s
step_typed _ flag t s i = add_completion t s

-- What one call of `Add` does to the shared fields.
unfoldable pub step : Bool → Tally → Score → Option Impact → Tally
unfolding step_typed
step flag t s i = step_typed s.type flag t s i

-- The result without its value.
unfoldable pub summary : Tally → Score
unfolding unscored_result
summary t =
    if t.has_results
    then record (unscored_result t) {
      type = ScoreType.result;
      score_completion = t.score_completion / t.score_total;
      weight = t.weight;
    }
    else if t.has_errors
    then record (unscored_result t) { type = ScoreType.error }
    else unscored_result t

module _ (f : Float64) where
  unfoldable pub tally : Calculator f → Tally
  tally (average c) = c.tally
  tally (weighted c) = c.tally
  tally (worst c) = c.tally
  tally (banded c) = c.tally
  tally (decayed c) = c.tally

  unfoldable pub fail_errors : Calculator f → Bool
  fail_errors (average c) = c.fail_errors
  fail_errors (weighted c) = c.fail_errors
  fail_errors (worst c) = c.fail_errors
  fail_errors (banded c) = c.fail_errors
  fail_errors (decayed c) = c.fail_errors

  pub add-step :
      (c : Calculator f) (s : Score) (i : Option Impact)
      → (tally (Calculator.add f c s i) ≡ step (fail_errors c) (tally c) s i)
        × (fail_errors (Calculator.add f c s i) ≡ fail_errors c)
  unfolding tally fail_errors step Calculator.add Calculator.Average.add Calculator.Weighted.add
      Calculator.Worst.add Calculator.Banded.add Calculator.Decayed.add
  add-step (average c) s i = ground arith
  add-step (weighted c) s i = ground arith
  add-step (worst c) s i = ground arith
  add-step (banded c) s i = ground arith
  add-step (decayed c) s i = ground arith

abbrev quotient : ℕ → ℕ → ℕ
quotient total cnt = if cnt == 0 then 0 else total / cnt

module _ (f : Float64) where
  -- The value that a scored result gets.
  unfoldable pub scored_value : Calculator f → ℕ
  scored_value (average c) = quotient c.value c.score_cnt
  scored_value (weighted c) = quotient c.value c.score_cnt
  scored_value (worst c) = c.value
  scored_value (banded c) = Calculator.Banded.banded_value f c.bands
  scored_value (decayed c) = Calculator.Decayed.decayed_value f c

-- `n` calls of `Add` have been made, and a result or an error has been counted.
pub record IsCounted (n : ℕ) (t : Tally) : Type 0 where
  pub total-le : t.score_total ≤ n
  pub results : t.has_results ≡ true → 0 < t.score_total
  pub errors : t.has_errors ≡ true → 0 < t.score_total

pub empty-IsCounted : IsCounted 0 Tally.empty
empty-IsCounted = ground arith

pub step-IsCounted :
    (flag : Bool) (n : ℕ) (t : Tally) (s : Score) (i : Option Impact)
    → IsCounted n t
    → n + 1 < word
    → IsCounted (suc n) (step flag t s i)
unfolding step
step-IsCounted flag n t s i h lt = ground arith

module _ (f : Float64) where
  -- `Calculate` does not panic, and its result is the summary with the value of the calculator.
  pub calculate-summary :
      (c : Calculator f) (n : ℕ)
      → IsCounted n (tally f c)
      → Calculator.calculate f c
        ≡ some (record (summary (tally f c)) {
          value = if (tally f c).has_results then scored_value f c else 0;
        })
  unfolding tally scored_value summary Calculator.calculate Calculator.Average.calculate
      Calculator.Weighted.calculate Calculator.Worst.calculate Calculator.Banded.calculate
      Calculator.Decayed.calculate
  calculate-summary (average c) n h = ground arith
  calculate-summary (weighted c) n h = ground arith
  calculate-summary (worst c) n h = ground arith
  calculate-summary (banded c) n h = ground arith
  calculate-summary (decayed c) n h = ground arith
