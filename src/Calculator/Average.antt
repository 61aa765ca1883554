-- ===== src/Calculator/Average.antt =====
-- The `averageScoreCalculator` of policy/score_calculator.go.
use cnspec.Common.{ℕ, ◌+◌, ◌/◌, Bool, Option, none, some, u32, div?, ◌==◌, if◌then◌else◌}
use cnspec.Score.{Score, ScoreType}
use cnspec.Impact.{Impact}
use cnspec.Calculator.Tally
use cnspec.Calculator.Tally.{
  Tally, add_data, add_completion, add_result, mark_error, is_ignored, unscored_result,
  without_results,
}

pub record Average : Type 0 where
  pub tally : Tally
  pub value : ℕ
  pub score_cnt : ℕ
  pub fail_errors : Bool

-- `&averageScoreCalculator{featureFlagFailErrors: flag}`
abbrev pub zero_value : Bool → Average
zero_value flag = record { tally = Tally.empty; value = 0; score_cnt = 0; fail_errors = flag }

-- `Init`
unfoldable pub init : Average → Average
init c = record c { tally = Tally.empty; value = 0; score_cnt = 0 }

-- A score that counts: the body of `case ScoreType_Result`.
count : Average → Score → Average
unfolding add_result
count c s =
    let t = add_result c.tally s in
    if s.score_completion == 0
    then record c { tally = t }
    else record c { tally = t; score_cnt = u32 (c.score_cnt + 1); value = u32 (c.value + s.value) }

-- A score that is complete or not, and has no value: the `default` case.
note : Average → Score → Average
unfolding add_completion
note c s = record c { tally = add_completion c.tally s }

add_typed : ScoreType → Average → Score → Option Impact → Average
unfolding count note add_data
add_typed ScoreType.skip c s i = c
add_typed ScoreType.disabled c s i = c
add_typed ScoreType.out_of_scope c s i = c
add_typed ScoreType.unscored c s i = record c { tally = add_data c.tally s }
add_typed ScoreType.result c s i = if is_ignored i then c else count c s
add_typed ScoreType.error c s i =
    let c' = record c { tally = mark_error c.tally } in
    if c.fail_errors then count c' s else note c' s
add_typed _ c s i = note c s

-- `Add`
unfoldable pub add : Average → Score → Option Impact → Average
unfolding add_typed
add c s i = add_typed s.type c s i

with_value : Average → Score → Score
with_value c r = if c.score_cnt == 0 then r else record r { value = c.value / c.score_cnt }

scored : Average → Option ℕ → Option Score
unfolding with_value unscored_result
scored c none = none
scored c (some completion) = some (
    with_value c (record (unscored_result c.tally) {
      type = ScoreType.result;
      score_completion = completion;
      weight = c.tally.weight;
    }))

-- `Calculate`; `none` is the panic of the division by `scoreTotal`.
unfoldable pub calculate : Average → Option Score
unfolding scored without_results
calculate c =
    if c.tally.has_results
    then scored c (div? c.tally.score_completion c.tally.score_total)
    else some (without_results c.tally)
