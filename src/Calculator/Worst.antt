-- ===== src/Calculator/Worst.antt =====
-- The `worstScoreCalculator` of policy/score_calculator.go.
use cnspec.Common.{ℕ, Bool, Option, none, some, ltb, div?, ◌==◌, ◌&&◌, not, if◌then◌else◌}
use cnspec.Score.{Score, ScoreType}
use cnspec.Impact.{Impact}
use cnspec.Calculator.Tally
use cnspec.Calculator.Tally.{
  Tally, add_data, add_completion, add_result, mark_error, is_ignored, unscored_result,
  without_results,
}

pub record Worst : Type 0 where
  pub tally : Tally
  pub value : ℕ
  pub fail_errors : Bool

-- `&worstScoreCalculator{featureFlagFailErrors: flag}`
abbrev pub zero_value : Bool → Worst
zero_value flag = record { tally = Tally.empty; value = 0; fail_errors = flag }

-- `Init`
unfoldable pub init : Worst → Worst
init c = record c { tally = Tally.empty; value = 100 }

-- score.ScoreCompletion != 0 && score.Weight != 0
abbrev pub takes_part : Score → Bool
takes_part s = not (s.score_completion == 0) && not (s.weight == 0)

-- if score.ScoreCompletion != 0 && score.Weight != 0 && score.Value < c.value
unfoldable pub lower_value : ℕ → Score → ℕ
lower_value old s = if takes_part s && ltb s.value old then s.value else old

-- A score that counts: the body of `case ScoreType_Result`.
count : Worst → Score → Worst
unfolding add_result
count c s = record c { tally = add_result c.tally s; value = lower_value c.value s }

-- A score that is complete or not, and has no value: the `default` case.
note : Worst → Score → Worst
unfolding add_completion
note c s = record c { tally = add_completion c.tally s }

add_typed : ScoreType → Worst → Score → Option Impact → Worst
unfolding count note add_data
add_typed ScoreType.skip c s i = c
add_typed ScoreType.disabled c s i = c
add_typed ScoreType.out_of_scope c s i = c
add_typed ScoreType.unscored c s i = record c { tally = add_data c.tally s }
add_typed ScoreType.result c s i = if is_ignored i then c else count c s
add_typed ScoreType.error c s i =
    let c' = record c { tally = mark_error c.tally } in
    if c.fail_errors then count c' s else note c' s
add_typed _ c s i = note c s

-- `Add`
unfoldable pub add : Worst → Score → Option Impact → Worst
unfolding add_typed
add c s i = add_typed s.type c s i

scored : Worst → Option ℕ → Option Score
unfolding unscored_result
scored c none = none
scored c (some completion) = some (record (unscored_result c.tally) {
  type = ScoreType.result;
  score_completion = completion;
  weight = c.tally.weight;
  value = c.value;
})

-- `Calculate`; `none` would be the panic of the division by `scoreTotal`.
unfoldable pub calculate : Worst → Option Score
unfolding scored without_results unscored_result
calculate c =
    if c.tally.score_total == 0
    then some (unscored_result c.tally)
    else if c.tally.has_results
    then scored c (div? c.tally.score_completion c.tally.score_total)
    else some (without_results c.tally)
