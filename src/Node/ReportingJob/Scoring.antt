-- ===== src/Node/ReportingJob/Scoring.antt =====
-- The methods `score` and `recalculate` of `ReportingJobNodeData` in
-- policy/executor/internal/nodes.go.

use cnspec.Score.{Score, ScoreType, zero_score, completion}
use cnspec.Impact.{Impact, ScoringSystem}
use cnspec.Calculator
use cnspec.Calculator.{Calculator, raise_to_floor}
use cnspec.Calculator.Float.{Float64}
use cnspec.Common.{
  ◌/◌, ◌*◌, ◌||◌, not, u32, [], ◌==◌, false, suc, str_eq, length, if◌then◌else◌, ◌∷◌, some, none,
  Bool, true, Option, List, String, ℕ,
}
use cnspec.Common.Order.{fold}
use cnspec.Node.ReportingJob.{Job, Child, Point}

-- What `score` returns, or that it panics.
pub data Outcome : Type 0 where
  panics : Outcome
  fails : String → Outcome
  pending : Outcome
  scored : Score → Outcome

-- The number of datapoints that have a result.
unfoldable pub finished : {V : Type 0} → List (Point V) → ℕ
finished [] = 0
finished (p ∷ ps) = elim p.res [ none ↦ finished ps | some r ↦ suc (finished ps) ]

with_data : ℕ → ℕ → Score → Score
with_data total done s =
    if total == 0
    then s
    else record s { data_total = u32 total; data_completion = u32 (100 * done / total) }

is_disabled : Option Impact → Bool
is_disabled none = false
is_disabled (some i) = elim i.scoring [ ScoringSystem.disabled ↦ true | _ ↦ false ]

floor_result : Option Impact → ScoreType → Score → Score
floor_result (some i) ScoreType.result s = raise_to_floor i.value s
floor_result _ _ s = s

-- The score of the one child of a job that forwards it.
forward_child : String → Option Impact → Option Score → Score
unfolding is_disabled floor_result
forward_child id impact none = record zero_score { qr_id = id; type = ScoreType.result }
forward_child id impact (some s) =
    let s' = record s { qr_id = id } in
    if is_disabled impact
    then record s' { type = ScoreType.disabled }
    else floor_result impact s'.type s'

forwarded : String → List Child → Option Score
unfolding forward_child
forwarded id [] =
    some (record zero_score { qr_id = id; type = ScoreType.unscored; score_completion = 100 })
forwarded id (c ∷ []) = some (forward_child id c.impact c.score)
forwarded id _ = none

-- The branch `nodeData.forwardScore`.
unfoldable pub forward : {V : Type 0} → Job V → Outcome
unfolding forwarded with_data
forward n = elim (forwarded n.query_id n.child_scores) [
  | none ↦ panics
  | some s ↦ scored (with_data (length n.datapoints) (finished n.datapoints) s)
]

module _ (f : Float64) where
  unfoldable pub add_scored : Calculator f → Option Impact → Option Score → Option (Calculator f)
  add_scored c i none = none
  add_scored c i (some s) = some (Calculator.add_specd_score f c s true i)

  -- The body of the loop over the children; `none` is `return nil, nil`.
  unfoldable pub add_child : Option (Calculator f) → Child → Option (Calculator f)
  unfolding add_scored
  add_child none x = none
  add_child (some c) x = add_scored c x.impact x.score

  result_of : String → Option Score → Outcome
  result_of id none = panics
  result_of id (some s) = scored (record s { qr_id = id })

  -- What follows the loop.
  unfoldable pub conclude : {V : Type 0} → Job V → Option (Calculator f) → Outcome
  unfolding result_of
  conclude n none = pending
  conclude n (some c) = result_of n.query_id (
      Calculator.calculate f
        (Calculator.add_data_score f c (length n.datapoints) (finished n.datapoints)))

  unfoldable pub calculate_with :
      {V : Type 0} → (ScoringSystem → String) → Job V → Option (Calculator f) → Outcome
  unfolding conclude
  calculate_with error_text n none = fails (error_text n.scoring_system)
  calculate_with error_text n (some c) = conclude n (fold add_child (some c) n.child_scores)

  -- `score`; `error_text` gives the message of the error of `NewScoreCalculator`.
  unfoldable pub score : {V : Type 0} → (ScoringSystem → String) → Job V → Outcome
  unfolding forward calculate_with
  score error_text n =
      if n.forward_score
      then forward n
      else calculate_with error_text n
          (Calculator.new_score_calculator f n.scoring_system n.fail_errors)

  error_score : String → String → Score
  error_score id message = record zero_score {
    qr_id = id;
    type = ScoreType.error;
    score_completion = 100;
    weight = 1;
    message = message;
  }

  unfoldable pub send : {V : Type 0} → Job V → Outcome → Option (Job V × Option Score)
  unfolding error_score
  send n panics = none
  send n (fails m) = some (record n { completed = true }, some (error_score n.query_id m))
  send n pending = some (n, none)
  send n (scored s) =
      if completion s == 100 then some (record n { completed = true }, some s) else some (n, none)

  -- `recalculate`: the new state and the score that is sent on; `none` is a panic.
  unfoldable pub recalculate :
      {V : Type 0} → (ScoringSystem → String) → Job V → Option (Job V × Option Score)
  unfolding send score
  recalculate error_text n =
      if str_eq n.query_id ""
      then none
      else if not n.invalidated || n.completed
      then some (n, none)
      else send (record n { invalidated = false }) (score error_text n)
