-- ===== src/Node/ReportingJob.antt =====
-- `ReportingJobNodeData` of policy/executor/internal/nodes.go: a job that gathers the scores of its
-- children and the results of its datapoints, and computes its own score. The maps of children and
-- datapoints are association lists; Go ranges over them in any order.
pub mod Scoring
pub mod Order
pub mod Emission
pub mod Envelopes
pub mod Control
use mathlib.Core.Option
use cnspec.Score.{Score, ScoreType, zero_score, completion}
use cnspec.Impact.{Action, Impact, ScoringSystem}
use cnspec.Calculator
use cnspec.Calculator.{Calculator, raise_to_floor}
use cnspec.Calculator.Order.{add_entry}
use cnspec.Calculator.Float.{Float64}
use cnspec.Node.Result.{RawResult, result_upgrades, is_placeholder_result}
use cnspec.Common.{
  ◌/◌, ◌*◌, ◌||◌, ◌&&◌, not, u32, [], ◌==◌, false, suc, str_eq, length, if◌then◌else◌, ◌∷◌, some,
  none, Bool, true, Option, List, String, ℕ,
}
use cnspec.Common.Order.{fold}

-- `ReportingJob_Type`
pub data JobType : Type 0 where
  unspecified check data_query control policy framework : JobType
  risk_factor check_and_data_query execution_query : JobType
  unlisted : ℕ → JobType

-- `reportingJobResult`, with its key.
pub record Child : Type 0 where
  pub id : String
  pub impact : Option Impact
  pub score : Option Score

-- `reportingJobDatapoint`, with its key.
pub record Point (V : Type 0) : Type 0 where
  pub id : String
  pub res : Option (RawResult V)

pub record Job (V : Type 0) : Type 0 where
  pub query_id : String
  pub scoring_system : ScoringSystem
  pub forward_score : Bool
  pub rj_type : JobType
  pub child_scores : List Child
  pub datapoints : List (Point V)
  pub completed : Bool
  pub invalidated : Bool
  pub fail_errors : Bool

-- `initialize`
abbrev pub initialize : {V : Type 0} → Job V → Job V
initialize n = record n { invalidated = true }

control_score : ScoreType → Score → Score
control_score ScoreType.error s = record s { type = ScoreType.result; value = 0 }
control_score ScoreType.skip s = record s { type = ScoreType.result; value = 100 }
control_score ScoreType.unscored s = record s { type = ScoreType.result; value = 100 }
control_score _ s = s

-- The `switch` over the type of the job: a control maps errors to failed results, and skipped and
-- unscored ones to passing results.
unfoldable pub mapped_score : JobType → Score → Score
unfolding control_score
mapped_score JobType.control s = control_score s.type s
mapped_score _ s = s

-- `rjRes.score = score` at the child `from`; `none` is the panic on an unknown child.
unfoldable pub set_child : String → Score → List Child → Option (List Child)
set_child from s [] = none
set_child from s (c ∷ cs) =
    if str_eq c.id from
    then some (record c { score = some s } ∷ cs)
    else Option.map (λ rest. c ∷ rest) (set_child from s cs)

consume_score : {V : Type 0} → String → Option Score → Job V → Option (Job V)
consume_score from none n = some n
consume_score from (some s) n =
    Option.map (λ cs. record n { child_scores = cs; invalidated = true })
      (set_child from (mapped_score n.rj_type s) n.child_scores)

-- Whether `consume` drops the result `res` for a datapoint that holds `old`.
unfoldable pub drops : {V : Type 0} → Option (RawResult V) → RawResult V → Bool
drops none res = false
drops (some old) res =
    (is_placeholder_result (some res) && not (is_placeholder_result (some old)))
    || not (result_upgrades (some old) (some res))

unfoldable pub find_point : {V : Type 0} → String → List (Point V) → Option (Point V)
find_point from [] = none
find_point from (p ∷ ps) = if str_eq p.id from then some p else find_point from ps

unfoldable pub set_point : {V : Type 0} → String → RawResult V → List (Point V) → List (Point V)
set_point from r [] = []
set_point from r (p ∷ ps) =
    if str_eq p.id from then record p { res = some r } ∷ ps else p ∷ set_point from r ps

store_result : {V : Type 0} → String → RawResult V → Job V → Option (Point V) → Option (Job V)
store_result from r n none = none
store_result from r n (some p) =
    if drops p.res r
    then some n
    else some (record n {
      completed = false;
      datapoints = set_point from r n.datapoints;
      invalidated = true;
    })

consume_result : {V : Type 0} → String → Option (RawResult V) → Job V → Option (Job V)
unfolding store_result
consume_result from none n = some n
consume_result from (some r) n = store_result from r n (find_point from n.datapoints)

-- `consume` of an envelope with the given result and score; `none` is a panic.
unfoldable pub consume :
    {V : Type 0} → String → Option (RawResult V) → Option Score → Job V → Option (Job V)
unfolding consume_score consume_result
consume from res score n = elim (consume_score from score n) [
  | none ↦ none
  | some n' ↦ consume_result from res n'
]
