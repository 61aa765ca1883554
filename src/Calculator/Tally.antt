-- ===== src/Calculator/Tally.antt =====
-- The fields that all the calculators of policy/score_calculator.go declare, and the statements
-- that their `Add` and `Calculate` methods have in common.
use cnspec.Common.{
  ℕ, ◌+◌, ◌*◌, ◌/◌, Bool, true, false, Option, none, some, u32, ◌==◌, if◌then◌else◌,
}
use cnspec.Score.{Score, zero_score, ScoreType}
use cnspec.Impact.{Impact, Action}

pub record Tally : Type 0 where
  pub weight : ℕ
  pub score_total : ℕ
  pub score_completion : ℕ
  pub data_total : ℕ
  pub data_completion : ℕ
  pub has_results : Bool
  pub has_errors : Bool

-- The part of `Init` that the calculators share.
abbrev pub empty : Tally
empty = record {
  weight = 0;
  score_total = 0;
  score_completion = 0;
  data_total = 0;
  data_completion = 0;
  has_results = false;
  has_errors = false;
}

-- c.dataCompletion += score.DataCompletion * score.DataTotal; c.dataTotal += score.DataTotal
unfoldable pub add_data : Tally → Score → Tally
add_data t s = record t {
  data_completion = u32 (t.data_completion + s.data_completion * s.data_total);
  data_total = u32 (t.data_total + s.data_total);
}

-- add_data, then c.scoreCompletion += score.ScoreCompletion; c.scoreTotal++
unfoldable pub add_completion : Tally → Score → Tally
unfolding add_data
add_completion t s = record (add_data t s) {
  score_completion = u32 (t.score_completion + s.score_completion);
  score_total = u32 (t.score_total + 1);
}

-- add_completion with c.weight += score.Weight and c.hasResults = true
unfoldable pub add_result : Tally → Score → Tally
unfolding add_completion
add_result t s = record (add_completion t s) {
  weight = u32 (t.weight + s.weight);
  has_results = true;
}

abbrev pub mark_error : Tally → Tally
mark_error t = record t { has_errors = true }

abbrev ignores : Action → Bool
ignores Action.ignore = true
ignores Action.deactivate = true
ignores _ = false

-- impact != nil && (impact.Action == Action_IGNORE || impact.Action == Action_DEACTIVATE)
abbrev pub is_ignored : Option Impact → Bool
is_ignored none = false
is_ignored (some i) = ignores i.action

-- The value that every `Calculate` starts from: unscored, and complete unless data is missing.
unfoldable pub unscored_result : Tally → Score
unscored_result t = record zero_score {
  type = ScoreType.unscored;
  data_total = t.data_total;
  data_completion = if t.data_total == 0 then 100 else t.data_completion / t.data_total;
  score_completion = 100;
}

-- `else if c.hasErrors { res.Type = ScoreType_Error }`
unfoldable pub without_results : Tally → Score
unfolding unscored_result
without_results t =
    if t.has_errors
    then record (unscored_result t) { type = ScoreType.error }
    else unscored_result t
