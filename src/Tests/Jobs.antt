-- ===== src/Tests/Jobs.antt =====
-- Reporting jobs with two children.
use cnspec.Calculator
use mathlib.Core.List.Perm
use cnspec.Tests.Data.{naturals, scored}
use cnspec.Score.{Score, ScoreType, completion, zero_score}
use cnspec.Impact.{ScoringSystem}
use cnspec.Node.ReportingJob.{Job, Child, JobType}
use cnspec.Node.ReportingJob.Envelopes.{Envelope}
use cnspec.Node.ReportingJob.Scoring.{Outcome, add_child, score, recalculate}
use cnspec.Node.ReportingJob.Order.{score-Perm}
use cnspec.Node.ReportingJob.Emission.{recalculate_sends}
use cnspec.Common.{refl, ◌⊎◌, [], some, ◌∷◌, none, false, ◌≡◌, true, ℕ, List, String}

abbrev child : String → Score → Child
child id s = record { id = id; impact = none; score = some s }

abbrev children : List Child
children = child "a" (scored 100 1) ∷ child "b" (scored 40 3) ∷ []

abbrev policy_job : Job ℕ
policy_job = record {
  query_id = "policy";
  scoring_system = ScoringSystem.average;
  forward_score = false;
  rj_type = JobType.policy;
  child_scores = children;
  datapoints = [];
  completed = false;
  invalidated = true;
  fail_errors = false;
}

abbrev no_text : ScoringSystem → String
no_text s = ""

score-Perm_example :
    score naturals no_text policy_job
    ≡ score naturals no_text (record policy_job {
      child_scores = child "b" (scored 40 3) ∷ child "a" (scored 100 1) ∷ [];
    })
score-Perm_example =
    score-Perm naturals no_text policy_job (child "b" (scored 40 3) ∷ child "a" (scored 100 1) ∷ [])
      refl (λ e. cc) (Perm.swap (child "b" (scored 40 3)) (child "a" (scored 100 1)) [])

abbrev sent_score : Score
sent_score = record zero_score {
  qr_id = "policy";
  type = ScoreType.result;
  value = 70;
  weight = 4;
  score_completion = 100;
  data_completion = 100;
  data_total = 2;
}

job_run :
    recalculate naturals no_text policy_job
    ≡ some (record policy_job { completed = true; invalidated = false }, some sent_score)
unfolding recalculate completion Calculator.calculate Calculator.add_specd_score
    Calculator.add_data_score Calculator.add Calculator.Average.init Calculator.Average.add
    Calculator.Average.calculate Calculator.new_score_calculator add_child
job_run = refl

recalculate_sends_example :
    let m = record policy_job { completed = true; invalidated = false } in
    ((completion sent_score ≡ 100) ⊎ (sent_score.type ≡ ScoreType.error))
    × (m.completed ≡ true)
    × (recalculate naturals no_text m ≡ some (m, none))
recalculate_sends_example =
    recalculate_sends naturals no_text policy_job
      (record policy_job { completed = true; invalidated = false }) sent_score job_run

abbrev failed_check : Score
failed_check = record zero_score { type = ScoreType.error; value = 60; score_completion = 100 }

abbrev control_job : Job ℕ
control_job = record policy_job {
  query_id = "control";
  rj_type = JobType.control;
  child_scores =
      record { id = "a"; impact = none; score = none }
      ∷ record { id = "b"; impact = none; score = none }
      ∷ [];
}

abbrev envelopes : List (Envelope ℕ)
envelopes =
    record { from = "a"; res = none; score = some failed_check }
    ∷ record { from = "b"; res = none; score = some (scored 100 1) }
    ∷ []

-- The check in error counts as one with the value 0.
abbrev after_envelopes : Job ℕ
after_envelopes = record control_job {
  child_scores =
      child "a" (record failed_check { type = ScoreType.result; value = 0 })
      ∷ child "b" (scored 100 1)
      ∷ [];
}

abbrev control_result : Score
control_result = record zero_score {
  qr_id = "control";
  type = ScoreType.result;
  value = 50;
  weight = 1;
  score_completion = 100;
  data_completion = 100;
  data_total = 1;
}

control_resultd : score naturals no_text after_envelopes ≡ Outcome.scored control_result
unfolding score Calculator.calculate Calculator.add_specd_score Calculator.add_data_score
    Calculator.add Calculator.Average.init Calculator.Average.add Calculator.Average.calculate
    Calculator.new_score_calculator add_child
control_resultd = refl
