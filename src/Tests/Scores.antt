-- ===== src/Tests/Scores.antt =====
-- The score calculators and the ratings on two checks.
use mathlib.Core.List.{Memᴰ}
use cnspec.Tests.Data.{scored, naturals, two_checks, result_of}
use cnspec.Calculator
use cnspec.Calculator.{Calculator, average, weighted, worst, banded}
use cnspec.Calculator.Order.{Entry, add_entry}
use cnspec.Common.Order.{fold}
use cnspec.Calculator.Worst.{lower_value}
use cnspec.Common.{
  ◌⊎◌, arith, List, [], ◌∷◌, map, ℕ, ◌↔◌, pos, All, none, ◌≤◌, refl, some, ◌≡◌, false,
}
use cnspec.Impact.{Action, ScoringSystem, add_base, Impact}
use cnspec.Score.{Score, ScoreType, completion}
use cnspec.Calculator.Load.{sum, data_load, score_load}
use cnspec.Calculator.Value.{
  RankedAt, weight_of, count_of, weighted_value_of, value_of, AtMost, rated,
}
use cnspec.Score.Rating.{letter, rating, text, rating_code}
use cnspec.Calculator.Mean.{worst_least, by_name, average_mean, weighted_mean, mean}
use cnspec.Calculator.Completion.{calculate_complete, ScoreDone, DataDone}
use cnspec.Calculator.Totals.{
  calculate-IsTotal, IsTotal, data_done, score_done, result_weight, result_load, error_load,
}
use cnspec.Impact.Base.{layer_fields, first_set, is_given, is_chosen, is_weighed, is_decided}
use cnspec.Score.Severity.{rating_ranges, grade, severity, rating_antitone, completion_full}

abbrev new_average : Calculator naturals
new_average = average (Calculator.Average.init (Calculator.Average.zero_value false))

abbrev new_weighted : Calculator naturals
new_weighted = weighted (Calculator.Weighted.init (Calculator.Weighted.zero_value false))

abbrev new_worst : Calculator naturals
new_worst = worst (Calculator.Worst.init (Calculator.Worst.zero_value false))

abbrev new_banded : Calculator naturals
new_banded = banded (Calculator.Banded.init (Calculator.Banded.zero_value false))

-- Average of 100 and 40, weighted average with weights 1 and 3, and the worst of them.
average_run :
    Calculator.calculate naturals (
      fold
        (add_entry naturals)
        (average (Calculator.Average.init (Calculator.Average.zero_value false)))
        two_checks)
    ≡ some (result_of 70)
unfolding Calculator.calculate add_entry Calculator.add_specd_score Calculator.add
    Calculator.Average.init Calculator.Average.add Calculator.Average.calculate
average_run = refl

weighted_run :
    Calculator.calculate naturals (
      fold
        (add_entry naturals)
        (weighted (Calculator.Weighted.init (Calculator.Weighted.zero_value false)))
        two_checks)
    ≡ some (result_of 55)
unfolding Calculator.calculate add_entry Calculator.add_specd_score Calculator.add
    Calculator.Weighted.init Calculator.Weighted.add Calculator.Weighted.calculate
weighted_run = refl

worst_run :
    Calculator.calculate naturals (
      fold
        (add_entry naturals)
        (worst (Calculator.Worst.init (Calculator.Worst.zero_value false)))
        two_checks)
    ≡ some (result_of 40)
unfolding Calculator.calculate add_entry Calculator.add_specd_score Calculator.add
    Calculator.Worst.init Calculator.Worst.add Calculator.Worst.calculate lower_value
worst_run = refl

calculate_complete_example :
    ((result_of 70).data_completion ≡ 100 ↔ All DataDone two_checks)
    × ((result_of 70).type ≡ ScoreType.result
        → (result_of 70).score_completion ≡ 100 ↔ All ScoreDone two_checks)
unfolding Calculator.new_score_calculator Calculator.spec_score data_load
calculate_complete_example =
    calculate_complete naturals ScoringSystem.average false new_average refl two_checks
      (result_of 70) (omega arith) (omega arith) (omega arith) average_run

calculate-IsTotal_example :
    (s : Score) × (Calculator.calculate naturals (fold (add_entry naturals) new_average two_checks)
      ≡ some s)
    × IsTotal
        (sum data_load two_checks)
        (sum data_done two_checks)
        (sum score_load two_checks)
        (sum score_done two_checks)
        (sum (result_weight false) two_checks)
        (sum (result_load false) two_checks)
        (sum error_load two_checks)
        s
unfolding Calculator.new_score_calculator
calculate-IsTotal_example =
    calculate-IsTotal naturals ScoringSystem.average false new_average refl two_checks (omega arith)

average_mean_example : 70 ≡ mean (sum (value_of false) two_checks) (sum (count_of false) two_checks)
unfolding Calculator.new_score_calculator Calculator.spec_score rated
average_mean_example =
    average_mean naturals false two_checks (result_of 70) (omega arith) ScoringSystem.average
      new_average by_name refl (omega arith) average_run refl

weighted_mean_example :
    55 ≡ mean (sum (weighted_value_of false) two_checks) (sum (weight_of false) two_checks)
unfolding Calculator.new_score_calculator Calculator.spec_score rated
weighted_mean_example =
    weighted_mean naturals false two_checks (result_of 55) (omega arith) new_weighted refl
      (omega arith) (omega arith) weighted_run refl

worst_least_example :
    (40 ≤ 100)
    × All (AtMost false 40) two_checks
    × ((◌≡◌ {A = ℕ} 40 100) ⊎ ((e : Entry) × Memᴰ e two_checks × RankedAt false 40 e))
unfolding Calculator.new_score_calculator
worst_least_example =
    worst_least naturals false two_checks (result_of 40) (omega arith) new_worst refl worst_run refl

rating_ranges_example :
    (text (λ n. "") (rating (some (scored 40 3))) ≡ severity 40)
    × (letter (λ n. "") (rating (some (scored 40 3))) ≡ grade 40)
unfolding completion
rating_ranges_example = rating_ranges (λ n. "") (scored 40 3) (ground arith)

rating_antitone_example :
    rating_code (rating (some (scored 100 1))) ≤ rating_code (rating (some (scored 40 3)))
unfolding completion
rating_antitone_example =
    rating_antitone (scored 40 3) (scored 100 1) (ground arith) (ground arith) (omega arith)

completion_full_example :
    ((completion (scored 40 3) ≡ 100)
      ↔ ((scored 40 3).data_completion ≡ 100) × ((scored 40 3).score_completion ≡ 100))
    × (completion (scored 40 3) ≤ 100)
completion_full_example = completion_full (scored 40 3) (omega arith) (omega arith)

abbrev open_impact : Impact
open_impact = record {
  value = none;
  scoring = ScoringSystem.scoring_unspecified;
  weight = pos 0;
  action = Action.unspecified;
}

abbrev partial_impact : Impact
partial_impact = record open_impact { scoring = ScoringSystem.worst; weight = pos 2 }

abbrev full_impact : Impact
full_impact = record {
  value = some (pos 80);
  scoring = ScoringSystem.banded;
  weight = pos 3;
  action = Action.modify;
}

abbrev bases : List Impact
bases = partial_impact ∷ full_impact ∷ []

layer_fields_example :
    let r = fold (λ a b. add_base a (some b)) open_impact bases in
    (r.value ≡ first_set is_given open_impact.value (map (λ (i : Impact). i.value) bases))
    × (r.scoring ≡ first_set is_chosen open_impact.scoring (map (λ (i : Impact). i.scoring) bases))
    × (r.weight ≡ first_set is_weighed open_impact.weight (map (λ (i : Impact). i.weight) bases))
    × (r.action ≡ first_set is_decided open_impact.action (map (λ (i : Impact). i.action) bases))
    × (add_base open_impact none ≡ open_impact)
layer_fields_example = layer_fields open_impact bases
