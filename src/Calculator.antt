-- ===== src/Calculator.antt =====
-- policy/score_calculator.go: the calculators behind the interface `ScoreCalculator`, and the
-- functions that feed them.
pub mod Tally
pub mod Float
pub mod Average
pub mod Weighted
pub mod Worst
pub mod Banded
pub mod Decayed
pub mod Order
pub mod Summary
pub mod Load
pub mod Completion
pub mod Value
pub mod Totals
pub mod Mean
pub mod Bands
pub mod Failing
pub mod Banding
use cnspec.Common.{
  ℕ, ◌+◌, ◌*◌, ◌/◌, Bool, true, false, Option, none, some, ℤ, pos, negsuc, to_u32, u32, sub32, ltb,
  ◌==◌, if◌then◌else◌,
}
use cnspec.Score.{Score, ScoreType, zero_score}
use cnspec.Impact.{Impact, ScoringSystem}
use Float.{Float64}

-- A value of the interface: one constructor for each type that implements it.
pub data Calculator (f : Float64) : Type 0 where
  average : Average.Average → Calculator f
  weighted : Weighted.Weighted → Calculator f
  worst : Worst.Worst → Calculator f
  banded : Banded.Banded → Calculator f
  decayed : Decayed.Decayed f → Calculator f

module _ (f : Float64) where
  -- `ScoreCalculator.Add`
  unfoldable pub add : Calculator f → Score → Option Impact → Calculator f
  add (average c) s i = average (Average.add c s i)
  add (weighted c) s i = weighted (Weighted.add c s i)
  add (worst c) s i = worst (Worst.add c s i)
  add (banded c) s i = banded (Banded.add c s i)
  add (decayed c) s i = decayed (Decayed.add f c s i)

  -- `ScoreCalculator.Calculate`; `none` is a panic.
  unfoldable pub calculate : Calculator f → Option Score
  calculate (average c) = Average.calculate c
  calculate (weighted c) = Weighted.calculate c
  calculate (worst c) = Worst.calculate c
  calculate (banded c) = Banded.calculate f c
  calculate (decayed c) = Decayed.calculate f c

  -- `NewScoreCalculator`; `none` is its error.
  unfoldable pub new_score_calculator : ScoringSystem → Bool → Option (Calculator f)
  new_score_calculator ScoringSystem.average flag =
      some (average (Average.init (Average.zero_value flag)))
  new_score_calculator ScoringSystem.scoring_unspecified flag =
      some (average (Average.init (Average.zero_value flag)))
  new_score_calculator ScoringSystem.data_only flag =
      some (average (Average.init (Average.zero_value flag)))
  new_score_calculator ScoringSystem.weighted flag =
      some (weighted (Weighted.init (Weighted.zero_value flag)))
  new_score_calculator ScoringSystem.worst flag = some (worst (Worst.init (Worst.zero_value flag)))
  new_score_calculator ScoringSystem.banded flag =
      some (banded (Banded.init (Banded.zero_value flag)))
  new_score_calculator ScoringSystem.decayed flag =
      some (decayed (Decayed.init f (Decayed.zero_value f flag)))
  new_score_calculator _ flag = none

-- floor := 100 - uint32(impact.Value.Value); if floor > score.Value { score.Value = floor }
abbrev pub raise_to_floor : Option ℤ → Score → Score
raise_to_floor none s = s
raise_to_floor (some v) s =
    let floor = sub32 100 (to_u32 v) in if ltb s.value floor then record s { value = floor } else s

-- The score that stands for an ignored one.
abbrev skipped : Score → Score
skipped s = record zero_score {
  type = ScoreType.skip;
  value = s.value;
  weight = 0;
  score_completion = s.score_completion;
  data_completion = s.data_completion;
  data_total = s.data_total;
}

-- impact.Weight > 0 sets the weight; otherwise a missing weight is 1.
abbrev spec_weight : ℤ → ℕ → ℕ
spec_weight (pos n) w = if ltb 0 n then u32 n else if w == 0 then 1 else w
spec_weight (negsuc n) w = if w == 0 then 1 else w

spec_with : ScoringSystem → Impact → Score → Score × Option Impact
spec_with ScoringSystem.ignore_score i s = (skipped s, none)
spec_with _ i s = (record s { weight = spec_weight i.weight s.weight }, some i)

-- What `AddSpecdScore` hands to `Add`.
unfoldable pub spec_score : Score → Bool → Option Impact → Score × Option Impact
unfolding spec_with
spec_score s false i = (zero_score, none)
spec_score s true none = (s, none)
spec_score s true (some i) = spec_with i.scoring i (raise_to_floor i.value s)

-- The unscored score that `AddDataScore` hands to `Add`; the arguments are Go `int`s.
unfoldable pub data_score : ℕ → ℕ → Score
data_score total finished = record zero_score {
  type = ScoreType.unscored;
  data_total = u32 total;
  data_completion = u32 (100 * finished / total);
}

module _ (f : Float64) where
  -- `AddSpecdScore`
  unfoldable pub add_specd_score : Calculator f → Score → Bool → Option Impact → Calculator f
  unfolding spec_score
  add_specd_score c s found i = let (s', i') = spec_score s found i in add f c s' i'

  -- `AddDataScore`
  unfoldable pub add_data_score : Calculator f → ℕ → ℕ → Calculator f
  unfolding data_score
  add_data_score c total finished =
      if total == 0 then c else add f c (data_score total finished) none
