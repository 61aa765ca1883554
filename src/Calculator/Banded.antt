-- ===== src/Calculator/Banded.antt =====
-- The `bandedScoreCalculator` of policy/score_calculator.go.
use cnspec.Common.{
  ℕ, ◌+◌, Bool, Option, none, some, ℤ, to_u32, u32, sub32, ltb, leb, div?, ◌==◌, not, if◌then◌else◌,
}
use cnspec.Score.{Score, ScoreType}
use cnspec.Impact.{Impact}
use cnspec.Calculator.Tally
use cnspec.Calculator.Tally.{
  Tally, add_data, add_completion, add_result, mark_error, is_ignored, unscored_result,
  without_results,
}
use cnspec.Calculator.Worst.{takes_part, lower_value}
use cnspec.Calculator.Float.{Float64, of_ℕ}

-- The weights of the failing checks of each band, and of all its checks.
pub record Bands : Type 0 where
  pub crit : ℕ
  pub high : ℕ
  pub mid : ℕ
  pub low : ℕ
  pub crit_max : ℕ
  pub high_max : ℕ
  pub mid_max : ℕ
  pub low_max : ℕ

pub record Banded : Type 0 where
  pub tally : Tally
  pub bands : Bands
  pub minscore : ℕ
  pub value : ℕ
  pub fail_errors : Bool

abbrev pub no_bands : Bands
no_bands = record {
  crit = 0;
  high = 0;
  mid = 0;
  low = 0;
  crit_max = 0;
  high_max = 0;
  mid_max = 0;
  low_max = 0;
}

-- `&bandedScoreCalculator{featureFlagFailErrors: flag}`
abbrev pub zero_value : Bool → Banded
zero_value flag = record {
  tally = Tally.empty;
  bands = no_bands;
  minscore = 0;
  value = 0;
  fail_errors = flag;
}

-- `Init`: the weights of the bands stay as they are.
unfoldable pub init : Banded → Banded
init c = record c { tally = Tally.empty; minscore = 100; value = 100 }

unfoldable pub impact_category : Option ℤ → ℕ
impact_category none = 0
impact_category (some v) = sub32 100 (to_u32 v)

-- category := 0; if impact != nil && impact.Value != nil { category = 100 - uint32(...) }
unfoldable pub category : Option Impact → ℕ
unfolding impact_category
category none = 0
category (some i) = impact_category i.value

abbrev failing : Score → ℕ → ℕ
failing s old = if ltb s.value 100 then u32 (old + s.weight) else old

pub data Band : Type 0 where
  critical high medium low : Band

-- The tests of the ladder over the category.
unfoldable pub band_of : ℕ → Band
band_of k =
    if leb k 10
    then Band.critical
    else if leb k 30
    then Band.high
    else if leb k 60
    then Band.medium
    else Band.low

-- The branches of the ladder: the weight is filed under one band.
unfoldable pub file_weight : Band → Bands → Score → Bands
file_weight Band.critical b s = record b {
  crit_max = u32 (b.crit_max + s.weight);
  crit = failing s b.crit;
}
file_weight Band.high b s = record b {
  high_max = u32 (b.high_max + s.weight);
  high = failing s b.high;
}
file_weight Band.medium b s = record b {
  mid_max = u32 (b.mid_max + s.weight);
  mid = failing s b.mid;
}
file_weight Band.low b s = record b { low_max = u32 (b.low_max + s.weight); low = failing s b.low }

-- The body of `case ScoreType_Result`.
count : Banded → Score → Option Impact → Banded
unfolding add_result
count c s i = record c {
  tally = add_result c.tally s;
  bands = if takes_part s then file_weight (band_of (category i)) c.bands s else c.bands;
}

-- The body of `case ScoreType_Error` under the feature flag.
count_error : Banded → Score → Banded
unfolding add_result
count_error c s = record c { tally = add_result c.tally s; value = lower_value c.value s }

-- The `default` case.
note : Banded → Score → Banded
unfolding add_completion
note c s = record c { tally = add_completion c.tally s }

add_typed : ScoreType → Banded → Score → Option Impact → Banded
unfolding count count_error note add_data
add_typed ScoreType.skip c s i = c
add_typed ScoreType.disabled c s i = c
add_typed ScoreType.out_of_scope c s i = c
add_typed ScoreType.unscored c s i = record c { tally = add_data c.tally s }
add_typed ScoreType.result c s i = if is_ignored i then c else count c s i
add_typed ScoreType.error c s i =
    let c' = record c { tally = mark_error c.tally } in
    if c.fail_errors then count_error c' s else note c' s
add_typed _ c s i = note c s

-- `Add`
unfoldable pub add : Banded → Score → Option Impact → Banded
unfolding add_typed
add c s i = add_typed s.type c s i

module _ (f : Float64) where
  open f use {Carrier, mul, div, floor_u32}

  -- 1, or float64(all - failed) / float64(all) if the band is not empty.
  unfoldable pub passing : ℕ → ℕ → Carrier
  passing all failed = if all == 0 then of_ℕ f 1 else div (of_ℕ f (sub32 all failed)) (of_ℕ f all)

  unfoldable pub pcr_low : Bands → Carrier
  pcr_low b = passing b.low_max b.low

  unfoldable pub pcr_mid : Bands → Carrier
  pcr_mid b = mul (div (f.add (of_ℕ f 3) (pcr_low b)) (of_ℕ f 4)) (passing b.mid_max b.mid)

  unfoldable pub pcr_high : Bands → Carrier
  pcr_high b = mul (div (f.add (of_ℕ f 1) (pcr_mid b)) (of_ℕ f 2)) (passing b.high_max b.high)

  unfoldable pub pcr_crit : Bands → Carrier
  pcr_crit b =
      mul (div (f.add (of_ℕ f 1) (mul (of_ℕ f 4) (pcr_high b))) (of_ℕ f 5))
        (passing b.crit_max b.crit)

  -- `res.Value` of a scored result: the worst band with a failing check decides.
  unfoldable pub banded_value : Bands → ℕ
  banded_value b =
      if not (b.crit == 0)
      then floor_u32 (mul (of_ℕ f 50) (pcr_crit b))
      else if not (b.high == 0)
      then u32 (floor_u32 (mul (of_ℕ f 50) (pcr_high b)) + 10)
      else if not (b.mid == 0)
      then u32 (floor_u32 (mul (of_ℕ f 50) (pcr_mid b)) + 30)
      else if not (b.low == 0)
      then u32 (floor_u32 (mul (of_ℕ f 40) (pcr_low b)) + 60)
      else 100

  scored : Banded → Option ℕ → Option Score
  unfolding unscored_result
  scored c none = none
  scored c (some completion) = some (record (unscored_result c.tally) {
    type = ScoreType.result;
    score_completion = completion;
    weight = c.tally.weight;
    value = banded_value c.bands;
  })

  -- `Calculate`; `none` would be the panic of the division by `scoreTotal`.
  unfoldable pub calculate : Banded → Option Score
  unfolding scored without_results unscored_result
  calculate c =
      if c.tally.score_total == 0
      then some (unscored_result c.tally)
      else if c.tally.has_results
      then scored c (div? c.tally.score_completion c.tally.score_total)
      else some (without_results c.tally)
