-- ===== src/Calculator/Decayed.antt =====
-- The `decayedScoreCalculator` of policy/score_calculator.go.
use cnspec.Common.{ℕ, Bool, Option, none, some, ℤ, sub32, div?, ◌==◌, if◌then◌else◌}
use cnspec.Score.{Score, ScoreType}
use cnspec.Impact.{Impact}
use cnspec.Calculator.Tally
use cnspec.Calculator.Tally.{
  Tally, add_data, add_completion, add_result, mark_error, is_ignored, unscored_result,
  without_results,
}
use cnspec.Calculator.Worst.{takes_part, lower_value}
use cnspec.Calculator.Float.{Float64, of_ℕ}

pub record Decayed (f : Float64) : Type 0 where
  pub tally : Tally
  pub x : f.Carrier
  pub xmax : f.Carrier
  pub value : ℕ
  pub fail_errors : Bool

module _ (f : Float64) where
  open f use {Carrier, sub, mul, div, neg, exp, is_zero, floor_u32}

  -- `&decayedScoreCalculator{featureFlagFailErrors: flag}`
  abbrev pub zero_value : Bool → Decayed f
  zero_value flag = record {
    tally = Tally.empty;
    x = of_ℕ f 0;
    xmax = of_ℕ f 0;
    value = 0;
    fail_errors = flag;
  }

  -- `Init`
  unfoldable pub init : Decayed f → Decayed f
  init c = record c { tally = Tally.empty; x = of_ℕ f 0; xmax = of_ℕ f 0; value = 100 }

  impact_share : Option ℤ → ℕ → Carrier
  impact_share none w = mul (of_ℕ f 1) (of_ℕ f w)
  impact_share (some v) w = mul (div (f.of_ℤ v) (of_ℕ f 100)) (of_ℕ f w)

  -- What a score adds to `xmax`; `impact.GetValue()` of a nil impact is nil.
  unfoldable pub share : Option Impact → ℕ → Carrier
  unfolding impact_share
  share none w = impact_share none w
  share (some i) w = impact_share i.value w

  -- v * float64(score.Weight) for v := float64(100-score.Value) / 100
  unfoldable pub loss : Score → Carrier
  loss s = mul (div (of_ℕ f (sub32 100 s.value)) (of_ℕ f 100)) (of_ℕ f s.weight)

  -- The body of `case ScoreType_Result`.
  count : Decayed f → Score → Option Impact → Decayed f
  unfolding add_result
  count c s i =
      let t = add_result c.tally s in
      if takes_part s
      then record c { tally = t; x = f.add c.x (loss s); xmax = f.add c.xmax (share i s.weight) }
      else record c { tally = t }

  -- The body of `case ScoreType_Error` under the feature flag.
  count_error : Decayed f → Score → Decayed f
  unfolding add_result
  count_error c s = record c { tally = add_result c.tally s; value = lower_value c.value s }

  -- The `default` case.
  note : Decayed f → Score → Decayed f
  unfolding add_completion
  note c s = record c { tally = add_completion c.tally s }

  add_typed : ScoreType → Decayed f → Score → Option Impact → Decayed f
  unfolding count count_error note add_data
  add_typed ScoreType.skip c s i = c
  add_typed ScoreType.disabled c s i = c
  add_typed ScoreType.out_of_scope c s i = c
  add_typed ScoreType.unscored c s i = record c { tally = add_data c.tally s }
  add_typed ScoreType.result c s i = if is_ignored i then c else count c s i
  add_typed ScoreType.error c s i =
      let c' = record c { tally = mark_error c.tally } in
      if c.fail_errors then count_error c' s else note c' s
  add_typed _ c s i = note c s

  -- `Add`
  unfoldable pub add : Decayed f → Score → Option Impact → Decayed f
  unfolding add_typed
  add c s i = add_typed s.type c s i

  -- float64(c.weight) / gravity, where gravity = 10
  unfoldable pub rel_gravity : ℕ → Carrier
  rel_gravity w = div (of_ℕ f w) (of_ℕ f 10)

  -- `res.Value` of a scored result.
  unfoldable pub decayed_value : Decayed f → ℕ
  unfolding rel_gravity
  decayed_value c =
      if is_zero c.xmax
      then 0
      else let g = rel_gravity c.tally.weight in
        let scaled = mul (div c.x c.xmax) g in
        let floor = exp (neg g) in
        floor_u32 (div (mul (of_ℕ f 100) (sub (exp (neg scaled)) floor)) (sub (of_ℕ f 1) floor))

  scored : Decayed f → Option ℕ → Option Score
  unfolding unscored_result
  scored c none = none
  scored c (some completion) = some (record (unscored_result c.tally) {
    type = ScoreType.result;
    score_completion = completion;
    weight = c.tally.weight;
    value = decayed_value c;
  })

  -- `Calculate`; `none` would be the panic of the division by `scoreTotal`.
  unfoldable pub calculate : Decayed f → Option Score
  unfolding scored without_results unscored_result
  calculate c =
      if c.tally.score_total == 0
      then some (unscored_result c.tally)
      else if c.tally.has_results
      then scored c (div? c.tally.score_completion c.tally.score_total)
      else some (without_results c.tally)
