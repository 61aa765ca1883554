-- ===== src/Risk/Adjust.antt =====
-- policy/risk_factor.go: how the risk factors of an asset and of a check adjust the risk score of a
-- check, and how two lists of scored risk factors are joined.
use cnspec.Common.{
  ℕ, Bool, true, false, str_eq, List, [], ◌∷◌, ◌++◌, Option, none, some, if◌then◌else◌, ltb, ◌==◌,
  sub32, ◌-◌, ◌+◌, ℤ, pos, negsuc,
}
use cnspec.Common.Order.{fold}
use cnspec.Risk.Merge.{merge_sorted}
use cnspec.Risk.Factor.{
  Platform, RiskMagnitude, RiskFactor, ScoredRiskFactor, ScoredRiskInfo, RiskyScore, is_toxic,
  magnitude_value, cmp_scored_risk_factors,
}

-- `int(a) - v`, where `int` has 64 bits and the difference is taken not to overflow.
unfoldable pub minus : ℕ → ℤ → ℤ
minus a (pos n) = if ltb a n then negsuc (n - a - 1) else pos (a - n)
minus a (negsuc n) = pos (a + n + 1)

-- The branches `nu < 0`, `nu > 100` and the rest.
unfoldable pub clamp : ℤ → ℕ
clamp (negsuc n) = 0
clamp (pos n) = if ltb 100 n then 100 else n

module _ (g : Platform) where
  unfoldable pub record_factor : ScoredRiskFactor g → RiskyScore g → RiskyScore g
  record_factor x s = record s {
    risk_factors = elim s.risk_factors [ none ↦ some (x ∷ []) | some xs ↦ some (xs ++ (x ∷ [])) ];
  }

  abbrev pub set_risk : ℕ → RiskyScore g → RiskyScore g
  set_risk v s = record s { score = record s.score { risk_score = v } }

  -- uint32(100 - float32(100-score.RiskScore)*k)
  unfoldable pub scaled : g.Float32 → ℕ → ℕ
  scaled k v = g.to_uint32 (g.sub (g.of_ℕ 100) (g.mul (g.of_ℕ (sub32 100 v)) k))

  -- The method `RiskFactor.AdjustRiskScore`.
  unfoldable pub adjust_by : RiskFactor g → Bool → RiskyScore g → RiskyScore g
  adjust_by r is_detected s =
      let v = magnitude_value g r in
      let scored : g.Float32 → Bool → ScoredRiskFactor g = λ risk toxic. record {
        mrn = r.mrn;
        risk = risk;
        is_toxic = toxic;
        is_detected = is_detected;
      } in
      let old = s.score.risk_score in
      if is_toxic g r
      then (if is_detected
          then record_factor (scored v true)
              (set_risk (clamp (minus old (g.to_int (g.mul v (g.of_ℕ 100))))) s)
          else s)
      else (if g.lt v (g.of_ℕ 0)
          then (if is_detected
              then record_factor (scored v false) (set_risk (scaled (g.add (g.of_ℕ 1) v) old) s)
              else s)
          else (if is_detected
              then record_factor (scored v false) s
              else record_factor (scored (g.neg v) false)
                  (set_risk (scaled (g.sub (g.of_ℕ 1) v) old) s)))

  -- The body of the loop of the function `AdjustRiskScore`.
  unfoldable pub adjust_step : RiskyScore g → ScoredRiskInfo g → RiskyScore g
  adjust_step s risk = adjust_by risk.risk_factor risk.scored_risk_factor.is_detected s

  unfoldable pub adjust_risk_score :
      Option (RiskyScore g) → List (List (ScoredRiskInfo g)) → Option (RiskyScore g)
  adjust_risk_score none ts = none
  adjust_risk_score (some s) [] = some s
  adjust_risk_score (some s) (t ∷ ts) = some (
      let start = set_risk s.score.value s in
      if s.score.value == 100
      then start
      else fold adjust_step start (merge_sorted (cmp_scored_risk_factors g) (t ∷ ts)))

  -- The inner loop of `ScoredRiskFactors.Add`, with the `append` after it.
  unfoldable pub replace :
      ScoredRiskFactor g → List (ScoredRiskFactor g) → List (ScoredRiskFactor g)
  replace nu [] = nu ∷ []
  replace nu (x ∷ xs) =
      let rest = replace nu xs in if str_eq x.mrn nu.mrn then nu ∷ xs else x ∷ rest

  -- `ScoredRiskFactors.Add`; a nil `other` adds nothing.
  unfoldable pub add_factors :
      List (ScoredRiskFactor g) → Option (List (ScoredRiskFactor g)) → List (ScoredRiskFactor g)
  add_factors s none = s
  add_factors s (some other) = fold (λ xs nu. replace nu xs) s other

  unfoldable pub migrate : RiskFactor g → RiskFactor g
  migrate s =
      let m : RiskMagnitude g = elim s.magnitude [
        | none ↦ record {
          value = s.deprecated_v11_magnitude;
          is_toxic = s.deprecated_v11_is_absolute;
        }
        | some m ↦ m
      ] in
      record s {
        magnitude = some m;
        deprecated_v11_is_absolute = m.is_toxic;
        deprecated_v11_magnitude = m.value;
      }
