-- ===== src/Risk/Recorded.antt =====
-- Which risk factors `AdjustRiskScore` of policy/risk_factor.go notes on the score.
use mathlib.Core.List.{append-nil, append_assoc}
use cnspec.Common.{
  true, false, List, [], ◌∷◌, ◌++◌, none, some, if◌then◌else◌, ◌≡◌, arith, ◌||◌, ap, sym, ◌∙◌,
}
use cnspec.Common.Order.{fold}
use cnspec.Risk.Factor.{
  Platform, ScoredRiskFactor, ScoredRiskInfo, RiskyScore, is_toxic, magnitude_value,
}
use cnspec.Risk.Adjust.{adjust_by, adjust_step, record_factor}

module _ (g : Platform) where
  -- The factors of a score; a nil list has none.
  unfoldable pub factors : RiskyScore g → List (ScoredRiskFactor g)
  factors s = elim s.risk_factors [ none ↦ [] | some xs ↦ xs ]

  -- What is to be noted of a risk: a detected one as it is; of those that are not detected, only one
  -- that is relative and increases the risk, with its sign turned.
  unfoldable pub noted : ScoredRiskInfo g → List (ScoredRiskFactor g)
  noted r =
      let f = r.risk_factor in
      let v = magnitude_value g f in
      if r.scored_risk_factor.is_detected
      then record { mrn = f.mrn; risk = v; is_toxic = is_toxic g f; is_detected = true } ∷ []
      else if is_toxic g f || g.lt v (g.of_ℕ 0)
      then []
      else record { mrn = f.mrn; risk = g.neg v; is_toxic = false; is_detected = false } ∷ []

  unfoldable pub all_noted : List (ScoredRiskInfo g) → List (ScoredRiskFactor g)
  all_noted [] = []
  all_noted (r ∷ rs) = noted r ++ all_noted rs

  factors-record_factor :
      (x : ScoredRiskFactor g) (s : RiskyScore g)
      → factors (record_factor g x s) ≡ factors s ++ (x ∷ [])
  unfolding factors record_factor
  factors-record_factor x s = ground arith

  factors-adjust_step :
      (s : RiskyScore g) (r : ScoredRiskInfo g) → factors (adjust_step g s r) ≡ factors s ++ noted r
  unfolding adjust_step adjust_by noted factors record_factor
  factors-adjust_step s r = ground (arith, append-nil (factors s))

  -- `AdjustRiskScore` of the factors in turn appends what is to be noted of each, in their order.
  pub adjust_notes :
      (s : RiskyScore g) (rs : List (ScoredRiskInfo g))
      → factors (fold (adjust_step g) s rs) ≡ factors s ++ all_noted rs
  unfolding all_noted
  adjust_notes s [] = sym (append-nil (factors s))
  adjust_notes s (r ∷ rs) =
      adjust_notes (adjust_step g s r) rs
      ∙ ap (λ xs. xs ++ all_noted rs) (factors-adjust_step s r)
      ∙ append_assoc (factors s) (noted r) (all_noted rs)
