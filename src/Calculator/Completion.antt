-- ===== src/Calculator/Completion.antt =====
-- When a calculated score is complete: nothing is missing of what the children contribute.
use cnspec.Calculator.Tally
use mathlib.Core.Option.{some-injective}
use native.Mathlib.Nat.{zero-add, div-eq_of_eq-mul_left, le-div_iff_mul-le}
use cnspec.Calculator
use cnspec.Common.{
  some, ◌∙◌, sym, ◌/◌, ◌==◌, refl, zero, Bool-cases, inr, inl, [], ◌↔◌, ◌⊎◌, suc, ◌∷◌, length, All,
  List, ap, ℕ, ◌+◌, ◌-◌, ◌*◌, ◌≤◌, ◌<◌, Bool, true, Option, ◌≡◌, arith, word, if◌then◌else◌,
}
use cnspec.Score.{Score, ScoreType}
use cnspec.Impact.{ScoringSystem, Impact}
use cnspec.Calculator.Tally.{Tally, is_ignored}
use cnspec.Calculator.Summary.{
  calculate-summary, empty-IsCounted, scored_value, summary, IsCounted, tally,
}
use cnspec.Calculator.Order.{add_entry, Entry}
use cnspec.Calculator.Float.{Float64}
use cnspec.Calculator.{Calculator}
use cnspec.Common.Order.{fold}
use cnspec.Calculator.Load.{
  run-IsShare, data_load, data_gap, contributes, counts, score_gap, IsShare, score_load, IsPercent,
  ArePercents, sum, added, run-IsCounted,
}

-- The child has all its datapoints, or has none to wait for, or does not take part.
abbrev pub DataDone : Entry → Type 0
DataDone e =
    let (s, i) = added e in contributes s i ≡ true → (s.data_completion ≡ 100) ⊎ (s.data_total ≡ 0)

-- The child is scored, or does not take part in the scoring.
abbrev pub ScoreDone : Entry → Type 0
ScoreDone e = let (s, i) = added e in counts s i ≡ true → s.score_completion ≡ 100

mul-eq-zero : (a b : ℕ) → a * b ≡ 0 → (a ≡ 0) ⊎ (b ≡ 0)
mul-eq-zero zero b h = inl refl
mul-eq-zero (suc a) b h = inr (omega arith)

gap-eq-zero : (x y : ℕ) → (x ≡ 100) ⊎ (y ≡ 0) → (100 - x) * y ≡ 0
gap-eq-zero x y (inl e) = rw e (omega arith)
gap-eq-zero x y (inr e) = rw e (omega arith)

module _ (s : Score) (i : Option Impact) (p : IsPercent s) where
  data_gap-eq-zero :
      (data_gap s i ≡ 0) ↔ (contributes s i ≡ true → (s.data_completion ≡ 100) ⊎ (s.data_total ≡ 0))
  unfolding data_gap
  data_gap-eq-zero = (
    λ h c. ground (arith, mul-eq-zero (100 - s.data_completion) s.data_total),
    λ h. elim (Bool-cases (contributes s i)) [
      | inl c ↦ rw c (gap-eq-zero s.data_completion s.data_total (h c))
      | inr c ↦ rw c
    ],
  )

  score_gap-eq-zero : (score_gap s i ≡ 0) ↔ (counts s i ≡ true → s.score_completion ≡ 100)
  unfolding score_gap
  score_gap-eq-zero = (
    λ h c. ground arith,
    λ h. elim (Bool-cases (counts s i)) [ inl c ↦ rw c (omega (arith, h c)) | inr c ↦ rw c ],
  )

module _ (g : Score → Option Impact → ℕ) (P : Entry → Type 0)
    (zero_iff : (e : Entry) → IsPercent (added e).0 → (g (added e).0 (added e).1 ≡ 0) ↔ P e) where
  sum-eq-zero : (k : List Entry) → ArePercents k → (sum g k ≡ 0) ↔ All P k
  sum-eq-zero [] p = (λ h. tt, λ h. refl)
  sum-eq-zero (e ∷ k) p = (
    λ h. ((zero_iff e p.0).0 (omega arith), (sum-eq-zero k p.1).0 (omega arith)),
    λ h. omega (arith, (zero_iff e p.0).1 h.0, (sum-eq-zero k p.1).1 h.1),
  )

-- A mean of percentages, rounded down, is 100 exactly when nothing is missing.
mean-eq-hundred :
    (all missing done : ℕ)
    → 0 < all
    → done + missing ≡ 100 * all
    → (done / all ≡ 100) ↔ (missing ≡ 0)
mean-eq-hundred all missing done h e = (
  λ full. omega (arith, (le-div_iff_mul-le {k = all} {x = 100} {y = done} h).0 (omega arith)),
  λ complete. div-eq_of_eq-mul_left h (omega arith),
)

module _ (n d e m o : ℕ) (t : Tally) (c : IsCounted n t) (s : IsShare d e m o t) where
  no_data : d ≡ 0 → e ≡ 0
  no_data h = omega arith

  summary-data_completion : ((summary t).data_completion ≡ 100) ↔ (e ≡ 0)
  unfolding summary
  summary-data_completion = elim (Bool-cases (t.data_total == 0)) [
    | inl empty ↦ ((λ _. ground arith), (λ _. ground arith))
    | inr some_data ↦
        let mean = mean-eq-hundred t.data_total e t.data_completion (ground arith) (ground arith) in
        ((λ h. mean.0 (ground arith)), (λ h. ground (arith, mean.1 h)))
  ]

  summary-score_completion :
      (summary t).type ≡ ScoreType.result → ((summary t).score_completion ≡ 100) ↔ (o ≡ 0)
  unfolding summary
  summary-score_completion scored =
      let mean = mean-eq-hundred t.score_total o t.score_completion (ground arith) (ground arith) in
      ((λ h. mean.0 (ground arith)), (λ h. ground (arith, mean.1 h)))

score_load-le : (s : Score) (i : Option Impact) → score_load s i ≤ 1
unfolding score_load
score_load-le s i = ground arith

sum-score_load-le : (k : List Entry) → sum score_load k ≤ length k
sum-score_load-le [] = omega arith
sum-score_load-le (e ∷ k) =
    omega (arith, score_load-le (added e).0 (added e).1, sum-score_load-le k)

-- A calculator as it comes out of `NewScoreCalculator`.
pub new-empty :
    (f : Float64) (system : ScoringSystem) (flag : Bool) (c : Calculator f)
    → Calculator.new_score_calculator f system flag ≡ some c
    → tally f c ≡ Tally.empty
unfolding Calculator.new_score_calculator tally Calculator.Average.init Calculator.Weighted.init
    Calculator.Worst.init Calculator.Banded.init Calculator.Decayed.init
new-empty f ScoringSystem.average flag c e = ground arith
new-empty f _ flag c e = ground arith

module _ (f : Float64) (system : ScoringSystem) (flag : Bool) (c : Calculator f)
    (new : Calculator.new_score_calculator f system flag ≡ some c) where
  start-IsCounted : IsCounted 0 (tally f c)
  start-IsCounted = rw (new-empty f system flag c new) empty-IsCounted

  start-IsShare : IsShare 0 0 0 0 (tally f c)
  start-IsShare = rw (new-empty f system flag c new) (ground arith)

  scored_if :
      (t : Tally) (v : ℕ)
      → (summary t).type ≡ ScoreType.result
      → (if t.has_results then v else 0) ≡ v
  unfolding summary
  scored_if t v h = ground arith

  fold-IsCounted :
      (k : List Entry) → length k < word → IsCounted (length k) (tally f (fold (add_entry f) c k))
  fold-IsCounted k lt = rw zero-add at (run-IsCounted f k 0 c start-IsCounted (omega arith))

  fold-IsShare :
      (k : List Entry)
      → ArePercents k
      → 100 * sum data_load k < word
      → 100 * length k < word
      → IsShare
          (sum data_load k)
          (sum data_gap k)
          (sum score_load k)
          (sum score_gap k)
          (tally f (fold (add_entry f) c k))
  fold-IsShare k p small few =
      simp zero-add at (
        run-IsShare f k 0 0 0 0 c start-IsShare p (omega arith)
          (omega (arith, sum-score_load-le k)))

  -- Any new calculator, given fewer than 2^32 children, computes a score without a panic.
  pub calculate-fold :
      (k : List Entry)
      → length k < word
      → let c' = fold (add_entry f) c k in
        Calculator.calculate f c'
        ≡ some (record (summary (tally f c')) {
          value = if (tally f c').has_results then scored_value f c' else 0;
        })
  calculate-fold k lt =
      calculate-summary f (fold (add_entry f) c k) (length k) (fold-IsCounted k lt)

  result-eq :
      (k : List Entry) (r : Score)
      → length k < word
      → Calculator.calculate f (fold (add_entry f) c k) ≡ some r
      → let t = tally f (fold (add_entry f) c k) in
        (r.type ≡ (summary t).type)
        × (r.data_completion ≡ (summary t).data_completion)
        × (r.score_completion ≡ (summary t).score_completion)
  result-eq k r lt e =
      let same = some-injective _ _ (sym e ∙ calculate-fold k lt) in
      (
        ap (λ (x : Score). x.type) same,
        ap (λ (x : Score). x.data_completion) same,
        ap (λ (x : Score). x.score_completion) same,
      )

  -- The value of a scored result is the one that the calculator computes.
  pub result-value :
      (k : List Entry) (r : Score)
      → length k < word
      → Calculator.calculate f (fold (add_entry f) c k) ≡ some r
      → r.type ≡ ScoreType.result
      → r.value ≡ scored_value f (fold (add_entry f) c k)
  unfolding summary
  result-value k r lt e scored =
      let t = tally f (fold (add_entry f) c k) in
      let same = some-injective _ _ (sym e ∙ calculate-fold k lt) in
      ap (λ (x : Score). x.value) same
      ∙ scored_if t _ (sym (ap (λ (x : Score). x.type) same) ∙ scored)

  -- Under any scoring system the calculated score has all its data exactly when every child that
  -- takes part has, and a scored result is fully scored exactly when every scoring child is.
  -- The children's completions are percentages, and the sums stay below 2^32.
  pub calculate_complete :
      (k : List Entry) (r : Score)
      → ArePercents k
      → 100 * sum data_load k < word
      → 100 * length k < word
      → Calculator.calculate f (fold (add_entry f) c k) ≡ some r
      → ((r.data_completion ≡ 100) ↔ All DataDone k)
        × (r.type ≡ ScoreType.result → (r.score_completion ≡ 100) ↔ All ScoreDone k)
  calculate_complete k r p small few e =
      let counted = fold-IsCounted k (omega arith) in
      let share = fold-IsShare k p small few in
      let (same_type, same_data, same_score) = result-eq k r (omega arith) e in
      let data_iff = summary-data_completion _ _ _ _ _ _ counted share in
      let data_all = sum-eq-zero data_gap DataDone (λ x q. data_gap-eq-zero _ _ q) k p in
      let score_all = sum-eq-zero score_gap ScoreDone (λ x q. score_gap-eq-zero _ _ q) k p in
      (
        rw same_data ((λ h. data_all.0 (data_iff.0 h)), (λ h. data_iff.1 (data_all.1 h))),
        λ scored.
            let score_iff =
              summary-score_completion _ _ _ _ _ _ counted share (sym same_type ∙ scored) in
            rw same_score ((λ h. score_all.0 (score_iff.0 h)), (λ h. score_iff.1 (score_all.1 h))),
      )
