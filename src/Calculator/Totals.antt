-- ===== src/Calculator/Totals.antt =====
-- The score of any calculator of policy/score_calculator.go, but for its value, as sums over the
-- children of a job, with the wrap-around of `uint32`.
use cnspec.Calculator
use cnspec.Calculator.{Calculator, average, weighted, worst, banded, decayed}
use cnspec.Calculator.Completion.{calculate-fold, new-empty}
use cnspec.Calculator.Float.{Float64}
use cnspec.Calculator.Load.{add_entry-step, added, contributes, counts, data_load, score_load, sum}
use cnspec.Calculator.Order.{add_entry, Entry}
use cnspec.Calculator.Summary.{fail_errors, step, summary, tally, scored_value}
use cnspec.Calculator.Tally.{Tally}
use cnspec.Calculator.Value.{rates}
use cnspec.Common.{
  ℕ, ◌+◌, ◌*◌, ◌/◌, ◌<◌, word, u32, Bool, true, false, not, ◌==◌, if◌then◌else◌, Option, some, List,
  [], ◌∷◌, length, ◌≡◌, ◌∙◌, arith,
}
use cnspec.Common.Order.{fold}
use cnspec.Impact.{Impact, ScoringSystem}
use cnspec.Score.{Score, ScoreType}

abbrev is_error : ScoreType → Bool
is_error ScoreType.error = true
is_error _ = false

-- What a child adds to the completions, to the results with their weights, and to the errors.
module _ (s : Score) (i : Option Impact) where
  unfoldable pub data_done : ℕ
  data_done = if contributes s i then s.data_completion * s.data_total else 0

  unfoldable pub score_done : ℕ
  score_done = if counts s i then s.score_completion else 0

  unfoldable pub error_load : ℕ
  error_load = if is_error s.type then 1 else 0

unfoldable pub result_load : Bool → Score → Option Impact → ℕ
result_load flag s i = if rates s.type flag i then 1 else 0

unfoldable pub result_weight : Bool → Score → Option Impact → ℕ
result_weight flag s i = if rates s.type flag i then s.weight else 0

-- The shared fields hold these sums, as far as a `uint32` does.
record HasSums (d e m o w r x : ℕ) (t : Tally) : Type 0 where
  pub data_total : t.data_total ≡ u32 d
  pub data_completion : t.data_completion ≡ u32 e
  pub score_total : t.score_total ≡ u32 m
  pub score_completion : t.score_completion ≡ u32 o
  pub weight : t.weight ≡ u32 w
  pub results : t.has_results ≡ not (r == 0)
  pub errors : t.has_errors ≡ not (x == 0)

step-HasSums :
    (flag : Bool) (d e m o w r x : ℕ) (t : Tally) (s : Score) (i : Option Impact)
    → HasSums d e m o w r x t
    → HasSums
        (d + data_load s i)
        (e + data_done s i)
        (m + score_load s i)
        (o + score_done s i)
        (w + result_weight flag s i)
        (r + result_load flag s i)
        (x + error_load s i)
        (step flag t s i)
unfolding step data_load data_done score_load score_done result_weight result_load error_load
step-HasSums flag d e m o w r x t s i h = ground arith

module _ (f : Float64) (flag : Bool) where
  run-HasSums :
      (k : List Entry) (d e m o w r x : ℕ) (c : Calculator f)
      → fail_errors f c ≡ flag
      → HasSums d e m o w r x (tally f c)
      → HasSums
          (d + sum data_load k)
          (e + sum data_done k)
          (m + sum score_load k)
          (o + sum score_done k)
          (w + sum (result_weight flag) k)
          (r + sum (result_load flag) k)
          (x + sum error_load k)
          (tally f (fold (add_entry f) c k))
  run-HasSums [] d e m o w r x c same h = ground arith
  run-HasSums (y ∷ k) d e m o w r x c same h =
      let (s, i) = added y in
      let (next, kept) = add_entry-step f c y in
      let one : HasSums (d + data_load s i) (e + data_done s i) (m + score_load s i)
          (o + score_done s i) (w + result_weight flag s i) (r + result_load flag s i)
          (x + error_load s i) (tally f (add_entry f c y)) =
        rw (next, same) (step-HasSums flag d e m o w r x (tally f c) s i h) in
      let rest =
        run-HasSums k (d + data_load s i) (e + data_done s i) (m + score_load s i)
          (o + score_done s i) (w + result_weight flag s i) (r + result_load flag s i)
          (x + error_load s i) (add_entry f c y) (kept ∙ same) one in
      ground arith

new-fail_errors :
    (f : Float64) (system : ScoringSystem) (flag : Bool) (c : Calculator f)
    → Calculator.new_score_calculator f system flag ≡ some c
    → fail_errors f c ≡ flag
unfolding Calculator.new_score_calculator fail_errors Calculator.Average.init
    Calculator.Weighted.init Calculator.Worst.init Calculator.Banded.init Calculator.Decayed.init
new-fail_errors f ScoringSystem.average flag c e = ground arith
new-fail_errors f _ flag c e = ground arith

-- A score, but for its value where there are results, by the sums.
pub record IsTotal (d e m o w r x : ℕ) (s : Score) : Type 0 where
  pub kind : s.type ≡ (
      if not (r == 0)
      then ScoreType.result
      else if not (x == 0)
      then ScoreType.error
      else ScoreType.unscored)
  pub data_total : s.data_total ≡ u32 d
  pub data_completion : s.data_completion ≡ (if u32 d == 0 then 100 else u32 e / u32 d)
  pub score_completion : s.score_completion ≡ (if not (r == 0) then u32 o / u32 m else 100)
  pub weight : s.weight ≡ (if not (r == 0) then u32 w else 0)
  pub unrated : s.value ≡ (if not (r == 0) then s.value else 0)

summary-IsTotal :
    (d e m o w r x v : ℕ) (t : Tally)
    → HasSums d e m o w r x t
    → IsTotal d e m o w r x (record (summary t) { value = if t.has_results then v else 0 })
unfolding summary
summary-IsTotal d e m o w r x v t h = ground arith

-- Any new calculator, given fewer than 2^32 children, computes a score without a panic. The score
-- is a result if a child is one that is not ignored (or an error, under the feature flag), else an
-- error if a child is one, else unscored. It has the number of datapoints of the children that take
-- part, and the mean of their data completions, or 100 if there are none. A result has the mean of
-- the score completions of the scoring children, and the weight of the results; any other score is
-- complete in its scoring, and has the weight and the value 0. The sums wrap around at 2^32.
pub calculate-IsTotal :
    (f : Float64) (system : ScoringSystem) (flag : Bool) (c : Calculator f)
    → Calculator.new_score_calculator f system flag ≡ some c
    → (k : List Entry) → length k < word
    → (s : Score) × (Calculator.calculate f (fold (add_entry f) c k) ≡ some s)
      × IsTotal
          (sum data_load k)
          (sum data_done k)
          (sum score_load k)
          (sum score_done k)
          (sum (result_weight flag) k)
          (sum (result_load flag) k)
          (sum error_load k)
          s
calculate-IsTotal f system flag c new k lt =
    let start : HasSums 0 0 0 0 0 0 0 (tally f c) =
      rw (new-empty f system flag c new) (ground arith) in
    let sums = run-HasSums f flag k 0 0 0 0 0 0 0 c (new-fail_errors f system flag c new) start in
    let t = tally f (fold (add_entry f) c k) in
    (
      record (summary t) {
        value = if t.has_results then scored_value f (fold (add_entry f) c k) else 0;
      },
      calculate-fold f system flag c new k lt,
      summary-IsTotal _ _ _ _ _ _ _ _ t (ground (arith, sums)),
    )
