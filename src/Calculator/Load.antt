-- ===== src/Calculator/Load.antt =====
-- How many datapoints and scores the children of a job contribute to a calculator, how much of
-- them is missing, and that the shared fields of every calculator hold these sums.

use cnspec.Calculator
use cnspec.Common.{
  [], suc, ◌∷◌, length, All, List, ap, ℕ, ◌+◌, ◌-◌, ◌*◌, ◌≤◌, ◌<◌, Bool, true, false, Option, ◌≡◌,
  arith, word, not, ◌&&◌, if◌then◌else◌,
}
use cnspec.Score.{Score, ScoreType}
use cnspec.Impact.{Impact}
use cnspec.Calculator.Tally.{Tally, is_ignored}
use cnspec.Calculator.Summary.{step-IsCounted, add-step, fail_errors, IsCounted, tally, step}
use cnspec.Calculator.Order.{add_entry, Entry}
use cnspec.Calculator.Float.{Float64}
use cnspec.Calculator.{Calculator}
use cnspec.Common.Order.{fold}

abbrev contributes_typed : ScoreType → Option Impact → Bool
contributes_typed ScoreType.skip i = false
contributes_typed ScoreType.disabled i = false
contributes_typed ScoreType.out_of_scope i = false
contributes_typed ScoreType.result i = not (is_ignored i)
contributes_typed _ i = true

abbrev is_scoring : ScoreType → Bool
is_scoring ScoreType.unscored = false
is_scoring _ = true

module _ (s : Score) (i : Option Impact) where
  -- The score takes part in the data completion, by its number of datapoints.
  abbrev pub contributes : Bool
  contributes = contributes_typed s.type i

  -- The score takes part in the score completion.
  abbrev pub counts : Bool
  counts = contributes && is_scoring s.type

  unfoldable pub data_load : ℕ
  data_load = if contributes then s.data_total else 0

  unfoldable pub data_gap : ℕ
  data_gap = if contributes then (100 - s.data_completion) * s.data_total else 0

  unfoldable pub score_load : ℕ
  score_load = if counts then 1 else 0

  unfoldable pub score_gap : ℕ
  score_gap = if counts then 100 - s.score_completion else 0

-- The completions of a score are percentages.
pub record IsPercent (s : Score) : Type 0 where
  pub data_part : s.data_completion ≤ 100
  pub score_part : s.score_completion ≤ 100

-- The shared fields hold the loads and what is missing of them, with no wrap-around.
pub record IsShare (data_all data_open score_all score_open : ℕ) (t : Tally) : Type 0 where
  pub data_sum : t.data_total ≡ data_all
  pub data_part : t.data_completion + data_open ≡ 100 * data_all
  pub score_sum : t.score_total ≡ score_all
  pub score_part : t.score_completion + score_open ≡ 100 * score_all

percent_split : (x y : ℕ) → x ≤ 100 → x * y + (100 - x) * y ≡ 100 * y
percent_split x y h =
    let whole : x + (100 - x) ≡ 100 = omega arith in omega (arith, ap (λ (t : ℕ). t * y) whole)

pub step-IsShare :
    (flag : Bool) (d e m n : ℕ) (t : Tally) (s : Score) (i : Option Impact)
    → IsShare d e m n t
    → IsPercent s
    → 100 * (d + data_load s i) < word
    → 100 * (m + score_load s i) < word
    → IsShare
        (d + data_load s i)
        (e + data_gap s i)
        (m + score_load s i)
        (n + score_gap s i)
        (step flag t s i)
unfolding step data_load data_gap score_load score_gap
step-IsShare flag d e m n t s i h p small few =
    ground (arith, percent_split s.data_completion s.data_total)

-- What `AddSpecdScore` adds for a child.
abbrev pub added : Entry → Score × Option Impact
added e = Calculator.spec_score e.score e.found e.impact

abbrev pub sum : (Score → Option Impact → ℕ) → List Entry → ℕ
sum g [] = 0
sum g (e ∷ k) = let (s, i) = added e in g s i + sum g k

abbrev pub ArePercents : List Entry → Type 0
ArePercents = All (λ e. IsPercent (added e).0)

module _ (f : Float64) where
  pub add_entry-step :
      (c : Calculator f) (x : Entry)
      → (tally f (add_entry f c x) ≡ step (fail_errors f c) (tally f c) (added x).0 (added x).1)
        × (fail_errors f (add_entry f c x) ≡ fail_errors f c)
  unfolding add_entry Calculator.add_specd_score
  add_entry-step c x = add-step f c (added x).0 (added x).1

  add_entry-IsShare :
      (d e m n : ℕ) (c : Calculator f) (x : Entry)
      → IsShare d e m n (tally f c)
      → IsPercent (added x).0
      → 100 * (d + data_load (added x).0 (added x).1) < word
      → 100 * (m + score_load (added x).0 (added x).1) < word
      → IsShare
          (d + data_load (added x).0 (added x).1)
          (e + data_gap (added x).0 (added x).1)
          (m + score_load (added x).0 (added x).1)
          (n + score_gap (added x).0 (added x).1)
          (tally f (add_entry f c x))
  add_entry-IsShare d e m n c x h p small few =
      rw ((add_entry-step c x).0) (step-IsShare _ d e m n _ _ _ h p small few)

  -- After all children were added, the fields hold the sums over the children.
  pub run-IsShare :
      (k : List Entry) (d e m n : ℕ) (c : Calculator f)
      → IsShare d e m n (tally f c)
      → ArePercents k
      → 100 * (d + sum data_load k) < word
      → 100 * (m + sum score_load k) < word
      → IsShare
          (d + sum data_load k)
          (e + sum data_gap k)
          (m + sum score_load k)
          (n + sum score_gap k)
          (tally f (fold (add_entry f) c k))
  run-IsShare [] d e m n c h p small few = omega arith
  run-IsShare (x ∷ k) d e m n c h p small few = omega (
    arith,
    run-IsShare k (d + data_load (added x).0 (added x).1) (e + data_gap (added x).0 (added x).1)
        (m + score_load (added x).0 (added x).1) (n + score_gap (added x).0 (added x).1)
        (add_entry f c x) (add_entry-IsShare d e m n c x h p.0 (omega arith) (omega arith)) p.1
        (omega arith) (omega arith),
  )

  pub run-IsCounted :
      (k : List Entry) (n : ℕ) (c : Calculator f)
      → IsCounted n (tally f c)
      → n + length k < word
      → IsCounted (n + length k) (tally f (fold (add_entry f) c k))
  run-IsCounted [] n c h lt = omega (arith, h.results, h.errors)
  run-IsCounted (x ∷ k) n c h lt =
      let next : IsCounted (suc n) (tally f (add_entry f c x)) =
        rw ((add_entry-step c x).0) (step-IsCounted _ n _ _ _ h (omega arith)) in
      let whole : suc n + length k ≡ n + suc (length k) = omega arith in
      rw (← whole) (run-IsCounted k (suc n) (add_entry f c x) next (omega arith))
