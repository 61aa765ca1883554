-- ===== src/Node/ReportingJob/Order.antt =====
-- The score of a job does not depend on the order in which Go ranges over its children.
use mathlib.Core.List.{Perm}
use mathlib.Core.HLevel.{hedberg}
use native.Mathlib.Decide.{ℕ_discrete}
use cnspec.Node.ReportingJob.{Score, fold, ScoringSystem, Impact, Option, Float64, Job, Child}
use cnspec.Node.ReportingJob.Scoring.{
  calculate_with, add_scored, Outcome, add_child, conclude, score,
}
use cnspec.Calculator
use cnspec.Calculator.Order.{IsExact, add_comm, add-IsExact, new-IsExact}
use cnspec.Common.{
  arith, sym, ◌∙◌, ◌≢◌, ap, false, String, String-discrete, List, refl, none, ◌≡◌, some, Option,
}
use cnspec.Calculator.{Calculator}
use cnspec.Common.Order.{fold-Perm}

Outcome-discrete : Discrete Outcome
Outcome-discrete = hlevel (ℕ_discrete, String-discrete)

Outcome-set : IsSet Outcome
Outcome-set = hedberg Outcome-discrete

module _ (f : Float64) where
  abbrev IsExactOr : Option (Calculator f) → Type 0
  IsExactOr none = Unit
  IsExactOr (some c) = IsExact c

  add_scored-IsExactOr :
      (c : Calculator f) (i : Option Impact) (o : Option Score)
      → IsExact c
      → IsExactOr (add_scored f c i o)
  unfolding add_scored Calculator.add_specd_score
  add_scored-IsExactOr c i none h = tt
  add_scored-IsExactOr c i (some s) h = add-IsExact f c _ _ h

  add_child-IsExactOr :
      (c : Option (Calculator f)) (x : Child) → IsExactOr c → IsExactOr (add_child f c x)
  unfolding add_child
  add_child-IsExactOr none x h = tt
  add_child-IsExactOr (some c) x h = add_scored-IsExactOr c x.impact x.score h

  -- The score of one more child, if there is a calculator.
  abbrev more : Option (Calculator f) → Option Impact → Option Score → Option (Calculator f)
  more none i o = none
  more (some c) i o = add_scored f c i o

  add_scored_comm :
      (c : Calculator f) (i j : Option Impact) (o p : Option Score)
      → IsExact c
      → more (add_scored f c i o) j p ≡ more (add_scored f c j p) i o
  unfolding add_scored Calculator.add_specd_score
  add_scored_comm c i j none none h = refl
  add_scored_comm c i j none (some t) h = refl
  add_scored_comm c i j (some s) none h = refl
  add_scored_comm c i j (some s) (some t) h = ap some (add_comm f c _ _ _ _ h)

  add_child-more :
      (c : Option (Calculator f)) (x : Child) → add_child f c x ≡ more c x.impact x.score
  unfolding add_child
  add_child-more none x = refl
  add_child-more (some c) x = refl

  add_child_comm :
      (c : Option (Calculator f)) (x y : Child)
      → IsExactOr c
      → add_child f (add_child f c x) y ≡ add_child f (add_child f c y) x
  add_child_comm none x y h = simp add_child-more
  add_child_comm (some c) x y h =
      simp add_child-more (add_scored_comm c x.impact y.impact x.score y.score h)

  conclude-Perm :
      {V : Type 0} (n : Job V) (c : Calculator f)
      → IsExact c
      → {k l : List Child} → Perm k l
      → conclude f n (fold (add_child f) (some c) k) ≡ conclude f n (fold (add_child f) (some c) l)
  conclude-Perm n c h p =
      fold-Perm (add_child f) IsExactOr add_child-IsExactOr add_child_comm (conclude f n)
        Outcome-set (some c) h p

  module _ {V : Type 0} (error_text : ScoringSystem → String) (n : Job V) where
    score_direct :
        n.forward_score ≡ false
        → score f error_text n
          ≡ calculate_with f error_text n
              (Calculator.new_score_calculator f n.scoring_system n.fail_errors)
    unfolding score
    score_direct h = ground arith

    calculate_with-Perm :
        (l : List Child) (o : Option (Calculator f))
        → ((c : Calculator f) → o ≡ some c → IsExact c)
        → Perm n.child_scores l
        → calculate_with f error_text n o
          ≡ calculate_with f error_text (record n { child_scores = l }) o
    unfolding calculate_with conclude
    calculate_with-Perm l none h p = refl
    calculate_with-Perm l (some c) h p = conclude-Perm n c (h c refl) p

  -- The score of a job that computes it by a calculator other than the decayed one, or the error,
  -- is the same whatever the order in which its children are visited.
  pub score-Perm :
      {V : Type 0} (error_text : ScoringSystem → String) (n : Job V) (l : List Child)
      → n.forward_score ≡ false
      → n.scoring_system ≢ ScoringSystem.decayed
      → Perm n.child_scores l
      → score f error_text n ≡ score f error_text (record n { child_scores = l })
  score-Perm error_text n l direct exact p =
      score_direct error_text n direct
      ∙ calculate_with-Perm error_text n l _
          (λ c new. new-IsExact f n.scoring_system n.fail_errors c new exact) p
      ∙ sym (score_direct error_text (record n { child_scores = l }) direct)
