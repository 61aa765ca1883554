-- ===== src/Node/ReportingJob/Emission.antt =====
-- When a job of policy/executor/internal/nodes.go sends its score on.

use cnspec.Node.ReportingJob.{completion, ScoreType, ScoringSystem, Score, Float64, Job}
use cnspec.Node.ReportingJob.Scoring.{score, Outcome, send, recalculate}
use cnspec.Common.{
  inl, ◌==◌, ◌∙◌, Bool-cases, ap, inr, str_eq, false, none, true, arith, ◌⊎◌, some, ◌≡◌, String,
}

module _ {V : Type 0} (f : Float64) (error_text : ScoringSystem → String) where
  -- The score comes from a finished calculation or from an error.
  abbrev Final : Job V → Job V → Score → Type 0
  Final n m s =
      (m ≡ record n { completed = true }) × ((completion s ≡ 100) ⊎ (s.type ≡ ScoreType.error))

  send-Final : (n m : Job V) (x : Outcome) (s : Score) → send f n x ≡ some (m, some s) → Final n m s
  unfolding send
  send-Final n m Outcome.panics s e = cc
  send-Final n m (Outcome.fails t) s e = (ground arith, inr (ground arith))
  send-Final n m Outcome.pending s e = cc
  send-Final n m (Outcome.scored r) s e = elim (Bool-cases (completion r == 100)) [
    | inl full ↦ (ground arith, inl (ground arith))
    | inr open_end ↦ absurd (ground arith)
  ]

  recalculate-send :
      (n m : Job V) (s : Score)
      → recalculate f error_text n ≡ some (m, some s)
      → (str_eq n.query_id "" ≡ false)
        × (send f (record n { invalidated = false }) (score f error_text n) ≡ some (m, some s))
  unfolding recalculate
  recalculate-send n m s e = ground arith

  recalculate_idle :
      (n : Job V)
      → str_eq n.query_id "" ≡ false
      → n.completed ≡ true
      → recalculate f error_text n ≡ some (n, none)
  unfolding recalculate
  recalculate_idle n named done = ground arith

  -- A recalculation that sends a score sends one that is fully complete or an error, and marks the
  -- job as completed, so that the next recalculation sends nothing and changes nothing.
  pub recalculate_sends :
      (n m : Job V) (s : Score)
      → recalculate f error_text n ≡ some (m, some s)
      → ((completion s ≡ 100) ⊎ (s.type ≡ ScoreType.error))
        × (m.completed ≡ true)
        × (recalculate f error_text m ≡ some (m, none))
  recalculate_sends n m s e =
      let (named, sent) = recalculate-send n m s e in
      let (same, final) =
        send-Final (record n { invalidated = false }) m (score f error_text n) s sent in
      let done : m.completed ≡ true = ap (λ (x : Job V). x.completed) same in
      let id : m.query_id ≡ n.query_id = ap (λ (x : Job V). x.query_id) same in
      (final, done, recalculate_idle m (ap (λ t. str_eq t "") id ∙ named) done)
