-- ===== src/Node/ReportingJob/Control.antt =====
-- A control in `ReportingJobNodeData` of policy/executor/internal/nodes.go: what becomes of the
-- errors of its checks.
use cnspec.Calculator
use cnspec.Calculator.{Calculator}
use cnspec.Calculator.Float.{Float64}
use cnspec.Calculator.Summary.{tally}
use cnspec.Calculator.Tally.{Tally}
use cnspec.Common.{false, Option, none, some, ◌≡◌}
use cnspec.Impact.{Impact}
use cnspec.Score.{Score}

-- A calculator that was given no errors computes none.

module _ (f : Float64) where
  abbrev HasNoError : Option (Calculator f) → Type 0
  HasNoError none = Unit
  HasNoError (some c) = (tally f c).has_errors ≡ false
