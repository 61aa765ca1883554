-- ===== src/Node/Finisher/Static.antt =====
-- `StaticReportingJobNodeData`: a score that is known up front and sent once.
use cnspec.Score.{Score}
use cnspec.Common.{some, true, none, if◌then◌else◌, Option, Bool}

pub record Static : Type 0 where
  pub score : Score
  pub sent : Bool

-- `consume` logs and drops what it is given.
unfoldable pub consume : Static → Static
consume n = n

-- `recalculate`
unfoldable pub recalculate : Static → Static × Option Score
recalculate n = if n.sent then (n, none) else (record n { sent = true }, some n.score)
