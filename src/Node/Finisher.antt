-- ===== src/Node/Finisher.antt =====
-- `CollectionFinisherNodeData` and `StaticReportingJobNodeData` of
-- policy/executor/internal/nodes.go. Closing the channel `doneChan` a second time would panic, so
-- the state counts how often it was closed. Log and progress messages have no effect here; the
-- numbers that are reported to the progress bar are kept in a list, the latest first.
pub mod Closing
pub mod Static
use cnspec.Common.Keys.{is_empty, delete}
use cnspec.Common.{
  suc, length, [], ◌-◌, str_eq, ◌∷◌, true, false, Bool, if◌then◌else◌, List, String, ℕ,
}

pub record Finisher : Type 0 where
  pub total_datapoints : ℕ
  pub remaining : List String
  pub invalidated : Bool
  pub closed : ℕ
  pub progress : List (ℕ × ℕ)

-- `initialize`
unfoldable pub initialize : Finisher → Finisher
unfolding is_empty
initialize n = if is_empty n.remaining then record n { invalidated = true } else n

-- `consume`
unfoldable pub consume : String → Finisher → Finisher
unfolding is_empty
consume from n =
    if is_empty n.remaining
    then n
    else record n { remaining = delete from n.remaining; invalidated = true }

-- `recalculate`
unfoldable pub recalculate : Finisher → Finisher
unfolding is_empty
recalculate n =
    if n.invalidated
    then record n {
      invalidated = false;
      progress = (n.total_datapoints - length n.remaining, n.total_datapoints) ∷ n.progress;
      closed = if is_empty n.remaining then suc n.closed else n.closed;
    }
    else n

pub data Event : Type 0 where
  finished : String → Event
  recalc : Event

unfoldable pub handle : Finisher → Event → Finisher
handle n (finished from) = consume from n
handle n recalc = recalculate n

unfoldable pub run : Finisher → List Event → Finisher
run n [] = n
run n (e ∷ es) = run (handle n e) es
