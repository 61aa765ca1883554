-- ===== src/Node/Collectors.antt =====
-- `DatapointCollectorNodeData` and `ScoreCollectorNodeData` of policy/executor/internal/nodes.go. The
-- collectors that are configured are outside; the state lists the batches that were handed to them,
-- the latest first. Each collector is handed the same batches.
pub mod Delivery
use cnspec.Node.Result.{RawResult}
use cnspec.Score.{Score}
use cnspec.Common.{
  Bool, true, false, String, str_eq, List, [], ◌∷◌, Option, none, some, if◌then◌else◌,
}
use cnspec.Common.Dict.{update}

pub record Collector (A : Type 0) : Type 0 where
  pub unreported : List (String × A)
  pub invalidated : Bool
  pub sunk : List (List A)

module _ {A : Type 0} where
  -- The values of the map, in the order in which Go ranges over it.
  unfoldable pub values : List (String × A) → List A
  values [] = []
  values ((k, a) ∷ m) = a ∷ values m

  -- `initialize`
  unfoldable pub initialize : Collector A → Collector A
  initialize n = elim n.unreported [ [] ↦ n | x ∷ xs ↦ record n { invalidated = true } ]

  unfoldable pub collect : String → A → Collector A → Collector A
  collect k a n = record n { unreported = update k a n.unreported; invalidated = true }

  -- `recalculate` hands all that is unreported over and forgets it; it sends nothing on.
  unfoldable pub recalculate : Collector A → Collector A
  recalculate n =
      if n.invalidated
      then record { unreported = []; invalidated = false; sunk = values n.unreported ∷ n.sunk }
      else n

-- `consume` of a datapoint.
unfoldable pub consume_result :
    {V : Type 0} → Option (RawResult V) → Collector (RawResult V) → Collector (RawResult V)
consume_result none n = n
consume_result (some r) n = collect r.code_id r n

-- `consume` of a score; `none` is the panic on a score without an id.
unfoldable pub consume_score : String → Option Score → Collector Score → Option (Collector Score)
consume_score from none n = some n
consume_score from (some s) n = if str_eq s.qr_id "" then none else some (collect from s n)

-- What the graph does to a collector.
pub data Event (A : Type 0) : Type 0 where
  arrive : String → A → Event A
  recalc : Event A

module _ {A : Type 0} where
  unfoldable pub handle : Collector A → Event A → Collector A
  handle n (arrive k a) = collect k a n
  handle n recalc = recalculate n

  unfoldable pub run : Collector A → List (Event A) → Collector A
  run n [] = n
  run n (e ∷ es) = run (handle n e) es
