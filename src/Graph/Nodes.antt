-- ===== src/Graph/Nodes.antt =====
-- The types of nodes in the graph (policy/executor/internal/nodes.go) behind the interface of the
-- executor, and `Execute` of graph.go over any nodes. Putting a query on the run queue shows in the
-- state of its node. A message that is waited for comes from outside.
pub mod Laws
use cnspec.Common.{ℕ, Bool, true, false, String, List, [], ◌∷◌, Option, none, some, if◌then◌else◌}
use mathlib.Core.Option
use cnspec.Score.{Score}
use cnspec.Impact.{ScoringSystem}
use cnspec.Calculator.Float.{Float64}
use cnspec.Graph.{NodeData}
use cnspec.Node.Result.{RawResult}
use cnspec.Node.Datapoint
use cnspec.Node.Datapoint.{Datapoint, Casting}
use cnspec.Node.ExecutionQuery
use cnspec.Node.ExecutionQuery.{ExecutionQuery, Protos}
use cnspec.Node.ReportingQuery
use cnspec.Node.ReportingQuery.{ReportingQuery, Library}
use cnspec.Node.ReportingJob
use cnspec.Node.ReportingJob.{Job}
use cnspec.Node.ReportingJob.Scoring
use cnspec.Node.Finisher
use cnspec.Node.Finisher.{Finisher}
use cnspec.Node.Finisher.Static
use cnspec.Node.Finisher.Static.{Static}
use cnspec.Node.Collectors
use cnspec.Node.Collectors.{Collector}

-- `envelope`
pub record Envelope (V : Type 0) : Type 0 where
  pub res : Option (RawResult V)
  pub score : Option Score

abbrev pub empty_envelope : {V : Type 0} → Envelope V
empty_envelope = record { res = none; score = none }

pub data Node (V P : Type 0) : Type 0 where
  execution_query : ExecutionQuery P → Node V P
  datapoint : Datapoint V → Node V P
  reporting_query : ReportingQuery V → Node V P
  reporting_job : Job V → Node V P
  static_job : Static → Node V P
  datapoint_collector : Collector (RawResult V) → Node V P
  score_collector : Collector Score → Node V P
  finisher : Finisher → Node V P

-- What the nodes take from libraries.
pub record Libraries (V P : Type 0) : Type 1 where
  pub casting : Casting V
  pub protos : Protos V P
  pub reading : Library V
  pub float : Float64
  pub error_text : ScoringSystem → String

module _ {V P : Type 0} (lib : Libraries V P) where
  unfoldable pub initialize : Node V P → Option (Node V P)
  initialize (execution_query n) = some (execution_query (ExecutionQuery.initialize n))
  initialize (datapoint n) = Option.map datapoint (Datapoint.initialize lib.casting n)
  initialize (reporting_query n) = some (reporting_query (ReportingQuery.initialize n))
  initialize (reporting_job n) = some (reporting_job (ReportingJob.initialize n))
  initialize (static_job n) = some (static_job n)
  initialize (datapoint_collector n) = some (datapoint_collector (Collectors.initialize n))
  initialize (score_collector n) = some (score_collector (Collectors.initialize n))
  initialize (finisher n) = some (finisher (Finisher.initialize n))

  unfoldable pub consume : String → Envelope V → Node V P → Option (Node V P)
  consume from e (execution_query n) =
      some (execution_query (ExecutionQuery.consume lib.protos n e.res))
  consume from e (datapoint n) = Option.map datapoint (Datapoint.consume lib.casting n e.res)
  consume from e (reporting_query n) = some (reporting_query (ReportingQuery.consume from e.res n))
  consume from e (reporting_job n) =
      Option.map reporting_job (ReportingJob.consume from e.res e.score n)
  consume from e (static_job n) = some (static_job (Static.consume n))
  consume from e (datapoint_collector n) =
      some (datapoint_collector (Collectors.consume_result e.res n))
  consume from e (score_collector n) =
      Option.map score_collector (Collectors.consume_score from e.score n)
  consume from e (finisher n) = some (finisher (Finisher.consume from n))

  -- The envelope of a score.
  unfoldable pub with_score : Option Score → Option (Envelope V)
  with_score none = none
  with_score (some s) = some (record { res = none; score = some s })

  unfoldable pub recalculate : Node V P → Option (Node V P × Option (Envelope V))
  recalculate (execution_query n) =
      let (m, sent, queued) = ExecutionQuery.recalculate n in
      some (execution_query m, if sent then some empty_envelope else none)
  recalculate (datapoint n) =
      let (m, out) = Datapoint.recalculate n in
      some (datapoint m, if n.invalidated then some (record { res = out; score = none }) else none)
  recalculate (reporting_query n) =
      Option.map (λ r. (reporting_query r.0, with_score r.1))
        (ReportingQuery.recalculate lib.reading n)
  recalculate (reporting_job n) =
      Option.map (λ r. (reporting_job r.0, with_score r.1))
        (Scoring.recalculate lib.float lib.error_text n)
  recalculate (static_job n) =
      let (m, out) = Static.recalculate n in some (static_job m, with_score out)
  recalculate (datapoint_collector n) = some (datapoint_collector (Collectors.recalculate n), none)
  recalculate (score_collector n) = some (score_collector (Collectors.recalculate n), none)
  recalculate (finisher n) = some (finisher (Finisher.recalculate n), none)

  abbrev is_static : Node V P → Bool
  is_static (static_job n) = true
  is_static _ = false

  unfoldable pub node_data : NodeData (Node V P) (Envelope V)
  node_data = record {
    initialize = initialize;
    consume = consume;
    recalculate = recalculate;
    is_static = is_static;
  }
