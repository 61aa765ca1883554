-- ===== src/Graph/Nodes/Laws.antt =====
-- All types of nodes satisfy what the rounds of the executor rely on.
use cnspec.Node.Datapoint.{Datapoint}
use cnspec.Node.ExecutionQuery.{ExecutionQuery}
use cnspec.Node.ReportingQuery.{ReportingQuery}
use cnspec.Node.ReportingJob.{Job}
use cnspec.Node.Finisher.Static.{Static}
use cnspec.Common.{Bool, true, false, String, Option, none, some, ◌≡◌, arith}
use cnspec.Score.{Score}
use cnspec.Node.Result.{RawResult}
use cnspec.Graph.Level.{NodeLaws}
use cnspec.Graph.Nodes.{
  Node, Envelope, Libraries, execution_query, datapoint, reporting_query, reporting_job, static_job,
  datapoint_collector, score_collector, finisher, consume, recalculate, node_data, with_score,
}
use cnspec.Node.Datapoint
use cnspec.Node.ExecutionQuery
use cnspec.Node.ReportingQuery
use cnspec.Node.ReportingJob.Scoring
use cnspec.Node.Finisher
use cnspec.Node.Finisher.Static
use cnspec.Node.Collectors

module _ {V P : Type 0} where
  abbrev pub speaking : Node V P → Bool
  speaking (execution_query n) = false
  speaking _ = true

  abbrev pub deaf : Node V P → Bool
  deaf (datapoint n) = true
  deaf _ = false

module _ {V : Type 0} where
  both_none : Option (RawResult V) → Option Score → Bool
  both_none none none = true
  both_none _ _ = false

  unfoldable pub is_empty : Envelope V → Bool
  unfolding both_none
  is_empty e = both_none e.res e.score

module _ {V P : Type 0} (lib : Libraries V P) where
  settled_query :
      (n : ExecutionQuery P) (m : Node V P) (out : Option (Envelope V))
      → recalculate lib (execution_query n) ≡ some (m, out)
      → recalculate lib m ≡ some (m, none)
  unfolding recalculate ExecutionQuery.recalculate
  settled_query n m out e = ground arith

  settled_datapoint :
      (n : Datapoint V) (m : Node V P) (out : Option (Envelope V))
      → recalculate lib (datapoint n) ≡ some (m, out)
      → recalculate lib m ≡ some (m, none)
  unfolding recalculate Datapoint.recalculate
  settled_datapoint n m out e = ground arith

  settled_reporting_query :
      (n : ReportingQuery V) (m : Node V P) (out : Option (Envelope V))
      → recalculate lib (reporting_query n) ≡ some (m, out)
      → recalculate lib m ≡ some (m, none)
  unfolding recalculate ReportingQuery.recalculate with_score
  settled_reporting_query n m out e = ground arith

  settled_job :
      (n : Job V) (m : Node V P) (out : Option (Envelope V))
      → recalculate lib (reporting_job n) ≡ some (m, out)
      → recalculate lib m ≡ some (m, none)
  unfolding recalculate Scoring.recalculate with_score
  settled_job n m out e = ground arith

  settled_static :
      (n : Static) (m : Node V P) (out : Option (Envelope V))
      → recalculate lib (static_job n) ≡ some (m, out)
      → recalculate lib m ≡ some (m, none)
  unfolding recalculate Static.recalculate with_score
  settled_static n m out e = ground arith

  pub settled :
      (n m : Node V P) (out : Option (Envelope V))
      → recalculate lib n ≡ some (m, out)
      → recalculate lib m ≡ some (m, none)
  unfolding recalculate Collectors.recalculate Finisher.recalculate
  settled (execution_query n) m out e = settled_query n m out e
  settled (datapoint n) m out e = settled_datapoint n m out e
  settled (reporting_query n) m out e = settled_reporting_query n m out e
  settled (reporting_job n) m out e = settled_job n m out e
  settled (static_job n) m out e = settled_static n m out e
  settled (datapoint_collector n) m out e = ground arith
  settled (score_collector n) m out e = ground arith
  settled (finisher n) m out e = ground arith

  pub quiet :
      (n m : Node V P) (e : Envelope V)
      → recalculate lib n ≡ some (m, some e)
      → speaking n ≡ false
      → is_empty e ≡ true
  unfolding recalculate is_empty
  quiet (execution_query n) m e r h = ground arith
  quiet (datapoint n) m e r h = cc
  quiet _ m e r h = cc

  pub ignored :
      (from : String) (e : Envelope V) (n m : Node V P)
      → consume lib from e n ≡ some m
      → deaf n ≡ true
      → is_empty e ≡ true
      → m ≡ n
  unfolding consume is_empty Datapoint.consume
  ignored from e (datapoint n) m c h empty = ground arith
  ignored from e (execution_query n) m c h empty = cc
  ignored from e _ m c h empty = cc

  pub recalculate_kind :
      (n m : Node V P) (out : Option (Envelope V))
      → recalculate lib n ≡ some (m, out)
      → (speaking m ≡ speaking n) × (deaf m ≡ deaf n)
  unfolding recalculate
  recalculate_kind (execution_query n) m out e = ground arith
  recalculate_kind (datapoint n) m out e = ground arith
  recalculate_kind _ m out e = ground arith

  pub consume_kind :
      (from : String) (e : Envelope V) (n m : Node V P)
      → consume lib from e n ≡ some m
      → (speaking m ≡ speaking n) × (deaf m ≡ deaf n)
  unfolding consume
  consume_kind from e (execution_query n) m c = ground arith
  consume_kind from e (datapoint n) m c = ground arith
  consume_kind from e _ m c = ground arith

  unfoldable pub node_laws : NodeLaws (node_data lib)
  unfolding node_data
  node_laws = record {
    speaking = speaking;
    deaf = deaf;
    is_empty = is_empty;
    settled = settled;
    quiet = quiet;
    ignored = ignored;
    recalculate_kind = recalculate_kind;
    consume_kind = consume_kind;
  }
