-- ===== src/Tests/Graphs.antt =====
-- A datapoint that sends its result to the collector of datapoints, in the graph of the executor.
use mathlib.Core.Path.{subst}
use cnspec.Common.{
  ℕ, suc, ◌<◌, Bool, true, false, Bool-cases, String, str_eq, eq_iff, List, [], ◌∷◌, none, some,
  All, if◌then◌else◌, ◌≡◌, ◌≢◌, ◌⊎◌, refl, arith, inl, inr, ℤ, pos,
}
use cnspec.Common.Dict.{lookup, update, lookup-All}
use cnspec.Common.Integers.{◌<ℤ◌}
use cnspec.Common.Keys.{IsDistinct}
use cnspec.Common.Sums.{sum_of}
use cnspec.Tests.Data.{naturals}
use cnspec.Tests.Nodes.{result, casting}
use cnspec.Tests.Heaps.{list_heap, list_heap_laws, extract}
use cnspec.Node.Result.{RawResult}
use cnspec.Node.Datapoint
use cnspec.Node.Datapoint.{Datapoint}
use cnspec.Node.ReportingQuery.{Library}
use cnspec.Node.Collectors
use cnspec.Node.Collectors.{Collector}
use cnspec.Graph.{
  Item, Layout, State, Outcome, drain, targets, priority_of, pop_visit, visit, send, deliver,
}
use cnspec.Graph.Nodes.{Node, Envelope, Libraries, node_data, recalculate, consume}
use cnspec.Graph.Nodes.Laws
use cnspec.Graph.Nodes.Laws.{node_laws}
use cnspec.Graph.Drain.{IsAcyclic, cost}
use cnspec.Graph.Level.{IsRanked, IsLayered, IsCovered, WaitsAt}
use cnspec.Graph.Once.{sends_once}
use cnspec.Graph.Execute.{Message, Batch, exhausted, execute}
use cnspec.Graph.Execute.UpToDate.{EndsUpToDate, execute_up_to_date}
use cnspec.Graph.Builder.{priority_map, collection_finisher_id, min_int}
use cnspec.Graph.Builder.Height.{height, greatest}
use cnspec.Graph.Builder.Priority.{build_priorities}
use cnspec.Graph.Execute.Ends.{nodes_load, results_load, message_load, execute_ends}

abbrev reading : Library ℕ
reading = record {
  score_of = λ d. none;
  is_success = λ d. (true, true);
  has_prefix = λ s p. false;
  sort_strings = λ ss. ss;
  message = λ es. "";
}

abbrev libraries : Libraries ℕ ℕ
libraries = record {
  casting = casting;
  protos = record { to_proto = λ r. 0; is_nil_proto = λ p. false };
  reading = reading;
  float = naturals;
  error_text = λ s. "";
}

abbrev layout : Layout
layout = record { edges = ("d", "c" ∷ []) ∷ []; priority_map = ("d", pos 2) ∷ ("c", pos 1) ∷ [] }

abbrev rank : String → ℕ
rank n = if str_eq "d" n then 1 else 0

-- What holds for the node "d", and for all nodes that send to no other.
by_edges :
    (P : String → List String → Type 0)
    → P "d" ("c" ∷ [])
    → ((n : String) → P n [])
    → (n : String) → P n (targets layout n)
unfolding targets lookup
by_edges P d others n = elim (Bool-cases (str_eq "d" n)) [
  | inl same ↦ subst (λ m. P m (targets layout m)) ((eq_iff "d" n).0 same) d
  | inr other ↦ rw other (others n)
]

layout-IsAcyclic : IsAcyclic layout rank
layout-IsAcyclic = by_edges (λ n vs. All (λ v. rank v < rank n) vs) (omega arith, tt) (λ n. tt)

abbrev point : Bool → Datapoint ℕ
point fresh = record {
  expected_type = none;
  is_reported = true;
  invalidated = fresh;
  dump_datapoints = false;
  res = some (result "d" (some 7) none);
}

abbrev sink : List (List (RawResult ℕ)) → Collector (RawResult ℕ)
sink handed = record { unreported = []; invalidated = false; sunk = handed }

abbrev before : State (Node ℕ ℕ)
before = record {
  nodes = ("d", Node.datapoint (point true)) ∷ ("c", Node.datapoint_collector (sink [])) ∷ [];
  queue = record { receiver = "d"; sender = ""; priority = pos 3 } ∷ [];
  sent = [];
}

abbrev after : State (Node ℕ ℕ)
after = record {
  nodes =
      ("d", Node.datapoint (point false))
      ∷ ("c", Node.datapoint_collector (sink ((result "d" (some 7) none ∷ []) ∷ [])))
      ∷ [];
  queue = [];
  sent = "d" ∷ [];
}

round_run : drain list_heap (node_data libraries) layout 2 before ≡ Outcome.drained after
unfolding drain pop_visit list_heap visit lookup extract node_data recalculate send deliver targets
    update consume Datapoint.recalculate Collectors.recalculate Collectors.consume_result
    Collectors.collect Collectors.values
round_run = refl

abbrev level : String → ℤ
level n = if str_eq "d" n then pos 3 else priority_of layout n

layout-IsRanked : IsRanked layout level
unfolding priority_of lookup
layout-IsRanked = record {
  falls =
      by_edges (λ n vs. All (λ v. priority_of layout v <ℤ priority_of layout n) vs)
        (omega arith, tt) (λ n. tt);
  raised = λ u. ground arith;
}

before-IsLayered : IsLayered (node_data libraries) (node_laws libraries) layout level before.nodes
unfolding node_laws targets lookup priority_of
before-IsLayered u n found =
    lookup-All
      (λ v m.
        (Laws.speaking m ≡ true → All (λ w. priority_of layout w ≡ level w) (targets layout v))
        × (Laws.speaking m ≡ false
            → All (λ w. (k : Node ℕ ℕ) → lookup w before.nodes ≡ some k → Laws.deaf k ≡ true)
                (targets layout v)))
      u n before.nodes ((λ e. (refl, tt), λ e. cc), ((λ e. tt, λ e. tt), tt)) found

before-IsCovered : IsCovered (node_data libraries) (node_laws libraries) layout level before
unfolding node_data recalculate Datapoint.recalculate Collectors.recalculate
before-IsCovered u n found =
    lookup-All
      (λ v m. (recalculate libraries m ≡ some (m, none)) ⊎ WaitsAt v (level v) before.queue) u n
      before.nodes (inr (inl (refl, refl)), (inl refl, tt)) found

sends_once_example :
    IsDistinct ("d" ∷ [])
    × (◌≡◌ {A = List Item} [] [])
    × ((u : String) (n : Node ℕ ℕ)
        → lookup u after.nodes ≡ some n
        → recalculate libraries n ≡ some (n, none))
unfolding node_data priority_of lookup
sends_once_example =
    sends_once list_heap list_heap_laws (node_data libraries) (node_laws libraries) layout level
      layout-IsRanked 2 before after before-IsLayered before-IsCovered
      ((omega arith, omega arith), tt) refl round_run

abbrev messages : List (Batch (Envelope ℕ))
messages =
    record {
      first = Message.result "d" (record { res = some (result "d" (some 7) none); score = none });
      rest = [];
    }
    ∷ record { first = Message.collected; rest = [] }
    ∷ []

execute_ends_example :
    execute list_heap (node_data libraries) layout 5 false messages before.nodes ≢ exhausted
unfolding nodes_load message_load results_load cost sum_of targets lookup
execute_ends_example =
    execute_ends list_heap list_heap_laws (node_data libraries) layout rank layout-IsAcyclic 5 false
      messages before.nodes (omega arith) (omega arith)

execute_up_to_date_example :
    EndsUpToDate list_heap list_heap_laws
      (node_data libraries)
      (node_laws libraries)
      layout
      (execute list_heap (node_data libraries) layout 5 false messages before.nodes)
execute_up_to_date_example =
    execute_up_to_date list_heap list_heap_laws (node_data libraries) (node_laws libraries) layout 5
      messages before.nodes

build_priorities_example :
    (pm : List (String × ℤ)) × (priority_map 2 layout ("d" ∷ "c" ∷ []) ≡ some pm)
    × All
        (λ n.
          lookup n pm
          ≡ some (
              if str_eq collection_finisher_id n
              then min_int
              else pos (height layout rank layout-IsAcyclic n)))
        ("d" ∷ "c" ∷ [])
    × ((n : String)
        → height layout rank layout-IsAcyclic n
          ≡ suc (greatest (height layout rank layout-IsAcyclic) (targets layout n) 0))
    × ((n : String)
        → All
            (λ v. height layout rank layout-IsAcyclic v < height layout rank layout-IsAcyclic n)
            (targets layout n))
build_priorities_example =
    build_priorities layout rank layout-IsAcyclic 2 ("d" ∷ "c" ∷ [])
      (omega arith, (omega arith, tt))
