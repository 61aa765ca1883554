-- ===== src/Graph/Execute.antt =====
-- `GraphExecutor.Execute` of policy/executor/internal/graph.go. What arrives on the channels while the
-- executor waits is a list of batches: the message that ends the wait, and the results that are
-- then drained. Each round has the given fuel. Starting and stopping the execution manager has no
-- effect on the graph.
pub mod UpToDate
pub mod Ends
use cnspec.Common.{
  ℕ, suc, length, Bool, true, false, not, ◌&&◌, String, List, [], ◌∷◌, Option, none, some,
  if◌then◌else◌, pos,
}
use cnspec.Common.Dict.{lookup, update}
use cnspec.Graph.{Item, Heap, NodeData, Layout, State, drained, panic, out_of_fuel, drain}

pub data Message (E : Type 0) : Type 0 where
  -- A result for a datapoint, in its envelope.
  result : String → E → Message E
  collected : Message E
  failed : Message E

pub record Batch (E : Type 0) : Type 0 where
  pub first : Message E
  pub rest : List (String × E)

pub data End (N : Type 0) : Type 0 where
  finished stopped waiting : State N → End N
  panics exhausted : End N

module _ {N E : Type 0} (h : Heap) (d : NodeData N E) (g : Layout) where
  abbrev pub item_for : String → ℕ → String → Item
  item_for from priority v = record { receiver = v; sender = from; priority = pos priority }

  -- The loop that initializes the nodes and queues them; in rescore mode only static jobs are queued.
  unfoldable pub initialize_all :
      Bool → ℕ → List (String × N) → List Item → Option (List (String × N) × List Item)
  initialize_all rescore top [] q = some ([], q)
  initialize_all rescore top ((k, n) ∷ ns) q = elim (d.initialize n) [
    | none ↦ none
    | some m ↦
        elim (initialize_all rescore top ns (
          if rescore && not (d.is_static m)
          then q
          else h.push (item_for "__initialize__" top k) q)) [
            | none ↦ none
            | some r ↦ some ((k, m) ∷ r.0, r.1)
          ]
  ]

  -- What is done with a result that was received.
  unfoldable pub receive : ℕ → String → E → State N → Option (State N)
  receive top k e s = elim (lookup k s.nodes) [
    | none ↦ none
    | some n ↦ elim (d.consume "" e n) [
      | none ↦ none
      | some m ↦
          some (record s { nodes = update k m s.nodes; queue = h.push (item_for "" top k) s.queue })
    ]
  ]

  unfoldable pub receive_all : ℕ → List (String × E) → State N → Option (State N)
  receive_all top [] s = some s
  receive_all top ((k, e) ∷ rs) s = elim (receive top k e s) [
    | none ↦ none
    | some t ↦ receive_all top rs t
  ]

  -- The `select` that ends the wait, without the results that are drained after it.
  unfoldable pub accept : ℕ → Message E → State N → Option (State N)
  accept top (result k e) s = receive top k e s
  accept top collected s = some s
  accept top failed s = some s

  abbrev pub is_failed : Message E → Bool
  is_failed failed = true
  is_failed _ = false

  abbrev pub is_collected : Message E → Bool
  is_collected collected = true
  is_collected _ = false

  unfoldable pub take_batch : ℕ → Batch E → State N → Option (State N)
  take_batch top b s = elim (accept top b.first s) [
    | none ↦ none
    | some t ↦ receive_all top b.rest t
  ]

  -- The loop, in rounds; `collected_all` is the variable `done`.
  unfoldable pub rounds : ℕ → ℕ → Bool → Bool → List (Batch E) → State N → End N
  rounds fuel top rescore collected_all [] s = elim (drain h d g fuel s) [
    | drained t ↦ if rescore then finished t else if collected_all then finished t else waiting t
    | panic ↦ panics
    | out_of_fuel ↦ exhausted
  ]
  rounds fuel top rescore collected_all (b ∷ bs) s = elim (drain h d g fuel s) [
    | drained t ↦
        if rescore
        then finished t
        else if collected_all
        then finished t
        else if is_failed b.first
        then stopped t
        else elim (take_batch top b t) [
          | none ↦ panics
          | some u ↦ rounds fuel top rescore (is_collected b.first) bs u
        ]
    | panic ↦ panics
    | out_of_fuel ↦ exhausted
  ]

  -- `Execute`; without an execution manager it rescores.
  unfoldable pub execute : ℕ → Bool → List (Batch E) → List (String × N) → End N
  execute fuel rescore bs nodes =
      let top = suc (length nodes) in
      elim (initialize_all rescore top nodes []) [
        | none ↦ panics
        | some r ↦ rounds fuel top rescore false bs (record { nodes = r.0; queue = r.1; sent = [] })
      ]
