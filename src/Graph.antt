-- ===== src/Graph.antt =====
-- The graph executor of policy/executor/internal: graph.go (the rounds of `Execute`) and queue.go.
-- `container/heap` is Go's library: `heap.Push` and `heap.Pop` are parameters, which order items by
-- `Less`. Maps are association lists, and a missing node is a nil pointer, whose use panics.
-- A round is a loop on fuel.
pub mod Builder
pub mod Edges
pub mod Drain
pub mod Sending
pub mod Once
pub mod Rule
pub mod Nodes
pub mod Execute
pub mod Level
pub mod Settled
use cnspec.Common.{
  ℕ, zero, suc, Bool, false, String, List, [], ◌∷◌, Option, none, some, ℤ, ◌≡◌, pos,
}
use cnspec.Common.Dict.{lookup, update}
use cnspec.Common.Integers.{ltb_ℤ}
use mathlib.Core.List.{Permᴰ}
use cnspec.Common.{All}

pub record Item : Type 0 where
  pub receiver : String
  pub sender : String
  pub priority : ℤ

-- `PriorityQueue.Less`, of the items at two places.
unfoldable pub less : Item → Item → Bool
less i j = ltb_ℤ j.priority i.priority

-- `heap.Push` and `heap.Pop`; `none` is the panic of `Pop` on an empty queue.
pub record Heap : Type 0 where
  pub push : Item → List Item → List Item
  pub pop : List Item → Option (Item × List Item)

-- What `container/heap` documents: nothing is lost, and `Pop` takes an item that no other is less than.
pub record HeapLaws (h : Heap) : Type 0 where
  pub push_perm : (x : Item) (q : List Item) → Permᴰ (h.push x q) (x ∷ q)
  pub pop_perm : (q r : List Item) (x : Item) → h.pop q ≡ some (x, r) → Permᴰ q (x ∷ r)
  pub pop_least :
      (q r : List Item) (x : Item) → h.pop q ≡ some (x, r) → All (λ y. less y x ≡ false) r
  pub pop_some : (x : Item) (q : List Item) → (p : Item × List Item) × (h.pop (x ∷ q) ≡ some p)

-- The interface `nodeData`, over states `N` and envelopes `E`; `none` is a panic.
pub record NodeData (N E : Type 0) : Type 0 where
  pub initialize : N → Option N
  pub consume : String → E → N → Option N
  pub recalculate : N → Option (N × Option E)
  -- Whether the data is a `StaticReportingJobNodeData`.
  pub is_static : N → Bool

-- `edges` and `priorityMap` of the executor.
pub record Layout : Type 0 where
  pub edges : List (String × List String)
  pub priority_map : List (String × ℤ)

or_nil : Option (List String) → List String
or_nil none = []
or_nil (some vs) = vs

or_zero : Option ℤ → ℤ
or_zero none = pos 0
or_zero (some p) = p

-- `ge.edges[n]` and `ge.priorityMap[n]`
unfoldable pub targets : Layout → String → List String
unfolding or_nil
targets g n = or_nil (lookup n g.edges)

unfoldable pub priority_of : Layout → String → ℤ
unfolding or_zero
priority_of g n = or_zero (lookup n g.priority_map)

-- The nodes and the queue. `sent` lists the nodes that had data to send, the latest first.
pub record State (N : Type 0) : Type 0 where
  pub nodes : List (String × N)
  pub queue : List Item
  pub sent : List String

pub data Outcome (N : Type 0) : Type 0 where
  drained : State N → Outcome N
  panic : Outcome N
  out_of_fuel : Outcome N

module _ {N E : Type 0} (h : Heap) (d : NodeData N E) (g : Layout) where
  abbrev pub item_to : String → String → Item
  item_to from v = record { receiver = v; sender = from; priority = priority_of g v }

  -- The loop over the out edges of `from`.
  unfoldable pub deliver : String → E → List String → State N → Option (State N)
  deliver from e [] s = some s
  deliver from e (v ∷ vs) s = elim (lookup v s.nodes) [
    | none ↦ none
    | some n ↦ elim (d.consume from e n) [
      | none ↦ none
      | some n' ↦
          deliver from e vs
            (record s { nodes = update v n' s.nodes; queue = h.push (item_to from v) s.queue })
    ]
  ]

  -- What becomes of the data that a node returns.
  unfoldable pub send : String → Option E → State N → Option (State N)
  send from none s = some s
  send from (some e) s = deliver from e (targets g from) (record s { sent = from ∷ s.sent })

  -- The body of the loop over the queue, for the item that was popped.
  unfoldable pub visit : Item → State N → Option (State N)
  visit i s = elim (lookup i.receiver s.nodes) [
    | none ↦ none
    | some n ↦ elim (d.recalculate n) [
      | none ↦ none
      | some r ↦ send i.receiver r.1 (record s { nodes = update i.receiver r.0 s.nodes })
    ]
  ]

  unfoldable pub pop_visit : State N → Option (State N)
  pop_visit s = elim (h.pop s.queue) [ none ↦ none | some p ↦ visit p.0 (record s { queue = p.1 }) ]

  -- `for q.Len() > 0`
  unfoldable pub drain : ℕ → State N → Outcome N
  drain zero s = elim s.queue [ [] ↦ drained s | x ∷ q ↦ out_of_fuel ]
  drain (suc fuel) s = elim s.queue [
    | [] ↦ drained s
    | x ∷ q ↦ elim (pop_visit s) [ none ↦ panic | some s' ↦ drain fuel s' ]
  ]
