-- ===== src/Graph/Builder.antt =====
-- The priorities of policy/executor/internal/builder.go: `prioritizeNode` and the loop
-- over it in `Build`. Recursion over edges is on fuel, and `none`
-- means that the fuel ran out.
pub mod Height
pub mod Priority
use cnspec.Common.{
  ℕ, zero, suc, String, List, [], ◌∷◌, Option, none, some, ltb, if◌then◌else◌, ℤ, pos, negsuc, map,
}
use cnspec.Common.Dict.{lookup, update}
use cnspec.Graph.{Layout, targets}

abbrev pub Priorities : Type 0
Priorities = List (String × ℕ)

-- The loop over the children of a node, with the greatest depth so far.
unfoldable pub deepest :
    (Priorities → String → Option (Priorities × ℕ))
    → List String
    → Priorities
    → ℕ
    → Option (Priorities × ℕ)
deepest visit [] pm depth = some (pm, depth)
deepest visit (v ∷ vs) pm depth = elim (visit pm v) [
  | none ↦ none
  | some r ↦ deepest visit vs r.0 (if ltb depth r.1 then r.1 else depth)
]

-- `priorityMap[n] = childrenMaxDepth + 1`
unfoldable pub assign : String → Priorities × ℕ → Priorities × ℕ
assign n r = (update n (suc r.1) r.0, suc r.1)

module _ (g : Layout) where
  -- `prioritizeNode`
  unfoldable pub prioritize_node : ℕ → Priorities → String → Option (Priorities × ℕ)
  prioritize_node zero pm n = none
  prioritize_node (suc fuel) pm n = elim (lookup n pm) [
    | some d ↦ some (pm, d)
    | none ↦ elim (deepest (prioritize_node fuel) (targets g n) pm 0) [
      | none ↦ none
      | some r ↦ some (assign n r)
    ]
  ]

  -- The loop over the nodes in `Build`.
  unfoldable pub prioritize_all : ℕ → List String → Priorities → Option Priorities
  prioritize_all fuel [] pm = some pm
  prioritize_all fuel (n ∷ ns) pm = elim (prioritize_node fuel pm n) [
    | none ↦ none
    | some r ↦ prioritize_all fuel ns r.0
  ]

abbrev pub collection_finisher_id : String
collection_finisher_id = "__collection_finisher__"

-- `math.MinInt`
abbrev pub min_int : ℤ
min_int = negsuc 9223372036854775807

unfoldable pub as_ints : Priorities → List (String × ℤ)
as_ints [] = []
as_ints ((n, p) ∷ pm) = (n, pos p) ∷ as_ints pm

-- `Build` outside of rescore mode, from the nodes and edges on: the finisher comes last.
unfoldable pub priority_map : ℕ → Layout → List String → Option (List (String × ℤ))
priority_map fuel g ns = elim (prioritize_all g fuel ns []) [
  | none ↦ none
  | some pm ↦ some (update collection_finisher_id min_int (as_ints pm))
]
