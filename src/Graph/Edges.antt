-- ===== src/Graph/Edges.antt =====
-- `addEdge` and `insertSorted` of policy/executor/internal/builder.go. Node ids are strings that Go
-- compares with `==` and `<`; both tests are parameters. The map of edges is a function, which gives
-- no targets for a missing key. Every list of targets is ascending, and on such a list
-- `sort.SearchStrings` finds the first place whose id is not less.
pub mod Sets
use cnspec.Common.{Bool, List, [], ◌∷◌, if◌then◌else◌}

module _ {NodeId : Type 0} (same less : NodeId → NodeId → Bool) where
  -- `insertSorted`
  unfoldable pub insert_sorted : List NodeId → NodeId → List NodeId
  insert_sorted [] s = s ∷ []
  insert_sorted (x ∷ ss) s =
      let rest = insert_sorted ss s in
      if less x s then x ∷ rest else if same x s then x ∷ ss else s ∷ x ∷ ss

  -- `addEdge`
  unfoldable pub add_edge : (NodeId → List NodeId) → NodeId × NodeId → NodeId → List NodeId
  add_edge edges (from, to) n = if same from n then insert_sorted (edges n) to else edges n

  -- All calls of `addEdge` in `Build`, one after the other.
  unfoldable pub add_edges : (NodeId → List NodeId) → List (NodeId × NodeId) → NodeId → List NodeId
  add_edges edges [] = edges
  add_edges edges (e ∷ es) = add_edges (add_edge edges e) es
