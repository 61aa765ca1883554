-- ===== src/Resolve/Edges.antt =====
-- `addEdge` and `addNode` of policy/resolved_policy_builder.go.
pub mod Steps
pub mod InSync
pub mod Grown
use cnspec.Common.{
  Bool, true, false, String, List, [], ◌∷◌, ◌++◌, Option, none, some, if◌then◌else◌,
}
use cnspec.Common.Dict.{lookup, update}
use cnspec.Common.Keys.{contains}
use cnspec.Impact.{Impact}
use cnspec.Resolve.{Builder, Node, EdgeImpact}

unfoldable pub is_some : {A : Type 0} → Option A → Bool
is_some none = false
is_some (some a) = true

-- `b.reportsToEdges[from]` and `b.reportsFromEdges[to]`
or_nil : {A : Type 0} → Option (List A) → List A
or_nil none = []
or_nil (some xs) = xs

unfoldable pub targets : Builder → String → List String
unfolding or_nil
targets b from = or_nil (lookup from b.reports_to)

unfoldable pub sources : Builder → String → List EdgeImpact
unfolding or_nil
sources b to = or_nil (lookup to b.reports_from)

-- `addEdge`
unfoldable pub add_edge : String → String → Option Impact → Builder → Builder
add_edge from to impact b = if contains to (targets b from) then b else record b {
  reports_to = update from (targets b from ++ (to ∷ [])) b.reports_to;
  reports_from =
      update to (sources b to ++ (record { edge = from; impact = impact } ∷ [])) b.reports_from;
}

-- `addNode`
unfoldable pub add_node : String → Node → Builder → Builder
add_node id node b = record b { nodes = update id node b.nodes }
