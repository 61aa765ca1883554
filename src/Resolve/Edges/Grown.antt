-- ===== src/Resolve/Edges/Grown.antt =====
-- Adding nodes and edges loses none.
use cnspec.Common.{
  true, Bool-cases, String, str_eq, eq_iff, Option, some, if◌then◌else◌, ◌≡◌, ap, ◌∙◌, inl, inr,
  arith,
}
use cnspec.Common.Dict.{lookup, lookup-update}
use cnspec.Common.Keys.{contains}
use cnspec.Impact.{Impact}
use cnspec.Resolve.{Builder, Node}
use cnspec.Resolve.Edges.{targets, add_edge, add_node}
use cnspec.Resolve.Edges.Steps.{contains-add, targets-add_edge}
use cnspec.Resolve.Walk.Paths.{IsNode, Reach, here, step}

-- Every node and every edge is still there.
pub record IsGrown (b c : Builder) : Type 0 where
  pub nodes : (id : String) → IsNode b id → IsNode c id
  pub edges : (u v : String) → contains v (targets b u) ≡ true → contains v (targets c u) ≡ true

pub IsGrown-self : (b : Builder) → IsGrown b b
IsGrown-self b = record { nodes = λ id n. n; edges = λ u v e. e }

pub IsGrown-trans : (a b c : Builder) → IsGrown a b → IsGrown b c → IsGrown a c
IsGrown-trans a b c h k = record {
  nodes = λ id n. k.nodes id (h.nodes id n);
  edges = λ u v e. k.edges u v (h.edges u v e);
}

pub grown_reach : (b c : Builder) (u v : String) → IsGrown b c → Reach b u v → Reach c u v
grown_reach b c u v h here = here
grown_reach b c u v h (step {v = w} p (e, n)) =
    step (grown_reach b c u w h p) (h.edges w v e, h.nodes v n)

pub lookup-add_node :
    (id k : String) (n : Node) (b : Builder)
    → lookup k (add_node id n b).nodes ≡ (if str_eq id k then some n else lookup k b.nodes)
unfolding add_node
lookup-add_node id k n b = lookup-update k id n b.nodes

pub IsNode-add_node : (id : String) (n : Node) (b : Builder) → IsNode (add_node id n b) id
IsNode-add_node id n b = (n, ground (arith, lookup-add_node id id n b, eq_iff id id))

pub add_node-IsGrown : (id : String) (n : Node) (b : Builder) → IsGrown b (add_node id n b)
unfolding targets add_node
add_node-IsGrown id n b = record {
  nodes = λ k (m, found). elim (Bool-cases (str_eq id k)) [
    | inl is ↦ (n, ground (arith, lookup-update k id n b.nodes))
    | inr other ↦ (m, ground (arith, lookup-update k id n b.nodes))
  ];
  edges = λ u v e. e;
}

pub nodes-add_edge :
    (from to : String) (i : Option Impact) (b : Builder) → (add_edge from to i b).nodes ≡ b.nodes
unfolding add_edge
nodes-add_edge from to i b = ground arith

pub add_edge-IsGrown :
    (from to : String) (i : Option Impact) (b : Builder) → IsGrown b (add_edge from to i b)
add_edge-IsGrown from to i b = record {
  nodes = λ k (m, found). (m, ap (lookup k) (nodes-add_edge from to i b) ∙ found);
  edges = λ u v e.
      ground
        (arith, targets-add_edge u from to i b, contains-add v to (targets b from), eq_iff from u);
}

pub add_edge-IsEdge :
    (from to : String) (i : Option Impact) (b : Builder)
    → contains to (targets (add_edge from to i b) from) ≡ true
add_edge-IsEdge from to i b = ground (
  arith,
  targets-add_edge from from to i b,
  contains-add to to (targets b from),
  eq_iff from from,
  eq_iff to to,
)
