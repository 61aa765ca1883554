-- ===== src/Resolve/Edges/InSync.antt =====
-- The two maps of edges agree.
use cnspec.Resolve.Edges.Steps.{
  impact_from, contains-add, IsDistinct-add, or_else, impact_from-add, targets-add_edge,
  sources-add_edge, edge_ids, edge_ids-add, contains-edge_ids,
}
use cnspec.Common.{
  true, false, Bool-cases, String, str_eq, eq_iff, List, [], ◌∷◌, Option, none, some, if◌then◌else◌,
  ◌≡◌, refl, sym, ap, ◌∙◌, inl, inr, arith,
}
use mathlib.Core.Path.{subst}
use cnspec.Common.Dict.{lookup}
use cnspec.Common.Keys.{contains, IsDistinct}
use cnspec.Impact.{Impact}
use cnspec.Resolve.{Builder, Node, new_builder}
use cnspec.Resolve.Edges.{is_some, targets, sources, add_edge, add_node}

-- A call of `addEdge`.
pub record Call : Type 0 where
  pub from : String
  pub to : String
  pub impact : Option Impact

unfoldable pub add_edges : List Call → Builder → Builder
add_edges [] b = b
add_edges (c ∷ cs) b = add_edges cs (add_edge c.from c.to c.impact b)

-- The impact in the first call for an edge.
unfoldable pub first_impact : String → String → List Call → Option (Option Impact)
first_impact from to [] = none
first_impact from to (c ∷ cs) =
    let rest = first_impact from to cs in
    if str_eq c.from from then if str_eq c.to to then some c.impact else rest else rest

-- Both maps have the same edges, each once.
pub record IsInSync (b : Builder) : Type 0 where
  pub same :
      (from to : String) → contains to (targets b from) ≡ is_some (impact_from from (sources b to))
  pub once_to : (from : String) → IsDistinct (targets b from)
  pub once_from : (to : String) → IsDistinct (edge_ids (sources b to))

impact_from-add_edge :
    (m n from to : String) (i : Option Impact) (b : Builder)
    → IsInSync b
    → impact_from m (sources (add_edge from to i b) n)
      ≡ or_else
          (impact_from m (sources b n))
          (if str_eq from m then if str_eq to n then some i else none else none)
unfolding or_else is_some
impact_from-add_edge m n from to i b h = ground (
  arith,
  sources-add_edge n from to i b,
  impact_from-add m (record { edge = from; impact = i }) (sources b to),
  h.same from to,
  eq_iff from m,
  eq_iff to n,
)

add_edge-same :
    (m n from to : String) (i : Option Impact) (b : Builder)
    → IsInSync b
    → contains n (targets (add_edge from to i b) m)
      ≡ is_some (impact_from m (sources (add_edge from to i b) n))
unfolding is_some or_else
add_edge-same m n from to i b h = ground (
  arith,
  impact_from-add_edge m n from to i b h,
  targets-add_edge m from to i b,
  contains-add n to (targets b from),
  h.same m n,
  h.same from to,
  eq_iff from m,
  eq_iff to n,
)

add_edge_twice :
    (from to : String) (i : Option Impact) (b : Builder)
    → contains to (targets b from) ≡ true
    → add_edge from to i b ≡ b
unfolding add_edge
add_edge_twice from to i b old = rw old refl

add_edge-fresh :
    (from to : String) (i : Option Impact) (b : Builder)
    → IsInSync b
    → contains to (targets b from) ≡ false
    → (n : String) → IsDistinct (edge_ids (sources (add_edge from to i b) n))
add_edge-fresh from to i b h fresh n = elim (Bool-cases (str_eq to n)) [
  | inl is ↦
      subst IsDistinct
        (sym (
          ground (
            arith,
            sources-add_edge n from to i b,
            edge_ids-add (record { edge = from; impact = i }) (sources b to),
          )))
        (IsDistinct-add from (edge_ids (sources b to))
          (contains-edge_ids from (sources b to) ∙ sym (h.same from to) ∙ fresh) (h.once_from to))
  | inr other ↦
      subst IsDistinct (sym (ground (arith, sources-add_edge n from to i b))) (h.once_from n)
]

pub add_edge-IsInSync :
    (from to : String) (i : Option Impact) (b : Builder)
    → IsInSync b
    → IsInSync (add_edge from to i b)
add_edge-IsInSync from to i b h = elim (Bool-cases (contains to (targets b from))) [
  | inl old ↦ subst IsInSync (sym (add_edge_twice from to i b old)) h
  | inr fresh ↦ record {
    same = λ m n. add_edge-same m n from to i b h;
    once_to = λ m. elim (Bool-cases (str_eq from m)) [
      | inl is ↦
          subst IsDistinct (sym (ground (arith, targets-add_edge m from to i b)))
            (IsDistinct-add to (targets b from) fresh (h.once_to from))
      | inr other ↦
          subst IsDistinct (sym (ground (arith, targets-add_edge m from to i b))) (h.once_to m)
    ];
    once_from = add_edge-fresh from to i b h fresh;
  }
]

pub add_node-IsInSync :
    (id : String) (n : Node) (b : Builder) → IsInSync b → IsInSync (add_node id n b)
unfolding targets sources add_node
add_node-IsInSync id n b h = record { same = h.same; once_to = h.once_to; once_from = h.once_from }

add_edges-IsInSync : (cs : List Call) (b : Builder) → IsInSync b → IsInSync (add_edges cs b)
unfolding add_edges
add_edges-IsInSync [] b h = h
add_edges-IsInSync (c ∷ cs) b h =
    add_edges-IsInSync cs (add_edge c.from c.to c.impact b)
      (add_edge-IsInSync c.from c.to c.impact b h)

impact_from-add_edges :
    (cs : List Call) (m n : String) (b : Builder)
    → IsInSync b
    → impact_from m (sources (add_edges cs b) n)
      ≡ or_else (impact_from m (sources b n)) (first_impact m n cs)
unfolding add_edges first_impact or_else
impact_from-add_edges [] m n b h = ground arith
impact_from-add_edges (c ∷ cs) m n b h = ground (
  arith,
  impact_from-add_edges cs m n (add_edge c.from c.to c.impact b)
      (add_edge-IsInSync c.from c.to c.impact b h),
  impact_from-add_edge m n c.from c.to c.impact b h,
)

pub new-IsInSync : IsInSync new_builder
unfolding targets sources impact_from edge_ids is_some lookup contains
new-IsInSync = record { same = λ m n. refl; once_to = λ m. tt; once_from = λ n. tt }

impact_from-new :
    (cs : List Call) (from to : String)
    → impact_from from (sources (add_edges cs new_builder) to) ≡ first_impact from to cs
unfolding sources impact_from or_else first_impact lookup
impact_from-new cs from to = impact_from-add_edges cs from to new_builder new-IsInSync

-- Whatever edges are added, the two maps agree on them and hold each edge once, with the impact of the
-- first call for it.
pub edges_in_sync :
    (cs : List Call) (from to : String)
    → (contains to (targets (add_edges cs new_builder) from) ≡ is_some (first_impact from to cs))
      × (impact_from from (sources (add_edges cs new_builder) to) ≡ first_impact from to cs)
      × IsDistinct (targets (add_edges cs new_builder) from)
      × IsDistinct (edge_ids (sources (add_edges cs new_builder) to))
edges_in_sync cs from to =
    let h = add_edges-IsInSync cs new_builder new-IsInSync in
    let first : impact_from from (sources (add_edges cs new_builder) to) ≡ first_impact from to cs =
      impact_from-new cs from to in
    (h.same from to ∙ ap is_some first, first, h.once_to from, h.once_from to)
