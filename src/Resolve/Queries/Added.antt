-- ===== src/Resolve/Queries/Added.antt =====
-- What adding the nodes and edges of one query does to the graph.
use cnspec.Resolve.Queries.Sound.{IsSound, Kept, Kept-trans, execution-Kept, other-Kept, edge-Kept}
use cnspec.Common.{
  Bool, true, false, Bool-cases, String, Option, none, some, ◌≡◌, refl, inl, inr, arith, [],
}
use cnspec.Common.Dict.{lookup}
use cnspec.Common.Keys.{contains}
use cnspec.Impact.{Impact, ScoringSystem}
use cnspec.Resolve.{Mquery, Builder, Settings, Node, execution_node}
use cnspec.Resolve.Edges.{add_edge, add_node}
use cnspec.Resolve.Edges.Grown.{grown_reach, IsNode-add_node, add_edge-IsGrown, add_edge-IsEdge}
use cnspec.Resolve.Walk.Paths.{IsNode, Reach, here, step}
use cnspec.Resolve.Groups.{can_run, action_of, any_filter_matches}
use cnspec.Resolve.Queries.{add_run, add_variant, add_leaf, add_disabled, type_of, scored_by}

-- The asset supports the query or, if it runs and has variants, one of those.
pub data IsSelectable (s : Settings) : Mquery → Type 0 where
  unrun :
      {q : Mquery}
      → can_run (action_of s q.mrn) ≡ false
      → any_filter_matches s q.filters ≡ true
      → IsSelectable s q
  leaf :
      {q : Mquery}
      → can_run (action_of s q.mrn) ≡ true
      → q.variants ≡ []
      → any_filter_matches s q.filters ≡ true
      → IsSelectable s q
  variant :
      {q : Mquery} (v : String) (w : Mquery)
      → can_run (action_of s q.mrn) ≡ true
      → contains v q.variants ≡ true
      → lookup v s.queries ≡ some w
      → IsSelectable s w
      → IsSelectable s q

module _ (is_code : String → Bool) where
  -- The graph before, and after adding the query.
  abbrev pub Added : Settings → Mquery → Builder → Builder × Option String → Type 0
  Added s q b (c, none) = (c ≡ b) × (IsSelectable s q → ⊥)
  Added s q b (c, some code) =
      IsSelectable s q
      × Kept is_code b c
      × (is_code code ≡ true)
      × IsNode c code
      × IsNode c q.mrn
      × Reach c code q.mrn

  -- Adding the node of a query and the edge to it from the node `from`.
  add_query_node :
      (s : Settings) (from code : String) (q : Mquery) (m : Node) (i : Option Impact) (b : Builder)
      → IsSelectable s q
      → is_code q.mrn ≡ false
      → is_code code ≡ true
      → IsSound is_code b
      → IsNode b code
      → Reach b code from
      → Added s q b (add_edge from q.mrn i (add_node q.mrn m b), some code)
  add_query_node s from code q m i b good plain coded h node path =
      let c = add_node q.mrn m b in
      let g : Kept is_code b (add_edge from q.mrn i c) =
        Kept-trans is_code b c (add_edge from q.mrn i c) (other-Kept is_code q.mrn m b plain h)
          (edge-Kept is_code from q.mrn i c (other-Kept is_code q.mrn m b plain h).sound) in
      let end : IsNode (add_edge from q.mrn i c) q.mrn =
        (add_edge-IsGrown from q.mrn i c).nodes q.mrn (IsNode-add_node q.mrn m b) in
      (
        good,
        g,
        coded,
        g.grown.nodes code node,
        end,
        step (grown_reach b (add_edge from q.mrn i c) code from g.grown path)
            (add_edge-IsEdge from q.mrn i c, end),
      )

  after_growth :
      (s : Settings) (q : Mquery) (code : String) (a b c : Builder)
      → Kept is_code a b
      → Added s q b (c, some code)
      → Added s q a (c, some code)
  after_growth s q code a b c g (good, h, coded, node, end, path) =
      (good, Kept-trans is_code a b c g h, coded, node, end, path)

module _ (s : Settings) (is_code : String → Bool) where
  add_run-Added :
      (run q : Mquery) (i : Option Impact) (b : Builder)
      → IsSelectable s q
      → is_code run.code_id ≡ true
      → is_code q.mrn ≡ false
      → IsSound is_code b
      → Added is_code s q b (add_run s run q i b, some run.code_id)
  unfolding add_run
  add_run-Added run q i b good coded plain h =
      let c = add_node run.code_id (execution_node run) b in
      let k = execution-Kept is_code run.code_id run b h in
      after_growth is_code s q run.code_id b c _ k (
        add_query_node is_code s run.code_id run.code_id q
          (Node.query_node (type_of s q.mrn) run.code_id) i c good plain coded k.sound
          (IsNode-add_node run.code_id (execution_node run) b) here)

  pub add_variant-Added :
      (v q : Mquery) (code : String) (b c : Builder)
      → IsSelectable s q
      → is_code q.mrn ≡ false
      → Added is_code s v b (c, some code)
      → Added is_code s q b (add_variant s v q code c, some code)
  unfolding add_variant
  add_variant-Added v q code b c good plain (_, g, coded, node, _, path) =
      after_growth is_code s q code b c _ g (
        add_query_node is_code s v.mrn code q (Node.query_node (type_of s q.mrn) code)
          (lookup q.mrn s.impact_overrides) c good plain coded g.sound node path)

  -- A code id is no MRN of a query.
  abbrev pub IsCoded : Mquery → Type 0
  IsCoded q = (is_code q.code_id ≡ true) × (is_code q.mrn ≡ false)

  unsupported :
      (q : Mquery)
      → (can_run (action_of s q.mrn) ≡ true → q.variants ≡ [])
      → any_filter_matches s q.filters ≡ false
      → IsSelectable s q
      → ⊥
  unfolding contains
  unsupported q h e (unrun _ f) = cc
  unsupported q h e (leaf _ _ f) = cc
  unsupported q h e (variant v w r i found good) = ground (arith, h r)

  pub add_leaf-Added :
      (q : Mquery) (b : Builder)
      → can_run (action_of s q.mrn) ≡ true
      → q.variants ≡ []
      → IsCoded q
      → IsSound is_code b
      → Added is_code s q b (add_leaf s q b)
  unfolding add_leaf
  add_leaf-Added q b runs none_left (coded, plain) h =
      elim (Bool-cases (any_filter_matches s q.filters)) [
        | inl e ↦ rw e (
            add_run-Added q q (lookup q.mrn s.impact_overrides) b (leaf runs none_left e) coded
              plain h)
        | inr e ↦ rw e (refl, unsupported q (λ r. none_left) e)
      ]

  pub add_disabled-Added :
      (q : Mquery) (b : Builder)
      → can_run (action_of s q.mrn) ≡ false
      → is_code s.disabled_query.code_id ≡ true
      → IsCoded q
      → IsSound is_code b
      → Added is_code s q b (add_disabled s q b)
  unfolding add_disabled
  add_disabled-Added q b stopped coded (_, plain) h =
      elim (Bool-cases (any_filter_matches s q.filters)) [
        | inl e ↦ rw e (
            add_run-Added s.disabled_query q (some (scored_by ScoringSystem.disabled)) b
              (unrun stopped e) coded plain h)
        | inr e ↦ rw e (refl, unsupported q (λ r. cc) e)
      ]
