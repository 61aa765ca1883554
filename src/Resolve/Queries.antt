-- ===== src/Resolve/Queries.antt =====
-- `addQuery` of policy/resolved_policy_builder.go. A query with variants stands for the first of them
-- that can be added; the recursion over variants is on fuel, and `none` means that the fuel ran out. The
-- second result is the code id, if the query was added.
pub mod Sound
pub mod Added
pub mod Kept
use cnspec.Common.{
  ℕ, zero, suc, Bool, true, false, String, List, [], ◌∷◌, Option, none, some, if◌then◌else◌, pos,
}
use cnspec.Common.Dict.{lookup}
use cnspec.Impact.{Impact, ScoringSystem, Action}
use cnspec.Resolve.{Mquery, Builder, Settings, Node, QueryType}
use cnspec.Resolve.Edges.{add_edge, add_node}
use cnspec.Resolve.Groups.{can_run, action_of, any_filter_matches}

-- `&Impact{Scoring: …}`
abbrev pub scored_by : ScoringSystem → Impact
scored_by t = record { value = none; scoring = t; weight = pos 0; action = Action.unspecified }

or_scoring : Option QueryType → QueryType
or_scoring none = QueryType.scoring
or_scoring (some t) = t

module _ (s : Settings) where
  -- `b.queryTypes[mrn]`, the zero value for a missing key.
  unfoldable pub type_of : String → QueryType
  unfolding or_scoring
  type_of mrn = or_scoring (lookup mrn s.query_types)

  -- The nodes and the edge of a query that is run by the code `run`.
  unfoldable pub add_run : Mquery → Mquery → Option Impact → Builder → Builder
  add_run run q impact b = add_edge run.code_id q.mrn impact (
      add_node q.mrn (Node.query_node (type_of q.mrn) run.code_id)
        (add_node run.code_id (Node.execution_node run) b))

  -- The node and the edge of a query whose variant `v` was added.
  unfoldable pub add_variant : Mquery → Mquery → String → Builder → Builder
  add_variant v q code b =
      add_edge v.mrn q.mrn (lookup q.mrn s.impact_overrides)
        (add_node q.mrn (Node.query_node (type_of q.mrn) code) b)

  -- The loop over the variants.
  unfoldable pub first_variant :
      (Mquery → Builder → Option (Builder × Option String))
      → List String
      → Builder
      → Option (Builder × Option (Mquery × String))
  first_variant visit [] b = some (b, none)
  first_variant visit (v ∷ vs) b =
      let rest = first_variant visit vs in
      elim (lookup v s.queries) [
        | none ↦ rest b
        | some q ↦ elim (visit q b) [
          | none ↦ none
          | some r ↦ elim r.1 [ none ↦ rest r.0 | some code ↦ some (r.0, some (q, code)) ]
        ]
      ]

  -- What follows the loop.
  unfoldable pub finish_variant :
      Mquery → Builder × Option (Mquery × String) → Builder × Option String
  finish_variant q (b, none) = (b, none)
  finish_variant q (b, some (v, code)) = (add_variant v q code b, some code)

  -- A query that runs, without variants.
  unfoldable pub add_leaf : Mquery → Builder → Builder × Option String
  add_leaf q b =
      if any_filter_matches s q.filters
      then (add_run q q (lookup q.mrn s.impact_overrides) b, some q.code_id)
      else (b, none)

  -- A query that is deactivated or out of scope.
  unfoldable pub add_disabled : Mquery → Builder → Builder × Option String
  add_disabled q b =
      if any_filter_matches s q.filters
      then (
        add_run s.disabled_query q (some (scored_by ScoringSystem.disabled)) b,
        some s.disabled_query.code_id,
      )
      else (b, none)

  -- `addQuery`
  unfoldable pub add_query : ℕ → Mquery → Builder → Option (Builder × Option String)
  add_query zero q b = none
  add_query (suc fuel) q b =
      let found = first_variant (add_query fuel) q.variants b in
      if can_run (action_of s q.mrn)
      then elim q.variants [
        | [] ↦ some (add_leaf q b)
        | v ∷ vs ↦ elim found [ none ↦ none | some r ↦ some (finish_variant q r) ]
      ]
      else some (add_disabled q b)
