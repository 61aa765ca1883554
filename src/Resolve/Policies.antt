-- ===== src/Resolve/Policies.antt =====
-- `addPolicy` of policy/resolved_policy_builder.go. The recursion over the policies that a policy refers
-- to is on fuel; `none` means that the fuel ran out or that a policy is missing in the bundle, where
-- `addPolicy` dereferences nil. The queries have fuel of their own. The cache of properties is left out.
pub mod Included
pub mod Loops
pub mod Kept
pub mod Refs
pub mod GroupsKept
pub mod Resolved
pub mod RiskKept
use cnspec.Common.{
  ℕ, zero, suc, Bool, true, false, ◌||◌, ◌&&◌, String, str_eq, List, [], ◌∷◌, Option, none, some,
  if◌then◌else◌, pos,
}
use cnspec.Common.Dict.{lookup}
use cnspec.Impact.{Impact, ScoringSystem, Action}
use cnspec.Resolve.{
  Mquery, PolicyRef, PolicyGroup, GroupType, Policy, Builder, Settings, Node, policy_node,
}
use cnspec.Resolve.Edges.{add_edge, add_node}
use cnspec.Resolve.Groups.{
  can_run, action_of, any_filter_matches, is_group_matching, is_override, ignoring, is_ignore,
}
use cnspec.Resolve.Queries.{add_query}
use cnspec.Resolve.Risks.{add_risk_factors}

module _ (s : Settings) where
  unfoldable pub ref_impact : String → Option Impact
  ref_impact mrn =
      if is_ignore (action_of s mrn) then some ignoring else lookup mrn s.impact_overrides

  value_only : Option Impact → Option Impact
  value_only none = none
  value_only (some i) = elim i.value [
    | none ↦ none
    | some v ↦ some (record {
      value = some v;
      scoring = ScoringSystem.scoring_unspecified;
      weight = pos 0;
      action = Action.unspecified;
    })
  ]

  unfoldable pub check_impact : String → Option Impact
  unfolding value_only
  check_impact mrn =
      if is_ignore (action_of s mrn)
      then some ignoring
      else value_only (lookup mrn s.impact_overrides)

  -- The loop over the policies of a group.
  unfoldable pub add_refs :
      (Policy → Builder → Option (Builder × Bool))
      → String
      → List PolicyRef
      → Builder
      → Option Builder
  add_refs visit mrn [] b = some b
  add_refs visit mrn (r ∷ rs) b = elim (lookup r.mrn s.policies) [
    | none ↦ none
    | some p ↦ elim (visit p b) [
      | none ↦ none
      | some (c, true) ↦ add_refs visit mrn rs (add_edge r.mrn mrn (ref_impact r.mrn) c)
      | some (c, false) ↦ add_refs visit mrn rs c
    ]
  ]

  -- The loop over the checks of a group, and over its queries; `impact` is the impact of the edge.
  unfoldable pub add_group_queries :
      (Mquery → Builder → Option (Builder × Option String))
      → (String → Option Impact)
      → GroupType
      → String
      → List Mquery
      → Builder
      → Option Builder
  add_group_queries visit impact type mrn [] b = some b
  add_group_queries visit impact type mrn (c ∷ cs) b = elim (is_override c.action type) [
    | true ↦ add_group_queries visit impact type mrn cs b
    | false ↦ elim (lookup c.mrn s.queries) [
      | none ↦ add_group_queries visit impact type mrn cs b
      | some q ↦ elim (visit q b) [
        | none ↦ none
        | some (d, some code) ↦
            add_group_queries visit impact type mrn cs (add_edge q.mrn mrn (impact q.mrn) d)
        | some (d, none) ↦ add_group_queries visit impact type mrn cs d
      ]
    ]
  ]

  -- The loop over the groups, and whether one matches.
  unfoldable pub add_groups :
      (Policy → Builder → Option (Builder × Bool))
      → (Mquery → Builder → Option (Builder × Option String))
      → String
      → List PolicyGroup
      → Builder
      → Option (Builder × Bool)
  add_groups visit ask mrn [] b = some (b, false)
  add_groups visit ask mrn (g ∷ gs) b = elim (is_group_matching s g) [
    | false ↦ add_groups visit ask mrn gs b
    | true ↦ elim (add_refs visit mrn g.policies b) [
      | none ↦ none
      | some c ↦ elim (add_group_queries ask check_impact g.type mrn g.checks c) [
        | none ↦ none
        | some d ↦ elim (add_group_queries ask (λ q. some ignoring) g.type mrn g.queries d) [
          | none ↦ none
          | some e ↦ elim (add_groups visit ask mrn gs e) [
            | none ↦ none
            | some (f, more) ↦ some (f, true)
          ]
        ]
      ]
    ]
  ]

  or_unspecified : Option ScoringSystem → ScoringSystem
  or_unspecified none = ScoringSystem.scoring_unspecified
  or_unspecified (some t) = t

  -- The node of a policy.
  unfoldable pub node_of : Policy → Node
  unfolding or_unspecified
  node_of p =
      policy_node (or_unspecified (lookup p.mrn s.policy_scoring_systems))
        (str_eq s.bundle_mrn p.mrn)

  -- What follows the loop over the groups.
  unfoldable pub finish_policy : Policy → Builder × Bool → Builder × Bool
  finish_policy p (b, matching) =
      let r = add_risk_factors s p.mrn p.risk_factors b in (r.0, matching || r.1)

  -- `addPolicy`; `query_fuel` is the fuel of `add_query`.
  unfoldable pub add_policy : ℕ → ℕ → Policy → Builder → Option (Builder × Bool)
  add_policy query_fuel zero p b = none
  add_policy query_fuel (suc fuel) p b =
      elim (can_run (action_of s p.mrn) && any_filter_matches s p.computed_filters) [
        | false ↦ some (b, false)
        | true ↦
            elim (add_groups (add_policy query_fuel fuel) (add_query s query_fuel) p.mrn p.groups
              (add_node p.mrn (node_of p) b)) [ none ↦ none | some r ↦ some (finish_policy p r) ]
      ]
