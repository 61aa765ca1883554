-- ===== src/Resolve/Frameworks.antt =====
-- `addFramework` and `addControl` of policy/resolved_policy_builder.go. The recursion over dependencies
-- is on fuel; `none` means that the fuel ran out.
use cnspec.Common.{
  ℕ, zero, suc, Bool, true, false, ◌||◌, String, List, [], ◌∷◌, Option, none, some, if◌then◌else◌,
}
use cnspec.Common.Dict.{lookup}
use cnspec.Impact.{Impact}
use cnspec.Resolve.{
  ControlMap, FrameworkMap, Framework, Builder, Settings, query_node, framework_node, control_node,
}
use cnspec.Resolve.Edges.{add_edge, add_node}
use cnspec.Resolve.Groups.{can_run, action_of, ignoring, action_to_impact}

module _ (s : Settings) where
  -- The loops over the checks and over the queries of a control, and whether one was connected.
  unfoldable pub connect_queries :
      (String → Option Impact) → String → List String → Builder → Builder × Bool
  connect_queries impact mrn [] b = (b, false)
  connect_queries impact mrn (q ∷ qs) b = elim (lookup q b.nodes) [
    | none ↦ connect_queries impact mrn qs b
    | some (query_node type code) ↦
        ((connect_queries impact mrn qs (add_edge code mrn (impact q) b)).0, true)
    | some _ ↦ connect_queries impact mrn qs b
  ]

  -- The loop over its policies.
  unfoldable pub connect_policies : String → List String → Builder → Builder × Bool
  connect_policies mrn [] b = (b, false)
  connect_policies mrn (p ∷ ps) b = elim (lookup p b.nodes) [
    | none ↦ connect_policies mrn ps b
    | some n ↦ ((connect_policies mrn ps (add_edge p mrn (action_to_impact s p) b)).0, true)
  ]

  -- The loop over its controls.
  unfoldable pub connect_controls : String → List String → Builder → Builder × Bool
  connect_controls mrn [] b = (b, false)
  connect_controls mrn (c ∷ cs) b =
      ((connect_controls mrn cs (add_edge c mrn (action_to_impact s c) b)).0, true)

  -- `addControl`
  unfoldable pub add_control : ControlMap → Builder → Builder × Bool
  add_control c b =
      let checked = connect_queries (action_to_impact s) c.mrn c.checks b in
      let asked = connect_queries (λ q. some ignoring) c.mrn c.queries checked.0 in
      let under = connect_policies c.mrn c.policies asked.0 in
      let all = connect_controls c.mrn c.controls under.0 in
      if can_run (action_of s c.mrn)
      then if checked.1 || (asked.1 || (under.1 || all.1))
        then (add_node c.mrn control_node all.0, true)
        else (all.0, true)
      else (b, false)

  -- The loop over the controls of a map, and over the maps.
  unfoldable pub add_controls : String → List ControlMap → Builder → Builder
  add_controls owner [] b = b
  add_controls owner (c ∷ cs) b =
      let (d, connects) = add_control c b in
      elim connects [
        | true ↦ add_controls owner cs (add_edge c.mrn owner (action_to_impact s c.mrn) d)
        | false ↦ add_controls owner cs d
      ]

  unfoldable pub add_maps : List FrameworkMap → Builder → Builder
  add_maps [] b = b
  add_maps (m ∷ ms) b = add_maps ms (add_controls m.framework_owner m.controls b)

  -- The loop over the dependencies.
  unfoldable pub add_dependencies :
      (Framework → Builder → Option (Builder × Bool))
      → Option Impact
      → String
      → List String
      → Builder
      → Option Builder
  add_dependencies visit impact mrn [] b = some b
  add_dependencies visit impact mrn (d ∷ ds) b = elim (lookup d s.frameworks) [
    | none ↦ add_dependencies visit impact mrn ds b
    | some f ↦ elim (visit f b) [
      | none ↦ none
      | some (c, true) ↦ add_dependencies visit impact mrn ds (add_edge d mrn impact c)
      | some (c, false) ↦ add_dependencies visit impact mrn ds c
    ]
  ]

  -- The node of a framework, where it has none yet, and the impact on it.
  unfoldable pub enter_framework : String → Builder → Builder × Option Impact
  enter_framework mrn b = elim (lookup mrn b.nodes) [
    | none ↦ (add_node mrn framework_node b, none)
    | some n ↦ (b, some ignoring)
  ]

  -- `addFramework`
  unfoldable pub add_framework : ℕ → Framework → Builder → Option (Builder × Bool)
  add_framework zero f b = none
  add_framework (suc fuel) f b = elim (can_run (action_of s f.mrn)) [
    | false ↦ some (b, false)
    | true ↦
        let entered = enter_framework f.mrn b in
        elim (add_dependencies (add_framework fuel) entered.1 f.mrn f.dependencies
          (add_maps f.framework_maps entered.0)) [ none ↦ none | some c ↦ some (c, true) ]
  ]
