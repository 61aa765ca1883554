-- ===== src/Resolve/Overrides.antt =====
-- `gatherGlobalInfoFromFramework` of policy/resolved_policy_builder.go: the actions on controls. The
-- recursion over dependencies is on fuel; `none` means that it ran out.
use cnspec.Common.{
  ℕ, zero, suc, Bool, true, false, String, List, [], ◌∷◌, Option, none, some, if◌then◌else◌,
}
use cnspec.Common.Dict.{lookup, update}
use cnspec.Impact.{Action}
use cnspec.Resolve.{Control, FrameworkGroup, Framework, GroupType, Settings}
use cnspec.Resolve.Groups.{normalize_action, is_rejected, ended}

abbrev pub Actions : Type 0
Actions = List (String × Action)

overrides : Action → Bool
overrides Action.unspecified = false
overrides Action.modify = false
overrides _ = true

unfoldable pub set_action : String → Action → Actions → Actions
unfolding overrides
set_action mrn action acc = if overrides action then update mrn action acc else acc

-- The loop over the controls of a group.
unfoldable pub gather_controls : GroupType → List Control → Actions → Actions
gather_controls type [] acc = acc
gather_controls type (c ∷ cs) acc =
    gather_controls type cs (set_action c.mrn (normalize_action type c.action none) acc)

module _ (s : Settings) where
  -- `isGroupMatching` for a group of a framework, which has no filters and no validity.
  unfoldable pub is_framework_group_matching : FrameworkGroup → Bool
  is_framework_group_matching g =
      if is_rejected g.review_status then false else if ended s g.end_date then false else true

  unfoldable pub gather_groups : List FrameworkGroup → Actions → Actions
  gather_groups [] acc = acc
  gather_groups (g ∷ gs) acc =
      gather_groups gs
        (if is_framework_group_matching g then gather_controls g.type g.controls acc else acc)

  -- The loop over the dependencies.
  unfoldable pub gather_dependencies :
      (Framework → Actions → Option Actions) → List String → Actions → Option Actions
  gather_dependencies visit [] acc = some acc
  gather_dependencies visit (d ∷ ds) acc = elim (lookup d s.frameworks) [
    | none ↦ gather_dependencies visit ds acc
    | some f ↦ elim (visit f acc) [ none ↦ none | some a ↦ gather_dependencies visit ds a ]
  ]

  -- `gatherGlobalInfoFromFramework` for a framework that is not nil.
  unfoldable pub gather_framework : ℕ → Framework → Actions → Option Actions
  gather_framework zero f acc = none
  gather_framework (suc fuel) f acc =
      elim (gather_dependencies (gather_framework fuel) f.dependencies acc) [
        | none ↦ none
        | some a ↦ some (gather_groups f.groups a)
      ]
