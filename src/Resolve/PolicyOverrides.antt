-- ===== src/Resolve/PolicyOverrides.antt =====
-- `gatherGlobalInfoFromPolicy` of policy/resolved_policy_builder.go. It changes `Impact` objects that
-- the bundle and the overrides share, so they stand in a store, by their addresses. The magnitudes of
-- risk factors are left out. The recursion over the policies that a policy refers to is on fuel;
-- `none` means that it ran out, or that the bundle lacks a policy, where nil is dereferenced.
use cnspec.Common.{
  ℕ, zero, suc, true, false, String, List, [], ◌∷◌, ◌++◌, Option, none, some, if◌then◌else◌, length,
  ℤ, pos,
}
use cnspec.Common.Dict.{lookup, update}
use cnspec.Common.Integers.{ltb_ℤ}
use cnspec.Impact.{Impact, ScoringSystem, Action}
use cnspec.Resolve.{Mquery, PolicyRef, PolicyGroup, GroupType, RiskFactor, Policy, Settings}
use cnspec.Resolve.Groups.{normalize_action, is_group_matching, is_ignore}
use cnspec.Resolve.Overrides.{Actions, set_action}

-- The maps that are filled, with addresses for impacts, and the store.
pub record Gathered : Type 0 where
  pub actions : Actions
  pub impacts : List (String × ℕ)
  pub scoring_systems : List (String × ScoringSystem)
  pub store : List Impact

get_elem? : List Impact → ℕ → Option Impact
get_elem? [] a = none
get_elem? (i ∷ is) zero = some i
get_elem? (i ∷ is) (suc a) = get_elem? is a

set_elem : ℕ → Impact → List Impact → List Impact
set_elem a j [] = []
set_elem zero j (i ∷ is) = j ∷ is
set_elem (suc a) j (i ∷ is) = i ∷ set_elem a j is

unfoldable pub read_impact : List Impact → Option ℕ → Option Impact
unfolding get_elem?
read_impact store none = none
read_impact store (some a) = get_elem? store a

-- `impact.Value.GetValue()`, 0 for nil.
value_of : Option Impact → ℤ
value_of none = pos 0
value_of (some i) = elim i.value [ none ↦ pos 0 | some v ↦ v ]

-- `getWorstImpact`
unfoldable pub worst_impact : List Impact → Option ℕ → Option ℕ → Option ℕ
unfolding value_of
worst_impact store none b = b
worst_impact store (some a) none = some a
worst_impact store (some a) (some b) =
    if ltb_ℤ (value_of (read_impact store (some b))) (value_of (read_impact store (some a)))
    then some a
    else some b

snoozed : Impact → Impact
snoozed i = record i { scoring = ScoringSystem.ignore_score; action = Action.ignore }

empty_impact : Impact
empty_impact = record {
  value = none;
  scoring = ScoringSystem.scoring_unspecified;
  weight = pos 0;
  action = Action.unspecified;
}

-- The object is marked as ignored, in place, or a new one is.
unfoldable pub snooze : Option ℕ → List Impact → List Impact × Option ℕ
unfolding get_elem? set_elem snoozed empty_impact
snooze none store = (store ++ (snoozed empty_impact ∷ []), some (length store))
snooze (some a) store = elim (get_elem? store a) [
  | none ↦ (store, some a)
  | some i ↦ (set_elem a (snoozed i) store, some a)
]

unfoldable pub set_impact : String → Option ℕ → Gathered → Gathered
set_impact mrn none g = g
set_impact mrn (some a) g = record g { impacts = update mrn a g.impacts }

module _ (s : Settings) where
  -- The worst impact for a check: its own, that of the query in the bundle, and that found before.
  unfoldable pub impact_of_check : Mquery → Gathered → Option ℕ
  impact_of_check c g =
      let known : Option ℕ = elim (lookup c.mrn s.queries) [
        | none ↦ c.impact
        | some q ↦ worst_impact g.store c.impact q.impact
      ] in
      worst_impact g.store known (lookup c.mrn g.impacts)

  unfoldable pub gather_check : GroupType → Mquery → Gathered → Gathered
  gather_check type c g =
      let impact = impact_of_check c g in
      let action = normalize_action type c.action (read_impact g.store impact) in
      let snoozing = snooze impact g.store in
      let acting = record g { actions = set_action c.mrn action g.actions } in
      if is_ignore action
      then set_impact c.mrn snoozing.1 (record acting { store = snoozing.0 })
      else set_impact c.mrn impact acting

  unfoldable pub gather_checks : GroupType → List Mquery → Gathered → Gathered
  gather_checks type [] g = g
  gather_checks type (c ∷ cs) g = gather_checks type cs (gather_check type c g)

  unfoldable pub gather_query : GroupType → Mquery → Gathered → Gathered
  gather_query type q g = elim q.action [
    | Action.unspecified ↦ g
    | _ ↦ record g {
      actions =
          set_action q.mrn (normalize_action type q.action (read_impact g.store q.impact))
            g.actions;
    }
  ]

  unfoldable pub gather_queries : GroupType → List Mquery → Gathered → Gathered
  gather_queries type [] g = g
  gather_queries type (q ∷ qs) g = gather_queries type qs (gather_query type q g)

  -- The scoring system of a reference, or else of the policy.
  unfoldable pub ref_scoring : PolicyRef → Policy → ScoringSystem
  ref_scoring r p = elim r.scoring_system [
    | ScoringSystem.scoring_unspecified ↦ p.scoring_system
    | t ↦ t
  ]

  -- What follows the policy of a reference.
  unfoldable pub gather_ref : GroupType → PolicyRef → Policy → Gathered → Gathered
  gather_ref type r p g = set_impact r.mrn r.impact (record g {
    actions =
        set_action r.mrn (normalize_action type r.action (read_impact g.store r.impact)) g.actions;
    scoring_systems = update r.mrn (ref_scoring r p) g.scoring_systems;
  })

  unfoldable pub gather_refs :
      (Policy → Gathered → Option Gathered)
      → GroupType
      → List PolicyRef
      → Gathered
      → Option Gathered
  gather_refs visit type [] g = some g
  gather_refs visit type (r ∷ rs) g = elim (lookup r.mrn s.policies) [
    | none ↦ none
    | some p ↦ elim (visit p g) [
      | none ↦ none
      | some h ↦ gather_refs visit type rs (gather_ref type r p h)
    ]
  ]

  unfoldable pub gather_policy_groups :
      (Policy → Gathered → Option Gathered) → List PolicyGroup → Gathered → Option Gathered
  gather_policy_groups visit [] g = some g
  gather_policy_groups visit (x ∷ xs) g = elim (is_group_matching s x) [
    | false ↦ gather_policy_groups visit xs g
    | true ↦ elim (gather_refs visit x.type x.policies g) [
      | none ↦ none
      | some h ↦
          gather_policy_groups visit xs
            (gather_queries x.type x.queries (gather_checks x.type x.checks h))
    ]
  ]

  unfoldable pub gather_risks : List RiskFactor → Gathered → Gathered
  gather_risks [] g = g
  gather_risks (r ∷ rs) g =
      gather_risks rs (record g { actions = set_action r.mrn r.action g.actions })

  -- `gatherGlobalInfoFromPolicy`
  unfoldable pub gather_policy : ℕ → Policy → Gathered → Option Gathered
  gather_policy zero p g = none
  gather_policy (suc fuel) p g = elim (gather_policy_groups (gather_policy fuel) p.groups g) [
    | none ↦ none
    | some h ↦ some (gather_risks p.risk_factors h)
  ]
