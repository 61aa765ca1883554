-- ===== src/Resolve/Groups.antt =====
-- Which groups, queries and policies take part: the tests of policy/resolved_policy_builder.go, and
-- `Filters.Supports` of policy/explorer_filters.go.
use cnspec.Common.{
  Bool, true, false, ◌||◌, String, List, [], ◌∷◌, Option, none, some, if◌then◌else◌, ℤ, pos, zero,
}
use cnspec.Common.Dict.{lookup}
use cnspec.Common.Keys.{contains}
use cnspec.Impact.{Impact, Action, ScoringSystem}
use cnspec.Resolve.{Filters, GroupType, ReviewStatus, PolicyGroup, Settings}

-- `canRun`
abbrev pub can_run : Action → Bool
can_run Action.deactivate = false
can_run Action.out_of_scope = false
can_run _ = true

scoring_ignored : Option Impact → Bool
scoring_ignored none = false
scoring_ignored (some i) = elim i.scoring [ ScoringSystem.ignore_score ↦ true | _ ↦ false ]

-- `normalizeAction`
unfoldable pub normalize_action : GroupType → Action → Option Impact → Action
unfolding scoring_ignored
normalize_action GroupType.disable action impact = Action.deactivate
normalize_action GroupType.out_of_scope_group action impact = Action.out_of_scope
normalize_action GroupType.ignored action impact = Action.ignore
normalize_action _ action impact = if scoring_ignored impact then Action.ignore else action

changes : Action → Bool
changes Action.unspecified = false
changes _ = true

-- `isOverride`
unfoldable pub is_override : Action → GroupType → Bool
unfolding changes
is_override action GroupType.disable = true
is_override action GroupType.out_of_scope_group = true
is_override action GroupType.ignored = true
is_override action _ = changes action

any_supported : Filters → List String → Bool
any_supported [] supported = false
any_supported ((k, c) ∷ items) supported = contains k supported || any_supported items supported

-- `Filters.Supports`; `none` is nil.
unfoldable pub supports : Option Filters → List String → Bool
unfolding any_supported
supports none supported = true
supports (some []) supported = true
supports (some (i ∷ items)) supported = any_supported (i ∷ items) supported

or_unspecified : Option Action → Action
or_unspecified none = Action.unspecified
or_unspecified (some a) = a

-- `b.actionOverrides[mrn]` and `anyFilterMatches`
unfoldable pub action_of : Settings → String → Action
unfolding or_unspecified
action_of s mrn = or_unspecified (lookup mrn s.action_overrides)

unfoldable pub any_filter_matches : Settings → Option Filters → Bool
any_filter_matches s f = supports f s.asset_filters

unfoldable pub is_rejected : ReviewStatus → Bool
is_rejected ReviewStatus.rejected = true
is_rejected _ = false

-- Whether a validity or an end date has passed; an end date of 0 is none.
lapsed : Settings → Option ℤ → Bool
lapsed s none = false
lapsed s (some t) = s.is_past t

unfoldable pub ended : Settings → ℤ → Bool
ended s (pos zero) = false
ended s t = s.is_past t

any_code : Filters → List String → Bool
any_code [] supported = false
any_code ((k, c) ∷ items) supported = contains c supported || any_code items supported

filters_match : Settings → Option Filters → Bool
filters_match s none = true
filters_match s (some []) = true
filters_match s (some (i ∷ items)) = any_code (i ∷ items) s.asset_filters

-- `isGroupMatching` for a group of a policy.
unfoldable pub is_group_matching : Settings → PolicyGroup → Bool
unfolding is_rejected lapsed ended filters_match any_code
is_group_matching s g =
    if is_rejected g.review_status
    then false
    else if lapsed s g.until
    then false
    else if ended s g.end_date
    then false
    else filters_match s g.filters

-- `&Impact{Scoring: ScoringSystem_IGNORE_SCORE, Action: Action_IGNORE}`
abbrev pub ignoring : Impact
ignoring = record {
  value = none;
  scoring = ScoringSystem.ignore_score;
  weight = pos 0;
  action = Action.ignore;
}

abbrev pub is_ignore : Action → Bool
is_ignore Action.ignore = true
is_ignore _ = false

-- `actionToImpact`
unfoldable pub action_to_impact : Settings → String → Option Impact
action_to_impact s mrn = if is_ignore (action_of s mrn) then some ignoring else none
