-- ===== src/Impact.antt =====
-- policy/explorer_impact.go: how much a check matters to the policy above it, and how the score
-- of that policy is computed. Enumerations are those of policy/cnspec_policy.proto.
pub mod Base
pub mod Codec
use cnspec.Common.{
  ℕ, String, Bool, false, Option, none, some, ℤ, pos, negsuc, is_pos, leb, if◌then◌else◌,
}

pub data ScoringSystem : Type 0 where
  scoring_unspecified weighted worst average data_only : ScoringSystem
  ignore_score banded decayed disabled : ScoringSystem
  unlisted : ℕ → ScoringSystem

pub data Action : Type 0 where
  unspecified modify deactivate activate ignore out_of_scope : Action
  unlisted : ℕ → Action

-- `value` is the optional `ImpactValue`, `weight` an int32.
pub record Impact : Type 0 where
  pub value : Option ℤ
  pub scoring : ScoringSystem
  pub weight : ℤ
  pub action : Action

-- The test of `Impact.HumanReadable`, `v >= n` for a numeral n.
abbrev at_least : ℕ → ℤ → Bool
at_least n (pos v) = leb n v
at_least n (negsuc v) = false

human_readable_value : ℤ → String
human_readable_value v =
    if at_least 90 v
    then "critical"
    else if at_least 70 v
    then "high"
    else if at_least 40 v
    then "medium"
    else if is_pos v
    then "low"
    else "info"

-- `Impact.HumanReadable`
unfoldable pub human_readable : Option ℤ → String
unfolding human_readable_value
human_readable none = "unknown"
human_readable (some v) = human_readable_value v

abbrev or_scoring : ScoringSystem → ScoringSystem → ScoringSystem
or_scoring scoring_unspecified b = b
or_scoring s b = s

abbrev or_value : Option ℤ → Option ℤ → Option ℤ
or_value none b = b
or_value (some v) b = some v

abbrev or_action : Action → Action → Action
or_action unspecified b = b
or_action a b = a

-- `Impact.AddBase`: what the impact leaves open is taken from the base.
unfoldable pub add_base : Impact → Option Impact → Impact
add_base v none = v
add_base v (some base) = record {
  value = or_value v.value base.value;
  scoring = or_scoring v.scoring base.scoring;
  weight = if is_pos v.weight then v.weight else base.weight;
  action = or_action v.action base.action;
}
