-- ===== src/Resolve.antt =====
-- policy/resolved_policy_builder.go: the graph from which a resolved policy is built. This file has
-- the messages of the proto file with the fields that the builder reads, and the state of
-- `resolvedPolicyBuilder`. What stays the same while nodes and edges are added is `Settings`. Maps are
-- association lists. The texts of queries, their properties and the magnitude of a risk factor pass
-- through unread and are left out.
pub mod Edges
pub mod Frameworks
pub mod Groups
pub mod Jobs
pub mod Overrides
pub mod PolicyOverrides
pub mod Policies
pub mod Queries
pub mod Risks
pub mod Types
pub mod Walk
use cnspec.Common.{ℕ, String, List, [], Option, ℤ, Bool}
use cnspec.Impact.{Impact, ScoringSystem, Action}

pub data GroupType : Type 0 where
  uncategorized chapter imported override ignored disable properties out_of_scope_group : GroupType

pub data ReviewStatus : Type 0 where
  not_reviewed approved rejected pending_extension : ReviewStatus

-- `Filters`: the keys of its items, each with the code id of its query.
abbrev pub Filters : Type 0
Filters = List (String × String)

-- `Mquery`; the variants are MRNs. An impact is the address of an `Impact` object, here and below.
pub record Mquery : Type 0 where
  pub mrn : String
  pub code_id : String
  pub filters : Option Filters
  pub variants : List String
  pub impact : Option ℕ
  pub action : Action

pub record PolicyRef : Type 0 where
  pub mrn : String
  pub action : Action
  pub impact : Option ℕ
  pub scoring_system : ScoringSystem

-- `PolicyGroup`; `until` is the validity.
pub record PolicyGroup : Type 0 where
  pub policies : List PolicyRef
  pub checks : List Mquery
  pub queries : List Mquery
  pub type : GroupType
  pub filters : Option Filters
  pub end_date : ℤ
  pub until : Option ℤ
  pub review_status : ReviewStatus

pub record RiskFactor : Type 0 where
  pub mrn : String
  pub action : Action
  pub filters : Option Filters
  pub checks : List Mquery
  pub queries : List Mquery

pub record Policy : Type 0 where
  pub mrn : String
  pub scoring_system : ScoringSystem
  pub groups : List PolicyGroup
  pub computed_filters : Option Filters
  pub risk_factors : List RiskFactor

-- `ControlMap`, with the MRNs that it refers to.
pub record ControlMap : Type 0 where
  pub mrn : String
  pub checks : List String
  pub queries : List String
  pub policies : List String
  pub controls : List String

pub record FrameworkMap : Type 0 where
  pub framework_owner : String
  pub controls : List ControlMap

-- `Control`, of which an override is read.
pub record Control : Type 0 where
  pub mrn : String
  pub action : Action

pub record FrameworkGroup : Type 0 where
  pub controls : List Control
  pub type : GroupType
  pub end_date : ℤ
  pub review_status : ReviewStatus

-- `Framework`; the dependencies are MRNs.
pub record Framework : Type 0 where
  pub mrn : String
  pub groups : List FrameworkGroup
  pub dependencies : List String
  pub framework_maps : List FrameworkMap

pub data QueryType : Type 0 where
  scoring data_query both : QueryType

-- The types that implement `rpBuilderNode`, without their id.
pub data Node : Type 0 where
  policy_node : ScoringSystem → Bool → Node
  query_node : QueryType → String → Node
  execution_node : Mquery → Node
  framework_node : Node
  control_node : Node
  risk_factor_node : List String → Node

-- `riskDataQueryRef` and `edgeImpact`
pub record RiskDataQueryRef : Type 0 where
  pub code_id : String
  pub query_mrn : String

pub record EdgeImpact : Type 0 where
  pub edge : String
  pub impact : Option Impact

-- The maps of `resolvedPolicyBuilder` that grow.
pub record Builder : Type 0 where
  pub nodes : List (String × Node)
  pub reports_to : List (String × List String)
  pub reports_from : List (String × List EdgeImpact)
  pub risk_data_query_infos : List (String × List RiskDataQueryRef)

abbrev pub new_builder : Builder
new_builder = record { nodes = []; reports_to = []; reports_from = []; risk_data_query_infos = [] }

-- What the overrides gather is final, with the impacts for their addresses. `is_past` is the test `time.Unix(seconds, 0).Before(b.now)`.
pub record Settings : Type 0 where
  pub bundle_mrn : String
  pub queries : List (String × Mquery)
  pub policies : List (String × Policy)
  pub frameworks : List (String × Framework)
  pub asset_filters : List String
  pub policy_scoring_systems : List (String × ScoringSystem)
  pub action_overrides : List (String × Action)
  pub impact_overrides : List (String × Impact)
  pub query_types : List (String × QueryType)
  pub disabled_query : Mquery
  pub is_past : ℤ → Bool
