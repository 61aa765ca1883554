-- ===== src/Resolve/Jobs.antt =====
-- The parts of a resolved policy that the nodes of policy/resolved_policy_builder.go build. The checksum
-- `relativeChecksum` is a parameter, and so is what compiling and connecting the datapoints of a
-- query does to the rest of the resolved policy, `execution`, where `none` is an error.
pub mod Connect
use cnspec.Common.{
  Bool, true, false, String, List, [], ◌∷◌, ◌++◌, Option, none, some, if◌then◌else◌,
}
use cnspec.Common.Dict.{lookup, update}
use cnspec.Common.Keys.{contains}
use cnspec.Impact.{Impact, ScoringSystem}
use cnspec.Node.ReportingJob.{
  JobType, check, data_query, check_and_data_query, policy, framework, risk_factor, execution_query,
  control,
}
use cnspec.Resolve.{
  Mquery, Node, QueryType, policy_node, query_node, execution_node, framework_node, control_node,
  risk_factor_node,
}

-- `ReportingJob`, without its datapoints and its checksum.
pub record ReportingJob : Type 0 where
  pub qr_id : String
  pub uuid : String
  pub notify : List String
  pub scoring_system : ScoringSystem
  pub child_jobs : List (String × Option Impact)
  pub type : JobType
  pub mrns : List String

-- The maps of `CollectorJob` that nodes fill, with the rest of the resolved policy; the risk factors
-- and their data queries, which are copied, are left out.
pub record Resolved (X : Type 0) : Type 0 where
  pub reporting_jobs : List (String × ReportingJob)
  pub reporting_queries : List (String × List String)
  pub risk_mrns : List (String × List String)
  pub execution : X

unfoldable pub new_job : String → String → JobType → List String → ReportingJob
new_job qr_id uuid type mrns = record {
  qr_id = qr_id;
  uuid = uuid;
  notify = [];
  scoring_system = ScoringSystem.scoring_unspecified;
  child_jobs = [];
  type = type;
  mrns = mrns;
}

-- The type of the job of a query.
job_type : QueryType → JobType
job_type QueryType.scoring = check
job_type QueryType.data_query = data_query
job_type QueryType.both = check_and_data_query

is_scored : QueryType → Bool
is_scored QueryType.data_query = false
is_scored _ = true

or_empty : Option (List String) → List String
or_empty none = []
or_empty (some xs) = xs

-- The item is appended to the strings of the key, or only if they do not have it.
append_item : String → String → List (String × List String) → List (String × List String)
append_item k item m = update k (or_empty (lookup k m) ++ (item ∷ [])) m

append_new : String → String → List (String × List String) → List (String × List String)
append_new k item m =
    if contains item (or_empty (lookup k m))
    then update k (or_empty (lookup k m)) m
    else append_item k item m

module _ {X : Type 0} where
  -- `addReportingJob`; the MRNs are empty unless they are allowed.
  unfoldable pub add_reporting_job :
      String → String → JobType → List String → Resolved X → Resolved X
  unfolding new_job
  add_reporting_job qr_id uuid type mrns r = elim (lookup uuid r.reporting_jobs) [
    | some j ↦ r
    | none ↦ record r {
      reporting_jobs = update uuid (new_job qr_id uuid type mrns) r.reporting_jobs;
    }
  ]

  unfoldable pub set_scoring : String → ScoringSystem → Resolved X → Resolved X
  set_scoring uuid scoring r = elim (lookup uuid r.reporting_jobs) [
    | none ↦ r
    | some j ↦ record r {
      reporting_jobs = update uuid (record j { scoring_system = scoring }) r.reporting_jobs;
    }
  ]

  unfoldable pub add_reporting_query : QueryType → String → String → Resolved X → Resolved X
  unfolding is_scored append_new append_item or_empty
  add_reporting_query type code uuid r =
      if is_scored type
      then record r { reporting_queries = append_new code uuid r.reporting_queries }
      else r

  unfoldable pub add_risk_mrns : (String → String) → String → List String → Resolved X → Resolved X
  unfolding append_item or_empty
  add_risk_mrns checksum mrn [] r = r
  add_risk_mrns checksum mrn (code ∷ codes) r =
      add_risk_mrns checksum mrn codes
        (record r { risk_mrns = append_item (checksum code) mrn r.risk_mrns })

  unfoldable pub add_execution :
      (Mquery → X → Option X) → (String → String) → Mquery → Resolved X → Option (Resolved X)
  add_execution compile checksum q r = elim (compile q r.execution) [
    | none ↦ none
    | some x ↦ some (
        add_reporting_job q.code_id (checksum q.code_id) execution_query []
          (record r { execution = x }))
  ]

module _ {X : Type 0} (compile : Mquery → X → Option X) (checksum : String → String)
    (root : String) where
  -- `build` of each node; `root` is the checksum for the root.
  unfoldable pub build : String → Node → Resolved X → Option (Resolved X)
  unfolding job_type
  build id (policy_node scoring true) r = some (add_reporting_job id root policy [] r)
  build id (policy_node scoring false) r =
      some
        (set_scoring (checksum id) scoring (add_reporting_job id (checksum id) policy (id ∷ []) r))
  build id (query_node type code) r = some (
      add_reporting_query type code (checksum code)
        (add_reporting_job id (checksum id) (job_type type) (id ∷ []) r))
  build id (execution_node q) r = add_execution compile checksum q r
  build id framework_node r = some (add_reporting_job id (checksum id) framework (id ∷ []) r)
  build id control_node r = some (add_reporting_job id (checksum id) control (id ∷ []) r)
  build id (risk_factor_node codes) r =
      some (
        add_risk_mrns checksum id codes
          (add_reporting_job id (checksum id) risk_factor (id ∷ []) r))
