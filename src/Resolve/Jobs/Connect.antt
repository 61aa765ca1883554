-- ===== src/Resolve/Jobs/Connect.antt =====
-- What `buildResolvedPolicy` of policy/resolved_policy_builder.go does after its walk: the reporting jobs
-- are connected along the edges, by their qr ids, and the root is found. `CollectorJob.Validate` of
-- policy/collectorjob.go.
pub mod Tables
pub mod Changes
pub mod Fresh
pub mod Wired
pub mod Links
pub mod Index
use cnspec.Common.{
  ℕ, Bool, true, false, ◌&&◌, String, str_eq, List, [], ◌∷◌, ◌++◌, Option, none, some,
  if◌then◌else◌,
}
use cnspec.Common.Dict.{lookup, update}
use cnspec.Resolve.Edges.{is_some}
use cnspec.Impact.{Impact}
use cnspec.Resolve.{Builder, EdgeImpact, Mquery}
use cnspec.Resolve.Jobs.{ReportingJob, Resolved, build}
use cnspec.Resolve.Walk.{walk_from, State, Outcome, done, failed, out_of_fuel}

abbrev pub Jobs : Type 0
Jobs = List (String × ReportingJob)

-- `reportingJobsByQrId`, with the key of each job; `none` is the error on two jobs with one qr id.
unfoldable pub by_qr_id : Jobs → List (String × String) → Option (List (String × String))
by_qr_id [] ids = some ids
by_qr_id ((uuid, j) ∷ js) ids = elim (lookup j.qr_id ids) [
  | some other ↦ none
  | none ↦ by_qr_id js (update j.qr_id uuid ids)
]

notified : String → ReportingJob → ReportingJob
notified uuid j = record j { notify = j.notify ++ (uuid ∷ []) }

with_child : String → Option Impact → ReportingJob → ReportingJob
with_child uuid impact j = record j { child_jobs = update uuid impact j.child_jobs }

unfoldable pub change : String → (ReportingJob → ReportingJob) → Jobs → Jobs
change uuid f js = elim (lookup uuid js) [ none ↦ js | some j ↦ update uuid (f j) js ]

-- `connectReportingJobNotifies`, for the jobs with these keys.
unfoldable pub connect_notifies : String → String → Option Impact → Jobs → Jobs
unfolding notified with_child
connect_notifies child parent impact js =
    change parent (with_child child impact) (change child (notified parent) js)

-- The body of the loop over the edges, and the loop.
unfoldable pub connect_edge : List (String × String) → String → EdgeImpact → Jobs → Jobs
connect_edge ids to e js = elim (lookup to ids) [
  | none ↦ js
  | some parent ↦ elim (lookup e.edge ids) [
    | none ↦ js
    | some child ↦ connect_notifies child parent e.impact js
  ]
]

unfoldable pub connect_sources : List (String × String) → String → List EdgeImpact → Jobs → Jobs
connect_sources ids to [] js = js
connect_sources ids to (e ∷ es) js = connect_sources ids to es (connect_edge ids to e js)

unfoldable pub connect_all : List (String × String) → List (String × List EdgeImpact) → Jobs → Jobs
connect_all ids [] js = js
connect_all ids ((to, es) ∷ rest) js = connect_all ids rest (connect_sources ids to es js)

-- The result of `buildResolvedPolicy`: the jobs and the key of the root.
pub data Resolution : Type 0 where
  resolved : Jobs → String → Resolution
  build_error : Resolution
  duplicate_qr_id : Resolution
  no_matching_policy : Resolution
  unfinished : Resolution

unfoldable pub as_root : ReportingJob → ReportingJob
as_root j = record j { qr_id = "root" }

unfoldable pub finish_with : String → Builder → Jobs → Option (List (String × String)) → Resolution
unfolding as_root
finish_with bundle_mrn b js none = duplicate_qr_id
finish_with bundle_mrn b js (some ids) = elim (lookup bundle_mrn ids) [
  | none ↦ no_matching_policy
  | some uuid ↦ resolved (change uuid as_root (connect_all ids b.reports_from js)) uuid
]

-- What follows the walk.
unfoldable pub finish : {X : Type 0} → String → Builder → Outcome (Resolved X) → Resolution
finish bundle_mrn b failed = build_error
finish bundle_mrn b out_of_fuel = unfinished
finish bundle_mrn b (done t) =
    finish_with bundle_mrn b t.job.reporting_jobs (by_qr_id t.job.reporting_jobs [])

-- `Validate`: whether it finds nothing.
unfoldable pub all_keys : {A : Type 0} → List (String × A) → Jobs → Bool
unfolding is_some
all_keys [] js = true
all_keys ((k, a) ∷ ks) js = is_some (lookup k js) && all_keys ks js

unfoldable pub all_refs : List String → Jobs → Bool
unfolding is_some
all_refs [] js = true
all_refs (k ∷ ks) js = is_some (lookup k js) && all_refs ks js

unfoldable pub validate_all : Jobs → Jobs → Bool
validate_all [] js = true
validate_all ((k, j) ∷ rest) js =
    all_keys j.child_jobs js && (all_refs j.notify js && validate_all rest js)

unfoldable pub validate : Jobs → Bool
validate js = validate_all js js

-- The empty resolved policy.
abbrev pub new_resolved : {X : Type 0} → X → Resolved X
new_resolved x = record {
  reporting_jobs = [];
  reporting_queries = [];
  risk_mrns = [];
  execution = x;
}

-- `buildResolvedPolicy` from the walk on.
module _ {X : Type 0} (compile : Mquery → X → Option X) (checksum : String → String) (root : String)
    (is_space : String → Bool) where
  unfoldable pub built : ℕ → X → Builder → Outcome (Resolved X)
  built fuel x b = walk_from (build compile checksum root) b is_space fuel (new_resolved x)

  unfoldable pub resolve : ℕ → String → X → Builder → Resolution
  resolve fuel bundle_mrn x b = finish bundle_mrn b (built fuel x b)
