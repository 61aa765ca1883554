-- ===== src/Tests/Policies.antt =====
-- A policy that refers to one with a check in two variants, and theorems at it.
use cnspec.Common.{
  ℕ, suc, ◌<◌, ◌||◌, Bool, true, false, String, str_eq, List, [], ◌∷◌, All, Option, none, some, pos,
  if◌then◌else◌, ◌≡◌, ◌≢◌, refl, arith, length,
}
use cnspec.Common.Dict.{lookup, lookup-All}
use cnspec.Impact.{ScoringSystem, Action}
use cnspec.Resolve.{
  GroupType, ReviewStatus, Mquery, PolicyRef, PolicyGroup, Policy, Builder, Settings, Node,
  new_builder, QueryType,
}
use cnspec.Resolve.Edges.{targets, sources, is_some}
use cnspec.Resolve.Edges.Steps.{impact_from, edge_ids}
use cnspec.Resolve.Edges.InSync.{Call, add_edges, first_impact, edges_in_sync}
use cnspec.Resolve.Policies.{add_policy}
use cnspec.Resolve.Policies.Included.{IsActive, IsIncluded, direct, nested, first}
use cnspec.Resolve.Policies.Kept.{IsLayered}
use cnspec.Resolve.Policies.Resolved.{IsVisited, policy-IsVisited}
use cnspec.Resolve.Queries.{add_query}
use cnspec.Resolve.Queries.Sound.{new-IsSound}
use cnspec.Resolve.Queries.Added.{leaf, variant, Added, IsCoded}
use cnspec.Resolve.Queries.Kept.{IsSorted, add_query_kept}
use cnspec.Common.Keys.{contains, IsDistinct}
use cnspec.Resolve.Groups.{
  action_of, any_filter_matches, ignoring, is_group_matching, is_override, supports,
}
use cnspec.Resolve.Jobs.Connect.{built, resolve}
use cnspec.Resolve.Jobs.Connect.Wired.{IsResolved, resolve-IsWired}
use cnspec.Resolve.Walk.{walk_from, out_of_fuel}
use cnspec.Resolve.Walk.Reached.{Ended, walk_reaches}

abbrev on_linux : Mquery
on_linux = record {
  mrn = "//q/linux";
  code_id = "c-linux";
  filters = some (("l", "linux") ∷ []);
  variants = [];
  impact = none;
  action = Action.unspecified;
}

abbrev on_windows : Mquery
on_windows = record {
  mrn = "//q/windows";
  code_id = "c-windows";
  filters = some (("w", "windows") ∷ []);
  variants = [];
  impact = none;
  action = Action.unspecified;
}

abbrev either : Mquery
either = record {
  mrn = "//q/either";
  code_id = "c-either";
  filters = none;
  variants = "//q/windows" ∷ "//q/linux" ∷ [];
  impact = none;
  action = Action.unspecified;
}

abbrev off : Mquery
off = record {
  mrn = "";
  code_id = "c-off";
  filters = none;
  variants = [];
  impact = none;
  action = Action.unspecified;
}

abbrev checking : PolicyGroup
checking = record {
  policies = [];
  checks = either ∷ [];
  queries = [];
  type = GroupType.chapter;
  filters = none;
  end_date = pos 0;
  until = none;
  review_status = ReviewStatus.approved;
}

abbrev to_base : PolicyRef
to_base = record {
  mrn = "//p/base";
  action = Action.unspecified;
  impact = none;
  scoring_system = ScoringSystem.scoring_unspecified;
}

abbrev importing : PolicyGroup
importing = record checking { policies = to_base ∷ []; checks = [] }

abbrev base : Policy
base = record {
  mrn = "//p/base";
  scoring_system = ScoringSystem.average;
  groups = checking ∷ [];
  computed_filters = none;
  risk_factors = [];
}

abbrev top : Policy
top = record {
  mrn = "//p/top";
  scoring_system = ScoringSystem.average;
  groups = importing ∷ [];
  computed_filters = none;
  risk_factors = [];
}

abbrev settings : Settings
settings = record {
  bundle_mrn = "//p/top";
  queries = ("//q/linux", on_linux) ∷ ("//q/windows", on_windows) ∷ ("//q/either", either) ∷ [];
  policies = ("//p/base", base) ∷ ("//p/top", top) ∷ [];
  frameworks = [];
  asset_filters = "l" ∷ [];
  policy_scoring_systems = [];
  action_overrides = [];
  impact_overrides = [];
  query_types = [];
  disabled_query = off;
  is_past = λ t. false;
}

abbrev is_code : String → Bool
is_code k =
    str_eq k "c-linux" || (str_eq k "c-windows" || (str_eq k "c-either" || str_eq k "c-off"))

abbrev query_rank : String → ℕ
query_rank k = if str_eq k "//q/either" then 1 else 0

abbrev policy_rank : String → ℕ
policy_rank k = if str_eq k "//p/top" then 1 else 0

settings-IsSorted : IsSorted settings is_code query_rank
settings-IsSorted = record {
  coded = λ k q found.
      lookup-All (λ i v. IsCoded settings is_code v) k q settings.queries
        ((refl, refl), ((refl, refl), ((refl, refl), tt))) found;
  disabled = refl;
  falls = λ k q found.
      lookup-All (λ i v. All (λ w. query_rank w < query_rank i) v.variants) k q settings.queries
        (tt, (tt, ((omega arith, (omega arith, tt)), tt))) found;
}

settings-IsLayered : IsLayered settings is_code policy_rank
unfolding lookup
settings-IsLayered = record {
  named = λ k p found. lookup-All (λ i v. v.mrn ≡ i) k p settings.policies (refl, (refl, tt)) found;
  plain = λ k p found.
      lookup-All (λ i v. (is_code v.mrn ≡ false) × All (λ r. is_code r.mrn ≡ false) v.risk_factors)
        k p settings.policies ((refl, tt), ((refl, tt), tt)) found;
  falls = λ k p found.
      lookup-All
        (λ i v.
          All
            (λ g.
              All
                (λ r.
                  ((o : Policy) × (lookup r.mrn settings.policies ≡ some o))
                  × (policy_rank r.mrn < policy_rank i))
                g.policies)
            v.groups)
        k p settings.policies ((tt, tt), (((((base, refl), omega arith), tt), tt), tt)) found;
}

abbrev calls : List Call
calls =
    record { from = "a"; to = "b"; impact = none }
    ∷ record { from = "c"; to = "b"; impact = none }
    ∷ record { from = "a"; to = "b"; impact = some ignoring }
    ∷ []

edges_in_sync_example :
    (contains "b" (targets (add_edges calls new_builder) "a")
      ≡ is_some (first_impact "a" "b" calls))
    × (impact_from "a" (sources (add_edges calls new_builder) "b") ≡ first_impact "a" "b" calls)
    × IsDistinct (targets (add_edges calls new_builder) "a")
    × IsDistinct (edge_ids (sources (add_edges calls new_builder) "b"))
edges_in_sync_example = edges_in_sync calls "a" "b"

-- A code with its query and a policy, and a policy without a path to it.
abbrev graph : Builder
graph = record new_builder {
  nodes =
      ("c-linux", Node.execution_node on_linux)
      ∷ ("//q/linux", Node.query_node QueryType.scoring "c-linux")
      ∷ ("//p/base", Node.policy_node ScoringSystem.average false)
      ∷ ("//p/top", Node.policy_node ScoringSystem.average true)
      ∷ [];
  reports_to = ("c-linux", "//q/linux" ∷ []) ∷ ("//q/linux", "//p/top" ∷ []) ∷ [];
  reports_from =
      ("//q/linux", record { edge = "c-linux"; impact = none } ∷ [])
      ∷ ("//p/top", record { edge = "//q/linux"; impact = none } ∷ [])
      ∷ [];
}

abbrev record_id : String → Node → List String → Option (List String)
record_id id n ids = some (id ∷ ids)

abbrev is_space : String → Bool
is_space mrn = str_eq mrn "//captain.api.mondoo.app/spaces/s"

walk_reaches_example : Ended record_id graph is_space [] (walk_from record_id graph is_space 5 [])
walk_reaches_example = walk_reaches record_id graph is_space 5 [] (omega arith)

add_query_kept_example :
    (r : Builder × Option String) × (add_query settings 2 either new_builder ≡ some r)
    × Added is_code settings either new_builder r
add_query_kept_example =
    add_query_kept settings is_code query_rank settings-IsSorted 1 either new_builder
      (omega arith, (omega arith, tt)) (refl, refl) (new-IsSound is_code)

settings_room :
    (k : String) (q : Mquery)
    → lookup k settings.queries ≡ some q
    → All (λ v. query_rank v < 1) q.variants
settings_room k q found =
    lookup-All (λ i v. All (λ w. query_rank w < 1) v.variants) k q settings.queries
      (tt, (tt, ((omega arith, (omega arith, tt)), tt))) found

either-IsIncluded : IsIncluded settings either top
unfolding is_group_matching is_override supports contains lookup action_of any_filter_matches
either-IsIncluded = nested importing to_base base first refl first refl refl (
    direct checking either first refl first refl refl
      (variant "//q/linux" on_linux refl refl refl (leaf refl refl refl)))

policy-IsVisited_example :
    (b : Builder) × (m : Bool) × (add_policy settings 2 2 top new_builder ≡ some (b, m))
    × (walk_from record_id b is_space (suc (length b.nodes)) [] ≢ out_of_fuel)
    × ((q : Mquery)
        → IsActive settings top
        → IsIncluded settings q top
        → (m ≡ true)
          × IsVisited record_id is_space b q.mrn "//p/top"
              (walk_from record_id b is_space (suc (length b.nodes)) []))
unfolding lookup
policy-IsVisited_example =
    policy-IsVisited record_id settings is_code query_rank policy_rank 1 2 settings-IsSorted
      settings_room settings-IsLayered "//p/top" top refl (omega arith) is_space []

-- The policy runs on the asset, and the check with variants is one of those that it includes.
top-IsVisited :
    (b : Builder) × (m : Bool) × (add_policy settings 2 2 top new_builder ≡ some (b, m))
    × IsVisited record_id is_space b "//q/either" "//p/top"
        (walk_from record_id b is_space (suc (length b.nodes)) [])
unfolding lookup action_of any_filter_matches supports
top-IsVisited =
    let (b, m, added, _, visits) =
      policy-IsVisited record_id settings is_code query_rank policy_rank 1 2 settings-IsSorted
        settings_room settings-IsLayered "//p/top" top refl (omega arith) is_space [] in
    (b, m, added, (visits either refl either-IsIncluded).1)

abbrev compile : Mquery → List String → Option (List String)
compile q done = some (q.code_id ∷ done)

abbrev checksum : String → String
checksum s = if str_eq s "c-linux" then "1" else if str_eq s "//q/linux" then "2" else "3"

resolve-IsWired_example :
    IsResolved compile checksum "root#" is_space "//p/top" graph
      (built compile checksum "root#" is_space 5 [] graph)
      (resolve compile checksum "root#" is_space 5 "//p/top" [] graph)
resolve-IsWired_example =
    resolve-IsWired compile checksum "root#" is_space 5 "//p/top" [] graph (omega arith)
