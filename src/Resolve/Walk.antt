-- ===== src/Resolve/Walk.antt =====
-- The walk over the graph in `buildResolvedPolicy` of policy/resolved_policy_builder.go: from the nodes
-- that cannot be pruned along the edges, where every node is built once. What building does to the
-- resolved policy is a parameter, `build`, where `none` is an error. The recursion is on fuel.
pub mod Paths
pub mod Walked
pub mod Reached
use cnspec.Common.{
  ℕ, zero, suc, Bool, true, false, not, ◌&&◌, ◌||◌, String, List, [], ◌∷◌, Option, none, some,
  if◌then◌else◌,
}
use cnspec.Common.Dict.{lookup}
use cnspec.Common.Keys.{contains}
use cnspec.Resolve.{Builder, Node, policy_node, execution_node}
use cnspec.Resolve.Edges.{targets}

-- `isPrunable`; `is_space` is the test whether an MRN begins as that of a space.
unfoldable pub is_prunable : (String → Bool) → String → Node → Bool
is_prunable is_space id (policy_node scoring is_root) = not is_root && not (is_space id)
is_prunable is_space id (execution_node q) = false
is_prunable is_space id _ = true

-- The loop that collects the nodes to start from.
unfoldable pub non_prunables : (String → Bool) → List (String × Node) → List String
non_prunables is_space [] = []
non_prunables is_space ((id, n) ∷ ns) =
    let rest = non_prunables is_space ns in if is_prunable is_space id n then rest else id ∷ rest

-- The ids that were visited, the latest first, and the policy that is being built.
pub record State (J : Type 0) : Type 0 where
  pub visited : List String
  pub job : J

pub data Outcome (J : Type 0) : Type 0 where
  done : State J → Outcome J
  failed : Outcome J
  out_of_fuel : Outcome J

module _ {J : Type 0} (build : String → Node → J → Option J) (b : Builder) where
  -- The loop over ids; an id without a node is skipped.
  unfoldable pub walk_all :
      (String → Node → State J → Outcome J) → List String → State J → Outcome J
  walk_all visit [] s = done s
  walk_all visit (e ∷ es) s = elim (lookup e b.nodes) [
    | none ↦ walk_all visit es s
    | some n ↦ elim (visit e n s) [
      | done t ↦ walk_all visit es t
      | failed ↦ failed
      | out_of_fuel ↦ out_of_fuel
    ]
  ]

  -- `walk`
  unfoldable pub walk : ℕ → String → Node → State J → Outcome J
  walk zero id n s = out_of_fuel
  walk (suc fuel) id n s = if contains id s.visited then done s else elim (build id n s.job) [
    | none ↦ failed
    | some j ↦ walk_all (walk fuel) (targets b id) (record { visited = id ∷ s.visited; job = j })
  ]

  -- The walk from all nodes that cannot be pruned.
  unfoldable pub walk_from : (String → Bool) → ℕ → J → Outcome J
  walk_from is_space fuel j =
      walk_all (walk fuel) (non_prunables is_space b.nodes) (record { visited = []; job = j })
