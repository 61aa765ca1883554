-- ===== src/Resolve/Policies/Resolved.antt =====
-- The checks that a policy includes are in its resolved policy.
use cnspec.Common.{
  ℕ, suc, ◌<◌, length, Bool, true, false, Bool-cases, String, str_eq, eq_iff, List, [], ◌∷◌, All,
  Option, some, ◌≡◌, ◌≢◌, inl, inr, arith,
}
use cnspec.Common.Dict.{lookup}
use cnspec.Common.Keys.{contains}
use cnspec.Resolve.{Mquery, Policy, Builder, Settings, Node, execution_node, new_builder}
use cnspec.Resolve.Policies.{add_policy}
use cnspec.Resolve.Policies.Included.{IsActive, IsIncluded, IsConnected}
use cnspec.Resolve.Policies.Kept.{included_group, IsLayered, add_policy-Added}
use cnspec.Resolve.Queries.Sound.{IsSound, new-IsSound}
use cnspec.Resolve.Queries.Kept.{IsSorted}
use cnspec.Resolve.Walk.{
  State, Outcome, done, failed, out_of_fuel, walk_from, non_prunables, is_prunable,
}
use cnspec.Resolve.Walk.Paths.{Reach, IsReached, reach_trans}
use cnspec.Resolve.Walk.Walked.{IsBlocked}
use cnspec.Resolve.Walk.Reached.{Ended, walk_reaches}

starts :
    (is_space : String → Bool) (id : String) (n : Node) (ns : List (String × Node))
    → lookup id ns ≡ some n
    → is_prunable is_space id n ≡ false
    → contains id (non_prunables is_space ns) ≡ true
unfolding lookup contains non_prunables
starts is_space id n [] found kept = cc
starts is_space id n ((k, m) ∷ ns) found kept = elim (Bool-cases (str_eq k id)) [
  | inl is ↦ ground (arith, eq_iff k id, found, kept)
  | inr other ↦ ground (arith, other, starts is_space id n ns (ground (arith, other, found)) kept)
]

module _ {J : Type 0} (build : String → Node → J → Option J) where
  -- The walk visits the check and the policy, unless a node does not build.
  abbrev pub IsVisited : (String → Bool) → Builder → String → String → Outcome J → Type 0
  IsVisited is_space b check policy (done t) =
      (contains check t.visited ≡ true) × (contains policy t.visited ≡ true)
  IsVisited is_space b check policy failed = IsBlocked build b (non_prunables is_space b.nodes)
  IsVisited is_space b check policy out_of_fuel = ⊥

  visited_lem :
      (is_space : String → Bool) (is_code : String → Bool) (b : Builder) (j : J) (s : Settings)
      (q : Mquery) (p : Policy)
      → IsSound is_code b
      → IsConnected s is_code b q
      → Reach b q.mrn p.mrn
      → (o : Outcome J) → Ended build b is_space j o
      → IsVisited is_space b q.mrn p.mrn o
  unfolding is_prunable
  visited_lem is_space is_code b j s q p sound (code, coded, (n, found), node, path) up (done t)
        (h, _, _) =
      let (w, runs) = sound.running code n found coded in
      let start : IsReached b (non_prunables is_space b.nodes) q.mrn =
        (code, starts is_space code n b.nodes found (ground (arith, runs)), (n, found), path) in
      ((h q.mrn).1 ∣ start ∣₁, (h p.mrn).1 ∣ (code, start.1, (n, found), reach_trans b path up) ∣₁)
  visited_lem is_space is_code b j s q p sound connected up failed h = h
  visited_lem is_space is_code b j s q p sound connected up cnspec.Resolve.Walk.out_of_fuel h = h

  ended_lem :
      (b : Builder) (is_space : String → Bool) (j : J) (o : Outcome J)
      → Ended build b is_space j o
      → o ≢ out_of_fuel
  ended_lem b is_space j (done t) h = λ e. cc e
  ended_lem b is_space j failed h = λ e. cc e
  ended_lem b is_space j cnspec.Resolve.Walk.out_of_fuel h = absurd h

  module _ (s : Settings) (is_code : String → Bool) where
    -- A bundle has code ids that are told from MRNs, a rank that falls from queries to variants, and
    -- one that falls from policies to those that they refer to, which it has under their MRNs.
    -- Then adding a policy of the bundle to a new graph, with fuel above the ranks, and walking
    -- over the graph both end. For every check that the policy includes, itself or by policies that
    -- it refers to, and that the asset supports: if the policy runs on the asset, then it is
    -- reported as added, and the walk visits the check and the policy, unless a node that is
    -- reached does not build.
    pub policy-IsVisited :
        (query_rank rank : String → ℕ) (query_fuel fuel : ℕ)
        → IsSorted s is_code query_rank
        → ((k : String) (q : Mquery)
            → lookup k s.queries ≡ some q
            → All (λ v. query_rank v < query_fuel) q.variants)
        → IsLayered s is_code rank
        → (k : String) (p : Policy) → lookup k s.policies ≡ some p
        → rank k < fuel
        → (is_space : String → Bool) (j : J)
        → (b : Builder) × (m : Bool) × (add_policy s (suc query_fuel) fuel p new_builder
            ≡ some (b, m))
          × (walk_from build b is_space (suc (length b.nodes)) j ≢ out_of_fuel)
          × ((q : Mquery)
              → IsActive s p
              → IsIncluded s q p
              → (m ≡ true)
                × IsVisited is_space b q.mrn p.mrn
                    (walk_from build b is_space (suc (length b.nodes)) j))
    policy-IsVisited query_rank rank query_fuel fuel sorted room layered k p found less is_space j =
        let (r, e, (kept, h)) =
          add_policy-Added s is_code query_rank rank query_fuel fuel sorted room layered k p
            new_builder found less (new-IsSound is_code) in
        let o = walk_from build r.0 is_space (suc (length r.0.nodes)) j in
        let ended : Ended build r.0 is_space j o =
          walk_reaches build r.0 is_space (suc (length r.0.nodes)) j (omega arith) in
        (
          r.0,
          r.1,
          e,
          ended_lem r.0 is_space j o ended,
          λ q active inc.
              let (reporting, matching) = h active in
              let (connected, up) = reporting.1 q inc in
              (
                matching (included_group s is_code q p inc),
                visited_lem is_space is_code r.0 j s q p kept.sound connected up o ended,
              ),
        )
