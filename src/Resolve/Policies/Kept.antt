-- ===== src/Resolve/Policies/Kept.antt =====
-- A policy that is added has its checks reporting to it.
use cnspec.Common.{
  ◌&&◌, zero, suc, ◌<◌, ℕ, Bool, false, Bool-cases, String, All, some, ◌≡◌, inl, inr, arith,
}
use cnspec.Resolve.{Mquery, Policy, Builder, Settings}
use cnspec.Resolve.Groups.{can_run, action_of, any_filter_matches}
use cnspec.Resolve.Policies.{
  add_risk_factors, node_of, add_node, add_query, lookup, finish_policy, add_policy,
}
use cnspec.Resolve.Policies.Included.{
  nested, direct, IsConnected, IsReporting, IsIncluded, later-IsReporting,
}
use cnspec.Resolve.Policies.Loops.{Asks}
use cnspec.Resolve.Policies.Refs.{HasGroup, PolicyAdded, Visits}
use cnspec.Resolve.Queries.Sound.{other-Kept, IsSound, Kept-self, Kept-trans}
use cnspec.Resolve.Walk.Paths.{here, step, Reach, IsNode}
use cnspec.Resolve.Queries.Kept.{add_query_kept, IsSorted}
use mathlib.Core.Path.{subst}
use cnspec.Resolve.Policies.GroupsKept.{AreAdded, add_groups-Kept}
use cnspec.Common.Sums.{All-imp}
use cnspec.Resolve.Edges.Grown.{IsNode-add_node}
use cnspec.Resolve.Policies.RiskKept.{risk_factors-Kept}

module _ (s : Settings) (is_code : String → Bool) where
  pub included_group : (q : Mquery) (p : Policy) → IsIncluded s q p → HasGroup s is_code p
  included_group q p (direct g c i t _ _ _ _) = (g, i, t)
  included_group q p (nested g r o i t _ _ _ _) = (g, i, t)

  -- The policies of the bundle are keyed by their MRNs, which are no code ids, and the rank falls
  -- from a policy to those that it refers to, which the bundle has.
  pub record IsLayered (rank : String → ℕ) : Type 0 where
    pub named : (k : String) (p : Policy) → lookup k s.policies ≡ some p → p.mrn ≡ k
    pub plain :
        (k : String) (p : Policy)
        → lookup k s.policies ≡ some p
        → (is_code p.mrn ≡ false) × All (λ r. is_code r.mrn ≡ false) p.risk_factors
    pub falls :
        (k : String) (p : Policy)
        → lookup k s.policies ≡ some p
        → All
            (λ g.
              All
                (λ r. ((o : Policy) × (lookup r.mrn s.policies ≡ some o)) × (rank r.mrn < rank k))
                g.policies)
            p.groups

  group-IsReporting :
      (rank : String → ℕ) (p : Policy) (c : Builder)
      → IsLayered rank
      → IsNode c p.mrn
      → AreAdded s is_code p.mrn p.groups c
      → IsReporting s is_code c p
  group-IsReporting rank p c layered node h = (node, λ q i. go q i)
    where
      go : (q : Mquery) → IsIncluded s q p → IsConnected s is_code c q × Reach c q.mrn p.mrn
      go q (direct g x i t j o found good) =
          let (connected, edge) = (h g i t).1 x q j o found good in (connected, step here edge)
      go q (nested g r o i t j found active inc) =
          let (reporting, edge) = (h g i t).0 r o j found active (included_group q o inc) in
          let (connected, path) = reporting.1 q inc in
          (connected, step (subst (Reach c q.mrn) (layered.named r.mrn o found) path) edge)

  ask_lem :
      (rank : String → ℕ) (fuel : ℕ)
      → IsSorted s is_code rank
      → ((k : String) (q : Mquery)
          → lookup k s.queries ≡ some q
          → All (λ v. rank v < fuel) q.variants)
      → Asks s is_code (add_query s (suc fuel))
  ask_lem rank fuel sorted room k q b found sound =
      add_query_kept s is_code rank sorted fuel q b (room k q found) (sorted.coded k q found) sound

  policy_lem :
      (query_fuel fuel : ℕ) (rank : String → ℕ) (P : String → Type 0)
      → IsLayered rank
      → Asks s is_code (add_query s query_fuel)
      → Visits s is_code (add_policy s query_fuel fuel) P
      → (k : String) (p : Policy) (b : Builder) → lookup k s.policies ≡ some p
      → ((x : String) → rank x < rank k → P x)
      → IsSound is_code b
      → (r : Builder × Bool) × (add_policy s query_fuel (suc fuel) p b ≡ some r)
        × PolicyAdded s is_code p b r
  unfolding add_policy finish_policy
  policy_lem query_fuel fuel rank P layered asks visits k p b found low sound =
      elim (Bool-cases (can_run (action_of s p.mrn) && any_filter_matches s p.computed_filters)) [
        | inr stopped ↦ (
          (b, false),
          ground (arith, stopped),
          (Kept-self is_code b sound, λ active. absurd (ground (arith, stopped, active))),
        )
        | inl runs ↦
            let d = add_node p.mrn (node_of s p) b in
            let k0 = other-Kept is_code p.mrn (node_of s p) b (layered.plain k p found).0 sound in
            let (c, m, e, k1, h, hm) =
              add_groups-Kept s is_code (add_policy s query_fuel fuel) P (add_query s query_fuel)
                p.mrn visits asks p.groups d
                (All-imp p.groups
                  (λ g held. All-imp g.policies (λ r (o, less). (o, low r.mrn less)) held)
                  (layered.falls k p found))
                (IsNode-add_node p.mrn (node_of s p) b) k0.sound in
            let node : IsNode c p.mrn =
              k1.grown.nodes p.mrn (IsNode-add_node p.mrn (node_of s p) b) in
            let f = (add_risk_factors s p.mrn p.risk_factors c).0 in
            let k2 =
              risk_factors-Kept s is_code p.mrn p.risk_factors c (layered.plain k p found).1
                k1.sound in
            (
              finish_policy s p (c, m),
              ground (arith, runs, e),
              (
                Kept-trans is_code b d f k0 (Kept-trans is_code d c f k1 k2),
                λ active. (
                  later-IsReporting s is_code c f p k2.grown
                      (group-IsReporting rank p c layered node h),
                  λ (g, i, t). ground (arith, hm g i t),
                ),
              ),
            )
      ]

  pub add_policy-Added :
      (query_rank rank : String → ℕ) (query_fuel fuel : ℕ)
      → IsSorted s is_code query_rank
      → ((k : String) (q : Mquery)
          → lookup k s.queries ≡ some q
          → All (λ v. query_rank v < query_fuel) q.variants)
      → IsLayered rank
      → Visits s is_code (add_policy s (suc query_fuel) fuel) (λ k. rank k < fuel)
  add_policy-Added query_rank rank query_fuel zero sorted room layered k p b found less sound =
      absurd (omega arith)
  add_policy-Added query_rank rank query_fuel (suc fuel) sorted room layered k p b found less
        sound =
      policy_lem (suc query_fuel) fuel rank (λ x. rank x < fuel) layered
        (ask_lem query_rank query_fuel sorted room)
        (add_policy-Added query_rank rank query_fuel fuel sorted room layered) k p b found
        (λ x l. omega arith) sound
