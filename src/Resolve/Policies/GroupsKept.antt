-- ===== src/Resolve/Policies/GroupsKept.antt =====
-- The loop of `addPolicy` over groups.
use cnspec.Common.{
  Bool, true, false, Bool-cases, String, List, [], ◌∷◌, All, Option, some, ◌≡◌, refl, inl, inr,
  arith,
}
use cnspec.Resolve.{Mquery, PolicyGroup, Policy, Builder, Settings}
use cnspec.Resolve.Groups.{is_group_matching, ignoring}
use cnspec.Resolve.Policies.{add_refs, add_group_queries, add_groups, check_impact}
use cnspec.Resolve.Policies.Included.{
  Member, first, later, later-IsConnected, later-IsEdge, later-IsReporting,
}
use cnspec.Resolve.Policies.Loops.{Asks, AreConnected, add_group_queries-Kept}
use cnspec.Resolve.Policies.Refs.{Visits, AreReporting, IsHeld, add_refs-Kept}
use cnspec.Resolve.Queries.Sound.{IsSound, Kept, Kept-self, Kept-trans}
use cnspec.Resolve.Walk.Paths.{IsNode}

module _ (s : Settings) (is_code : String → Bool) where
  -- The groups of a policy in the graph.
  abbrev pub AreAdded : String → List PolicyGroup → Builder → Type 0
  AreAdded mrn gs c =
      (g : PolicyGroup)
      → Member g gs
      → is_group_matching s g ≡ true
      → AreReporting s is_code mrn g.policies c × AreConnected s is_code g.type mrn g.checks c

  module _ (visit : Policy → Builder → Option (Builder × Bool)) (P : String → Type 0)
      (ask : Mquery → Builder → Option (Builder × Option String)) (mrn : String) where
    abbrev pub Adds : List PolicyGroup → Builder → Type 0
    Adds gs b =
        (c : Builder) × (m : Bool) × (add_groups s visit ask mrn gs b ≡ some (c, m))
        × Kept is_code b c
        × AreAdded mrn gs c
        × ((g : PolicyGroup) → Member g gs → is_group_matching s g ≡ true → m ≡ true)

    unmatched_group :
        (g : PolicyGroup) (gs : List PolicyGroup) (b : Builder)
        → is_group_matching s g ≡ false
        → Adds gs b
        → Adds (g ∷ gs) b
    unfolding add_groups
    unmatched_group g gs b other (c, m, e, k, h, hm) =
        (c, m, ground (arith, other, e), k, λ x i t. go x i t, λ x i t. gone x i t)
      where
        go : AreAdded mrn (g ∷ gs) c
        go x first t = absurd (ground (arith, other, t))
        go x (later i) t = h x i t

        gone : (x : PolicyGroup) → Member x (g ∷ gs) → is_group_matching s x ≡ true → m ≡ true
        gone x first t = absurd (ground (arith, other, t))
        gone x (later i) t = hm x i t

    matched_group :
        (g : PolicyGroup) (gs : List PolicyGroup) (b c d e : Builder)
        → is_group_matching s g ≡ true
        → (add_refs s visit mrn g.policies b ≡ some c) × AreReporting s is_code mrn g.policies c
        → (add_group_queries s ask (check_impact s) g.type mrn g.checks c ≡ some d)
          × AreConnected s is_code g.type mrn g.checks d
        → add_group_queries s ask (λ q. some ignoring) g.type mrn g.queries d ≡ some e
        → Kept is_code b c
        → Kept is_code c d
        → Kept is_code d e
        → Adds gs e
        → Adds (g ∷ gs) b
    unfolding add_groups
    matched_group g gs b c d e matches (e1, h1) (e2, h2) e3 k1 k2 k3 (f, m, e4, k4, h4, hm) = (
      f,
      true,
      ground (arith, matches, e1, e2, e3, e4),
      Kept-trans is_code b c f k1 cf,
      λ x i t. go x i t,
      λ x i t. refl,
    )
      where
        df : Kept is_code d f
        df = Kept-trans is_code d e f k3 k4

        cf : Kept is_code c f
        cf = Kept-trans is_code c d f k2 df

        go : AreAdded mrn (g ∷ gs) f
        go x first t = (
          λ r p i found active group.
              let (reporting, edge) = h1 r p i found active group in
              (
                later-IsReporting s is_code c f p cf.grown reporting,
                later-IsEdge s is_code c f r.mrn mrn cf.grown edge,
              ),
          λ y q i o found good.
              let (connected, edge) = h2 y q i o found good in
              (
                later-IsConnected s is_code d f q df.grown connected,
                later-IsEdge s is_code d f q.mrn mrn df.grown edge,
              ),
        )
        go x (later i) t = h4 x i t

    pub add_groups-Kept :
        Visits s is_code visit P
        → Asks s is_code ask
        → (gs : List PolicyGroup) (b : Builder)
        → All (λ g. All (IsHeld s is_code visit P mrn) g.policies) gs
        → IsNode b mrn
        → IsSound is_code b
        → Adds gs b
    unfolding add_groups
    add_groups-Kept visits asks [] b low node sound =
        (b, false, refl, Kept-self is_code b sound, λ g i t. none_in g i, λ g i t. none_here g i)
      where
        none_in :
            (g : PolicyGroup)
            → Member g []
            → AreReporting s is_code mrn g.policies b × AreConnected s is_code g.type mrn g.checks b
        none_in g i = elim i [ ]

        none_here : (g : PolicyGroup) → Member g [] → false ≡ true
        none_here g i = elim i [ ]
    add_groups-Kept visits asks (g ∷ gs) b (low, more) node sound =
        elim (Bool-cases (is_group_matching s g)) [
          | inr other ↦
              unmatched_group g gs b other (add_groups-Kept visits asks gs b more node sound)
          | inl matches ↦
              let (c, e1, k1, h1) =
                add_refs-Kept s is_code visit P mrn visits g.policies b low node sound in
              let n1 : IsNode c mrn = k1.grown.nodes mrn node in
              let (d, e2, k2, h2) =
                add_group_queries-Kept s is_code ask (check_impact s) g.type mrn asks g.checks c n1
                  k1.sound in
              let n2 : IsNode d mrn = k2.grown.nodes mrn n1 in
              let (e, e3, k3, h3) =
                add_group_queries-Kept s is_code ask (λ q. some ignoring) g.type mrn asks g.queries
                  d n2 k2.sound in
              matched_group g gs b c d e matches (e1, h1) (e2, h2) e3 k1 k2 k3
                (add_groups-Kept visits asks gs e more (k3.grown.nodes mrn n2) k3.sound)
        ]
