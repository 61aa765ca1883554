-- ===== src/Resolve/Policies/Refs.antt =====
-- The loop of `addPolicy` over the policies that a group refers to.
use cnspec.Common.{
  refl, [], true, All, sym, arith, Bool, false, String, List, ◌∷◌, Option, some, ◌≡◌, ◌∙◌,
}
use mathlib.Core.Path.{subst}
use cnspec.Common.Dict.{lookup}
use cnspec.Resolve.{PolicyGroup, Policy, PolicyRef, Builder, Settings}
use cnspec.Resolve.Groups.{is_group_matching}
use cnspec.Resolve.Policies.{add_edge, ref_impact, add_refs}
use cnspec.Resolve.Policies.Included.{
  later-IsEdge, later-IsReporting, IsReporting, IsActive, Member, first, later,
}
use cnspec.Resolve.Queries.Sound.{Kept-trans, edge-Kept, Kept-self, IsSound, Kept}
use cnspec.Resolve.Walk.Paths.{IsNode, IsEdge}
use cnspec.Resolve.Edges.Grown.{add_edge-IsEdge}

module _ (s : Settings) (is_code : String → Bool) where
  -- Whether a group of the policy matches.
  abbrev pub HasGroup : Policy → Type 0
  HasGroup p = (g : PolicyGroup) × Member g p.groups × (is_group_matching s g ≡ true)

  abbrev pub PolicyAdded : Policy → Builder → Builder × Bool → Type 0
  PolicyAdded p b (c, matching) =
      Kept is_code b c × (IsActive s p → IsReporting s is_code c p × (HasGroup p → matching ≡ true))

  abbrev pub Visits : (Policy → Builder → Option (Builder × Bool)) → (String → Type 0) → Type 0
  Visits visit P =
      (k : String) (p : Policy) (b : Builder)
      → lookup k s.policies ≡ some p
      → P k
      → IsSound is_code b
      → (r : Builder × Bool) × (visit p b ≡ some r) × PolicyAdded p b r

  -- The policies that the references stand for are in the graph.
  abbrev pub AreReporting : String → List PolicyRef → Builder → Type 0
  AreReporting mrn rs c =
      (x : PolicyRef) (p : Policy)
      → Member x rs
      → lookup x.mrn s.policies ≡ some p
      → IsActive s p
      → HasGroup p
      → IsReporting s is_code c p × IsEdge c x.mrn mrn

  module _ (visit : Policy → Builder → Option (Builder × Bool)) (P : String → Type 0)
      (mrn : String) where
    abbrev Refers : List PolicyRef → Builder → Type 0
    Refers rs b =
        (c : Builder) × (add_refs s visit mrn rs b ≡ some c)
        × Kept is_code b c
        × AreReporting mrn rs c

    referred :
        (x : PolicyRef) (p : Policy) (rs : List PolicyRef) (b d : Builder)
        → lookup x.mrn s.policies ≡ some p
        → add_refs s visit mrn (x ∷ rs) b ≡ add_refs s visit mrn rs d
        → Kept is_code b d
        → (IsActive s p → HasGroup p → IsReporting s is_code d p × IsEdge d x.mrn mrn)
        → Refers rs d
        → Refers (x ∷ rs) b
    referred x p rs b d at same k done_here (c, e, l, h) = (
      c,
      same ∙ e,
      Kept-trans is_code b d c k l,
      λ y o m found active group. go y o m found active group,
    )
      where
        go : AreReporting mrn (x ∷ rs) c
        go y o first found active group =
            let same_policy : p ≡ o = ground (arith, at, found) in
            let (reporting, edge) =
              done_here (subst (IsActive s) (sym same_policy) active)
                (subst HasGroup (sym same_policy) group) in
            (
              subst (IsReporting s is_code c) same_policy
                  (later-IsReporting s is_code d c p l.grown reporting),
              later-IsEdge s is_code d c x.mrn mrn l.grown edge,
            )
        go y o (later m) found active group = h y o m found active group

    visited :
        (x : PolicyRef) (p : Policy) (rs : List PolicyRef) (b : Builder)
        → lookup x.mrn s.policies ≡ some p
        → IsNode b mrn
        → (r : Builder × Bool) → visit p b ≡ some r
        → PolicyAdded p b r
        → ((d : Builder) → IsNode d mrn → IsSound is_code d → Refers rs d)
        → Refers (x ∷ rs) b
    unfolding add_refs
    visited x p rs b at node (d, false) e (k, h) rest =
        referred x p rs b d at (ground (arith, at, e)) k
          (λ active group. absurd (ground (arith, (h active).1 group)))
          (rest d (k.grown.nodes mrn node) k.sound)
    visited x p rs b at node (d, true) e (k, h) rest =
        let l = edge-Kept is_code x.mrn mrn (ref_impact s x.mrn) d k.sound in
        let f = add_edge x.mrn mrn (ref_impact s x.mrn) d in
        let top : IsNode f mrn = l.grown.nodes mrn (k.grown.nodes mrn node) in
        referred x p rs b f at (ground (arith, at, e)) (Kept-trans is_code b d f k l)
          (λ active group. (
            later-IsReporting s is_code d f p l.grown (h active).0,
            (add_edge-IsEdge x.mrn mrn (ref_impact s x.mrn) d, top),
          ))
          (rest f top l.sound)

    -- The bundle has the policies that are referred to.
    abbrev pub IsHeld : PolicyRef → Type 0
    IsHeld r = ((p : Policy) × (lookup r.mrn s.policies ≡ some p)) × P r.mrn

    pub add_refs-Kept :
        Visits visit P
        → (rs : List PolicyRef) (b : Builder) → All IsHeld rs
        → IsNode b mrn
        → IsSound is_code b
        → Refers rs b
    unfolding add_refs
    add_refs-Kept visits [] b low node sound =
        (b, refl, Kept-self is_code b sound, λ x p m found active group. go x p m)
      where
        go :
            (x : PolicyRef) (p : Policy)
            → Member x []
            → IsReporting s is_code b p × IsEdge b x.mrn mrn
        go x p m = elim m [ ]
    add_refs-Kept visits (x ∷ rs) b (((p, at), l), low) node sound =
        let (r, e, h) = visits x.mrn p b at l sound in
        visited x p rs b at node r e h (λ d n k. add_refs-Kept visits rs d low n k)
