-- ===== src/Resolve/Policies/Included.antt =====
-- Which checks a policy includes, and what it means that they report to it.
use cnspec.Common.{Bool, true, false, ◌&&◌, String, List, ◌∷◌, some, ◌≡◌}
use cnspec.Common.Dict.{lookup}
use cnspec.Resolve.{Mquery, PolicyRef, PolicyGroup, Policy, Builder, Settings}
use cnspec.Resolve.Edges.Grown.{IsGrown, grown_reach}
use cnspec.Resolve.Groups.{can_run, action_of, any_filter_matches, is_group_matching, is_override}
use cnspec.Resolve.Queries.Added.{IsSelectable}
use cnspec.Resolve.Walk.Paths.{IsNode, IsEdge, Reach}

pub data Member {A : Type 0} (x : A) : List A → Type 0 where
  first : {xs : List A} → Member x (x ∷ xs)
  later : {y : A} {xs : List A} → Member x xs → Member x (y ∷ xs)

module _ (s : Settings) where
  abbrev pub IsActive : Policy → Type 0
  IsActive p = (can_run (action_of s p.mrn) && any_filter_matches s p.computed_filters) ≡ true

  -- A check of a matching group that is no override and that the asset supports, or such a check of
  -- a policy that runs and that a matching group refers to.
  pub data IsIncluded (q : Mquery) : Policy → Type 0 where
    direct :
        {p : Policy} (g : PolicyGroup) (c : Mquery)
        → Member g p.groups
        → is_group_matching s g ≡ true
        → Member c g.checks
        → is_override c.action g.type ≡ false
        → lookup c.mrn s.queries ≡ some q
        → IsSelectable s q
        → IsIncluded q p
    nested :
        {p : Policy} (g : PolicyGroup) (r : PolicyRef) (o : Policy)
        → Member g p.groups
        → is_group_matching s g ≡ true
        → Member r g.policies
        → lookup r.mrn s.policies ≡ some o
        → IsActive o
        → IsIncluded q o
        → IsIncluded q p

  module _ (is_code : String → Bool) where
    -- The query is connected to a node that runs code.
    abbrev pub IsConnected : Builder → Mquery → Type 0
    IsConnected c q =
        (code : String) × (is_code code ≡ true)
        × IsNode c code
        × IsNode c q.mrn
        × Reach c code q.mrn

    abbrev pub IsReporting : Builder → Policy → Type 0
    IsReporting c p =
        IsNode c p.mrn × ((q : Mquery) → IsIncluded q p → IsConnected c q × Reach c q.mrn p.mrn)

    pub later-IsConnected :
        (b c : Builder) (q : Mquery) → IsGrown b c → IsConnected b q → IsConnected c q
    later-IsConnected b c q g (code, coded, run, node, path) =
        (code, coded, g.nodes code run, g.nodes q.mrn node, grown_reach b c code q.mrn g path)

    pub later-IsEdge : (b c : Builder) (u v : String) → IsGrown b c → IsEdge b u v → IsEdge c u v
    later-IsEdge b c u v g (e, node) = (g.edges u v e, g.nodes v node)

    pub later-IsReporting :
        (b c : Builder) (p : Policy) → IsGrown b c → IsReporting b p → IsReporting c p
    later-IsReporting b c p g (node, h) = (
      g.nodes p.mrn node,
      λ q i. (later-IsConnected b c q g (h q i).0, grown_reach b c q.mrn p.mrn g (h q i).1),
    )
