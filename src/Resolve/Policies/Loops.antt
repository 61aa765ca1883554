-- ===== src/Resolve/Policies/Loops.antt =====
-- The loops of `addPolicy` over the checks and over the queries of a group.
use cnspec.Common.{
  none, Option-cases, refl, inr, [], inl, ap, Bool-cases, sym, arith, Bool, false, String, List,
  ◌∷◌, Option, some, ◌≡◌, ◌∙◌,
}
use mathlib.Core.Path.{subst}
use cnspec.Common.Dict.{lookup}
use cnspec.Impact.{Impact}
use cnspec.Resolve.{Mquery, GroupType, Builder, Settings}
use cnspec.Resolve.Groups.{is_override}
use cnspec.Resolve.Policies.{add_edge, add_group_queries}
use cnspec.Resolve.Policies.Included.{
  later-IsEdge, later-IsConnected, Member, first, later, IsConnected,
}
use cnspec.Resolve.Queries.Sound.{Kept-trans, edge-Kept, Kept-self, IsSound, Kept}
use cnspec.Resolve.Queries.Added.{IsSelectable, Added}
use cnspec.Resolve.Walk.Paths.{IsNode, IsEdge}
use cnspec.Resolve.Edges.Grown.{add_edge-IsEdge}

module _ (s : Settings) (is_code : String → Bool) where
  abbrev pub Asks : (Mquery → Builder → Option (Builder × Option String)) → Type 0
  Asks ask =
      (k : String) (q : Mquery) (b : Builder)
      → lookup k s.queries ≡ some q
      → IsSound is_code b
      → (r : Builder × Option String) × (ask q b ≡ some r) × Added is_code s q b r

  -- The queries of a group in the graph.
  abbrev pub AreConnected : GroupType → String → List Mquery → Builder → Type 0
  AreConnected type mrn cs c =
      (x q : Mquery)
      → Member x cs
      → is_override x.action type ≡ false
      → lookup x.mrn s.queries ≡ some q
      → IsSelectable s q
      → IsConnected s is_code c q × IsEdge c q.mrn mrn

  module _ (ask : Mquery → Builder → Option (Builder × Option String))
      (impact : String → Option Impact) (type : GroupType) (mrn : String) where
    abbrev pub Connects : List Mquery → Builder → Type 0
    Connects cs b =
        (c : Builder) × (add_group_queries s ask impact type mrn cs b ≡ some c)
        × Kept is_code b c
        × AreConnected type mrn cs c

    passed_over :
        (x : Mquery) (cs : List Mquery) (b : Builder)
        → add_group_queries s ask impact type mrn (x ∷ cs) b
          ≡ add_group_queries s ask impact type mrn cs b
        → ((q : Mquery)
            → is_override x.action type ≡ false
            → lookup x.mrn s.queries ≡ some q
            → IsSelectable s q
            → ⊥)
        → Connects cs b
        → Connects (x ∷ cs) b
    passed_over x cs b same none_here (c, e, k, h) =
        (c, same ∙ e, k, λ y q m o found good. go y q m o found good)
      where
        go : AreConnected type mrn (x ∷ cs) c
        go y q first o found good = absurd (none_here q o found good)
        go y q (later m) o found good = h y q m o found good

    -- The rest of the loop runs on a graph that has the query and, if it is selectable, the edge.
    taken :
        (x q : Mquery) (cs : List Mquery) (b d : Builder)
        → lookup x.mrn s.queries ≡ some q
        → add_group_queries s ask impact type mrn (x ∷ cs) b
          ≡ add_group_queries s ask impact type mrn cs d
        → Kept is_code b d
        → (IsSelectable s q → IsConnected s is_code d q × IsEdge d q.mrn mrn)
        → Connects cs d
        → Connects (x ∷ cs) b
    taken x q cs b d at same k done_here (c, e, l, h) =
        (c, same ∙ e, Kept-trans is_code b d c k l, λ y w m o found good. go y w m o found good)
      where
        go : AreConnected type mrn (x ∷ cs) c
        go y w first o found good =
            let same_query : q ≡ w = ground (arith, at, found) in
            let (connected, edge) = done_here (subst (IsSelectable s) (sym same_query) good) in
            (
              subst (IsConnected s is_code c) same_query
                  (later-IsConnected s is_code d c q l.grown connected),
              subst (λ u. IsEdge c u mrn) (ap (λ u. u.mrn) same_query)
                  (later-IsEdge s is_code d c q.mrn mrn l.grown edge),
            )
        go y w (later m) o found good = h y w m o found good

    asked :
        (x q : Mquery) (cs : List Mquery) (b : Builder)
        → is_override x.action type ≡ false
        → lookup x.mrn s.queries ≡ some q
        → IsNode b mrn
        → IsSound is_code b
        → (r : Builder × Option String) → ask q b ≡ some r
        → Added is_code s q b r
        → ((d : Builder) → IsNode d mrn → IsSound is_code d → Connects cs d)
        → Connects (x ∷ cs) b
    unfolding add_group_queries
    asked x q cs b plain at node sound (d, none) e same rest =
        taken x q cs b d at (ground (arith, plain, at, e))
          (subst (Kept is_code b) (sym same.0) (Kept-self is_code b sound))
          (λ good. absurd (same.1 good))
          (rest d (subst (λ w. IsNode w mrn) (sym same.0) node)
            (subst (IsSound is_code) (sym same.0) sound))
    asked x q cs b plain at node sound (d, some code) e h rest =
        let k = h.1 in
        let l = edge-Kept is_code q.mrn mrn (impact q.mrn) d k.sound in
        let f = add_edge q.mrn mrn (impact q.mrn) d in
        let top : IsNode f mrn = l.grown.nodes mrn (k.grown.nodes mrn node) in
        taken x q cs b f at (ground (arith, plain, at, e)) (Kept-trans is_code b d f k l)
          (λ good. (
            later-IsConnected s is_code d f q l.grown (code, h.2, h.3, h.4, h.5),
            (add_edge-IsEdge q.mrn mrn (impact q.mrn) d, top),
          ))
          (rest f top l.sound)

    pub add_group_queries-Kept :
        Asks ask
        → (cs : List Mquery) (b : Builder) → IsNode b mrn
        → IsSound is_code b
        → Connects cs b
    unfolding add_group_queries
    add_group_queries-Kept asks [] b node sound =
        (b, refl, Kept-self is_code b sound, λ x q m o found good. go x q m)
      where
        go : (x q : Mquery) → Member x [] → IsConnected s is_code b q × IsEdge b q.mrn mrn
        go x q m = elim m [ ]
    add_group_queries-Kept asks (x ∷ cs) b node sound =
        elim (Bool-cases (is_override x.action type)) [
          | inl over ↦
              passed_over x cs b (ground (arith, over)) (λ q o found good. ground (arith, o, over))
                (add_group_queries-Kept asks cs b node sound)
          | inr plain ↦ elim (Option-cases (lookup x.mrn s.queries)) [
            | inl absent ↦
                passed_over x cs b (ground (arith, plain, absent))
                  (λ q o found good. ground (arith, absent, found))
                  (add_group_queries-Kept asks cs b node sound)
            | inr (q, at) ↦
                let (r, e, added) = asks x.mrn q b at sound in
                asked x q cs b plain at node sound r e added (add_group_queries-Kept asks cs)
          ]
        ]
