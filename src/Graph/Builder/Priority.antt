-- ===== src/Graph/Builder/Priority.antt =====
-- The priorities that `Build` assigns are the heights of the nodes.
use cnspec.Common.{
  str_eq, pos, ℤ, ℕ, zero, suc, ◌<◌, String, List, [], ◌∷◌, some, All, ltb, if◌then◌else◌, ◌≡◌,
  refl, sym, arith, ap, ◌∙◌, inl, inr, Option-cases, eq_iff,
}
use cnspec.Common.Dict.{lookup, update, lookup-update, update-cases}
use cnspec.Common.Sums.{All-imp}
use cnspec.Graph.{Layout, targets}
use cnspec.Graph.Drain.{IsAcyclic}
use cnspec.Graph.Builder.{
  min_int, priority_map, collection_finisher_id, prioritize_all, as_ints, Priorities, deepest,
  assign, prioritize_node,
}
use cnspec.Graph.Builder.Height.{height_falls, greatest, height, height_lem}

-- Every entry is kept.
abbrev Extends : Priorities → Priorities → Type 0
Extends pm pm' = (n : String) (d : ℕ) → lookup n pm ≡ some d → lookup n pm' ≡ some d

module _ (g : Layout) (rank : String → ℕ) (acyclic : IsAcyclic g rank) where
  abbrev depth : String → ℕ
  depth n = height g rank acyclic n

  abbrev IsCorrect : Priorities → Type 0
  IsCorrect pm = (n : String) (d : ℕ) → lookup n pm ≡ some d → depth n ≡ d

  abbrev Visited : ℕ → Priorities → String → Type 0
  Visited f pm n =
      (pm' : Priorities) × (prioritize_node g f pm n ≡ some (pm', depth n))
      × IsCorrect pm'
      × Extends pm pm'
      × (lookup n pm' ≡ some (depth n))

  deepest_lem :
      (f : ℕ) (vs : List String) (pm : Priorities) (m : ℕ)
      → ((pm : Priorities) (n : String) → rank n < f → IsCorrect pm → Visited f pm n)
      → All (λ v. rank v < f) vs
      → IsCorrect pm
      → (pm' : Priorities) × (deepest (prioritize_node g f) vs pm m
          ≡ some (pm', greatest depth vs m))
        × IsCorrect pm'
        × Extends pm pm'
  unfolding deepest greatest
  deepest_lem f [] pm m visit low c = (pm, refl, c, λ n d e. e)
  deepest_lem f (v ∷ vs) pm m visit (l, low) c =
      let (pm', e, c', x, _) = visit pm v l c in
      let (pm'', e', c'', x') =
        deepest_lem f vs pm' (if ltb m (depth v) then depth v else m) visit low c' in
      (pm'', ground (arith, e, e'), c'', λ n d old. x' n d (x n d old))

  assign-IsCorrect :
      (n : String) (pm : Priorities) → IsCorrect pm → IsCorrect (update n (depth n) pm)
  assign-IsCorrect n pm c k d e = elim (update-cases k n d (depth n) pm e) [
    | inl (same, is_d) ↦ sym (ap depth same) ∙ is_d
    | inr (_, old) ↦ c k d old
  ]

  prioritize_node_lem :
      (f : ℕ) (pm : Priorities) (n : String) → rank n < f → IsCorrect pm → Visited f pm n
  unfolding prioritize_node assign
  prioritize_node_lem zero pm n low c = absurd (omega arith)
  prioritize_node_lem (suc f) pm n low c = elim (Option-cases (lookup n pm)) [
    | inr (d, known) ↦
        (pm, ground (arith, c n d known), c, λ k e old. old, known ∙ ap some (sym (c n d known)))
    | inl fresh ↦
        let (pm', e, c', x) =
          deepest_lem f (targets g n) pm 0 (prioritize_node_lem f)
            (All-imp (targets g n) (λ v h. omega arith) (acyclic n)) c in
        (
          update n (depth n) pm',
          ground (arith, e, height_lem g rank acyclic n),
          assign-IsCorrect n pm' c',
          λ k d old. ground (arith, lookup-update k n (depth n) pm', x k d old, eq_iff n k),
          ground (arith, lookup-update n n (depth n) pm', eq_iff n n),
        )
  ]

  prioritize_all_lem :
      (f : ℕ) (ns : List String) (pm : Priorities)
      → All (λ n. rank n < f) ns
      → IsCorrect pm
      → (pm' : Priorities) × (prioritize_all g f ns pm ≡ some pm')
        × Extends pm pm'
        × All (λ n. lookup n pm' ≡ some (depth n)) ns
  unfolding prioritize_all
  prioritize_all_lem f [] pm low c = (pm, refl, λ n d e. e, tt)
  prioritize_all_lem f (n ∷ ns) pm (l, low) c =
      let (pm', e, c', x, found) = prioritize_node_lem f pm n l c in
      let (pm'', e', x', all) = prioritize_all_lem f ns pm' low c' in
      (pm'', ground (arith, e, e'), λ k d old. x' k d (x k d old), (x' n (depth n) found, all))

  lookup-as_ints :
      (n : String) (d : ℕ) (pm : Priorities)
      → lookup n pm ≡ some d
      → lookup n (as_ints pm) ≡ some (pos d)
  unfolding lookup as_ints
  lookup-as_ints n d [] e = cc
  lookup-as_ints n d ((k, p) ∷ pm) e = ground (arith, lookup-as_ints n d pm)

  lookup-finished :
      (n : String) (d : ℕ) (pm : Priorities)
      → lookup n pm ≡ some d
      → lookup n (update collection_finisher_id min_int (as_ints pm))
        ≡ some (if str_eq collection_finisher_id n then min_int else pos d)
  lookup-finished n d pm e =
      ground (
        arith,
        lookup-as_ints n d pm e,
        lookup-update n collection_finisher_id min_int (as_ints pm),
      )

  -- For a graph without cycles, and fuel above every rank, `Build` gives every node the number of
  -- nodes on a longest path from it, and the finisher the least priority. The numbers do not depend on
  -- the order of the nodes; each is one more than the greatest of those the node sends to, so they
  -- fall along every edge.
  pub build_priorities :
      (fuel : ℕ) (ns : List String)
      → All (λ n. rank n < fuel) ns
      → (pm : List (String × ℤ)) × (priority_map fuel g ns ≡ some pm)
        × All
            (λ n.
              lookup n pm
              ≡ some (if str_eq collection_finisher_id n then min_int else pos (depth n)))
            ns
        × ((n : String) → depth n ≡ suc (greatest depth (targets g n) 0))
        × ((n : String) → All (λ v. depth v < depth n) (targets g n))
  unfolding priority_map lookup
  build_priorities fuel ns low =
      let (pm, e, _, all) = prioritize_all_lem fuel ns [] low (λ n d e. cc) in
      (
        update collection_finisher_id min_int (as_ints pm),
        ground (arith, e),
        All-imp ns (λ n found. lookup-finished n (depth n) pm found) all,
        height_lem g rank acyclic,
        height_falls g rank acyclic,
      )
