-- ===== src/Resolve/Queries/Kept.antt =====
-- A query that is added is connected to the code that runs for it.
use cnspec.Common.{
  str_eq, eq_iff, ℕ, zero, suc, ◌<◌, Bool, true, false, Bool-cases, Option-cases, List-cases,
  String, List, [], ◌∷◌, All, Option, none, some, ◌≡◌, refl, inl, inr, arith,
}
use cnspec.Common.Dict.{lookup}
use cnspec.Common.Sums.{All-imp}
use cnspec.Resolve.{Mquery, Builder, Settings}
use cnspec.Resolve.Groups.{can_run, action_of}
use cnspec.Resolve.Queries.{first_variant, finish_variant, add_leaf, add_disabled, add_query}
use cnspec.Resolve.Queries.Sound.{IsSound}
use cnspec.Resolve.Queries.Added.{
  unrun, leaf, IsSelectable, variant, Added, IsCoded, add_variant-Added, add_leaf-Added,
  add_disabled-Added,
}
use cnspec.Common.Keys.{contains}
use mathlib.Core.Path.{subst}

module _ (s : Settings) (is_code : String → Bool) where
  abbrev Found : List String → Builder → Builder × Option (Mquery × String) → Type 0
  Found vs b (c, none) =
      (c ≡ b)
      × ((v : String) (w : Mquery)
          → contains v vs ≡ true
          → lookup v s.queries ≡ some w
          → IsSelectable s w
          → ⊥)
  Found vs b (c, some (w, code)) =
      Added is_code s w b (c, some code)
      × ((v : String) × (contains v vs ≡ true) × (lookup v s.queries ≡ some w))

  abbrev Visits : (Mquery → Builder → Option (Builder × Option String)) → (String → Type 0) → Type 0
  Visits visit P =
      (v : String) (q : Mquery) (b : Builder)
      → lookup v s.queries ≡ some q
      → P v
      → IsSound is_code b
      → (r : Builder × Option String) × (visit q b ≡ some r) × Added is_code s q b r

  later-Found :
      (v : String) (vs : List String) (b : Builder) (o : Builder × Option (Mquery × String))
      → ((w : Mquery) → lookup v s.queries ≡ some w → IsSelectable s w → ⊥)
      → Found vs b o
      → Found (v ∷ vs) b o
  unfolding contains
  later-Found v vs b (c, none) h (same, hopeless) = (
    same,
    λ x w i e good. elim (Bool-cases (str_eq v x)) [
      | inl is ↦ h w (ground (arith, e, eq_iff v x)) good
      | inr other ↦ hopeless x w (ground arith) e good
    ],
  )
  later-Found v vs b (c, some (w, code)) h (added, (x, i, e)) = (added, (x, ground arith, e))

  next_variant :
      (visit : Mquery → Builder → Option (Builder × Option String)) (v : String) (vs : List String)
      (q : Mquery) (b : Builder)
      → lookup v s.queries ≡ some q
      → ((r : Builder × Option (Mquery × String)) × (first_variant s visit vs b ≡ some r)
          × Found vs b r)
      → (r : Builder × Option String) → visit q b ≡ some r
      → Added is_code s q b r
      → (o : Builder × Option (Mquery × String)) × (first_variant s visit (v ∷ vs) b ≡ some o)
        × Found (v ∷ vs) b o
  unfolding first_variant contains
  next_variant visit v vs q b found rest (c, some code) e added = (
    (c, some (q, code)),
    ground (arith, e, found),
    (added, (v, ground (arith, eq_iff v v), found)),
  )
  next_variant visit v vs q b found (r, e', f) (c, none) e (same, hopeless) = (
    r,
    ground (arith, e, found, same, e'),
    later-Found v vs b r
        (λ w e'' good. hopeless (subst (IsSelectable s) (ground (arith, found, e'')) good)) f,
  )

  first_variant-Found :
      (visit : Mquery → Builder → Option (Builder × Option String)) (P : String → Type 0)
      → Visits visit P
      → (vs : List String) (b : Builder) → All P vs
      → IsSound is_code b
      → (r : Builder × Option (Mquery × String)) × (first_variant s visit vs b ≡ some r)
        × Found vs b r
  unfolding first_variant contains
  first_variant-Found visit P visits [] b low h = ((b, none), refl, (refl, λ v w i e good. cc))
  first_variant-Found visit P visits (v ∷ vs) b (l, low) h =
      let (r, e, f) = first_variant-Found visit P visits vs b low h in
      elim (Option-cases (lookup v s.queries)) [
        | inl absent ↦ (r, ground arith, later-Found v vs b r (λ w found good. cc) f)
        | inr (q, found) ↦
            let (o, e', added) = visits v q b found l h in
            next_variant visit v vs q b found (r, e, f) o e' added
      ]

  no_variant :
      (q : Mquery)
      → can_run (action_of s q.mrn) ≡ true
      → (q.variants ≡ [] → ⊥)
      → ((v : String) (w : Mquery)
          → contains v q.variants ≡ true
          → lookup v s.queries ≡ some w
          → IsSelectable s w
          → ⊥)
      → IsSelectable s q
      → ⊥
  no_variant q runs some_left hopeless (unrun e f) = cc
  no_variant q runs some_left hopeless (leaf e none_left f) = some_left none_left
  no_variant q runs some_left hopeless (variant v w e i found good) = hopeless v w i found good

  finish_variant-Added :
      (q : Mquery) (b : Builder)
      → can_run (action_of s q.mrn) ≡ true
      → (q.variants ≡ [] → ⊥)
      → is_code q.mrn ≡ false
      → (r : Builder × Option (Mquery × String)) → Found q.variants b r
      → Added is_code s q b (finish_variant s q r)
  unfolding finish_variant
  finish_variant-Added q b runs some_left plain (c, none) (same, hopeless) =
      (same, no_variant q runs some_left hopeless)
  finish_variant-Added q b runs some_left plain (c, some (w, code)) (added, (v, i, found)) =
      add_variant-Added s is_code w q code b c (variant v w runs i found added.0) plain added

  -- Code ids are told from the MRNs of queries, and the rank falls from a query to its variants.
  pub record IsSorted (rank : String → ℕ) : Type 0 where
    pub coded : (k : String) (q : Mquery) → lookup k s.queries ≡ some q → IsCoded s is_code q
    pub disabled : is_code s.disabled_query.code_id ≡ true
    pub falls :
        (k : String) (q : Mquery)
        → lookup k s.queries ≡ some q
        → All (λ v. rank v < rank k) q.variants

  with_variants :
      (visit : Mquery → Builder → Option (Builder × Option String)) (P : String → Type 0)
      → Visits visit P
      → (q : Mquery) (b : Builder) → All P q.variants
      → can_run (action_of s q.mrn) ≡ true
      → (q.variants ≡ [] → ⊥)
      → is_code q.mrn ≡ false
      → IsSound is_code b
      → (r : Builder × Option String) × (elim (first_variant s visit q.variants b) [
        | none ↦ none
        | some o ↦ some (finish_variant s q o)
      ]
          ≡ some r)
        × Added is_code s q b r
  with_variants visit P visits q b low runs some_left plain h =
      let (o, e, f) = first_variant-Found visit P visits q.variants b low h in
      (finish_variant s q o, ground (arith, e), finish_variant-Added q b runs some_left plain o f)

  query_lem :
      (fuel : ℕ) (P : String → Type 0)
      → Visits (add_query s fuel) P
      → (q : Mquery) (b : Builder) → All P q.variants
      → is_code s.disabled_query.code_id ≡ true
      → IsCoded s is_code q
      → IsSound is_code b
      → (r : Builder × Option String) × (add_query s (suc fuel) q b ≡ some r)
        × Added is_code s q b r
  unfolding add_query
  query_lem fuel P visits q b low off coded h = elim (Bool-cases (can_run (action_of s q.mrn))) [
    | inr stopped ↦
        (add_disabled s q b, ground arith, add_disabled-Added s is_code q b stopped off coded h)
    | inl runs ↦ elim (List-cases q.variants) [
      | inl none_left ↦ (
        add_leaf s q b,
        ground (arith, none_left),
        add_leaf-Added s is_code q b runs none_left coded h,
      )
      | inr (v, vs, some_variants) ↦
          let (r, e, added) =
            with_variants (add_query s fuel) P visits q b low runs (λ e. cc) coded.1 h in
          (r, ground (arith, some_variants, e), added)
    ]
  ]

  -- In a sound graph, for a bundle whose code ids are told from its MRNs and whose queries have a
  -- rank that falls to their variants, a query whose variants have ranks below the fuel is added
  -- exactly if the asset supports it or one of its variants, variants of variants included; this
  -- does not run out of fuel, and if the query is not added, the graph stays as it was. If it is
  -- added, its node can be reached from the node that runs the code that is returned, no node or
  -- edge is lost, and the graph is sound again: its two maps of edges agree.
  pub add_query_kept :
      (rank : String → ℕ)
      → IsSorted rank
      → (fuel : ℕ) (q : Mquery) (b : Builder) → All (λ v. rank v < fuel) q.variants
      → IsCoded s is_code q
      → IsSound is_code b
      → (r : Builder × Option String) × (add_query s (suc fuel) q b ≡ some r)
        × Added is_code s q b r
  add_query_kept rank sorted zero q b low coded h =
      query_lem zero (λ v. rank v < 0) (λ v p c found l k. absurd (omega arith)) q b low
        sorted.disabled coded h
  add_query_kept rank sorted (suc fuel) q b low coded h =
      query_lem (suc fuel) (λ v. rank v < suc fuel)
        (λ v p c found l k.
          add_query_kept rank sorted fuel p c
            (All-imp p.variants (λ w less. omega arith) (sorted.falls v p found))
            (sorted.coded v p found) k)
        q b low sorted.disabled coded h
