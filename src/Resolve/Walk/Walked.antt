-- ===== src/Resolve/Walk/Walked.antt =====
-- What walking from several nodes does, if visiting each of them does it.
use mathlib.Core.Path.{subst}
use cnspec.Common.{
  ℕ, ◌<◌, true, Bool-cases, Option-cases, String, str_eq, eq_iff, List, [], ◌∷◌, Option, none, some,
  ◌≡◌, ◌⊎◌, sym, inl, inr, arith,
}
use cnspec.Common.Dict.{lookup}
use cnspec.Common.Keys.{contains, IsDistinct}
use cnspec.Resolve.{Builder, Node}
use cnspec.Resolve.Walk.Paths.{IsNode, IsEdge, IsReached, left, left_le}
use cnspec.Resolve.Walk.{State, Outcome, done, failed, out_of_fuel, walk_all}

module _ {J : Type 0} (build : String → Node → J → Option J) (b : Builder) where
  -- Building the nodes of the list, the last one first.
  unfoldable pub builds : List String → J → Option J
  builds [] j = some j
  builds (v ∷ vs) j = elim (builds vs j) [
    | none ↦ none
    | some k ↦ elim (lookup v b.nodes) [ none ↦ none | some n ↦ build v n k ]
  ]

  -- What walking from the ids does to the state.
  pub record Walked (j : J) (es : List String) (s t : State J) : Type 0 where
    pub more : (v : String) → contains v s.visited ≡ true → contains v t.visited ≡ true
    pub all : (e : String) → contains e es ≡ true → IsNode b e → contains e t.visited ≡ true
    pub only :
        (v : String)
        → contains v t.visited ≡ true
        → (contains v s.visited ≡ true) ⊎ IsReached b es v
    pub closed :
        (u v : String)
        → contains u t.visited ≡ true
        → IsEdge b u v
        → (contains u s.visited ≡ true) ⊎ (contains v t.visited ≡ true)
    pub once : IsDistinct t.visited
    pub built : builds t.visited j ≡ some t.job

  -- Some node that is reached from the ids does not build.
  abbrev pub IsBlocked : List String → Type 0
  IsBlocked es =
      (v : String) × (n : Node) × IsReached b es v
      × (lookup v b.nodes ≡ some n)
      × ((k : J) × (build v n k ≡ none))

  abbrev pub Result : J → List String → State J → Outcome J → Type 0
  Result j es s (done t) = Walked j es s t
  Result j es s failed = IsBlocked es
  Result j es s out_of_fuel = ⊥

  pub record IsStarted (j : J) (s : State J) : Type 0 where
    pub once : IsDistinct s.visited
    pub built : builds s.visited j ≡ some s.job

  abbrev pub Visits : J → (String → Node → State J → Outcome J) → ℕ → Type 0
  Visits j visit k =
      (id : String) (n : Node) (s : State J)
      → lookup id b.nodes ≡ some n
      → left b b.nodes s.visited < k
      → IsStarted j s
      → Result j (id ∷ []) s (visit id n s)

  unmoved : (j : J) (s : State J) → IsStarted j s → Walked j [] s s
  unfolding contains
  unmoved j s h = record {
    more = λ v m. m;
    all = λ e m. cc;
    only = λ v m. inl m;
    closed = λ u v m e. inl m;
    once = h.once;
    built = h.built;
  }

  skipped :
      (j : J) (e : String) (es : List String) (s t : State J)
      → lookup e b.nodes ≡ none
      → Walked j es s t
      → Walked j (e ∷ es) s t
  unfolding contains
  skipped j e es s t absent h = record {
    more = h.more;
    all = λ x m (n, found). elim (Bool-cases (str_eq e x)) [
      | inl is ↦ absurd (ground (arith, eq_iff e x))
      | inr other ↦ h.all x (ground arith) (n, found)
    ];
    only = λ v m. elim (h.only v m) [
      | inl old ↦ inl old
      | inr (x, i, node, path) ↦ inr (x, ground arith, node, path)
    ];
    closed = h.closed;
    once = h.once;
    built = h.built;
  }

  joined :
      (j : J) (e : String) (es : List String) (s t u : State J)
      → Walked j (e ∷ []) s t
      → Walked j es t u
      → Walked j (e ∷ es) s u
  unfolding contains
  joined j e es s t u h k = record {
    more = λ v m. k.more v (h.more v m);
    all = λ x m node. elim (Bool-cases (str_eq e x)) [
      | inl is ↦ k.more x (h.all x (ground arith) node)
      | inr other ↦ k.all x (ground arith) node
    ];
    only = λ v m. elim (k.only v m) [
      | inl before ↦ elim (h.only v before) [
        | inl old ↦ inl old
        | inr (x, i, node, path) ↦ inr (x, ground arith, node, path)
      ]
      | inr (x, i, node, path) ↦ inr (x, ground arith, node, path)
    ];
    closed = λ v w m e. elim (k.closed v w m e) [
      | inr to ↦ inr to
      | inl before ↦ elim (h.closed v w before e) [ inl old ↦ inl old | inr to ↦ inr (k.more w to) ]
    ];
    once = k.once;
    built = k.built;
  }

  pub map-Result :
      (j : J) (es fs : List String) (s s' : State J) (o : Outcome J)
      → ((t : State J) → Walked j es s t → Walked j fs s' t)
      → ((v : String) → IsReached b es v → IsReached b fs v)
      → Result j es s o
      → Result j fs s' o
  map-Result j es fs s s' (done t) f g h = f t h
  map-Result j es fs s s' failed f g (v, n, r, h, k) = (v, n, g v r, h, k)
  map-Result j es fs s s' out_of_fuel f g h = h

  later : (e : String) (es : List String) (v : String) → IsReached b es v → IsReached b (e ∷ es) v
  unfolding contains
  later e es v (x, i, node, path) = (x, ground arith, node, path)

  sooner :
      (e : String) (es : List String) (v : String) → IsReached b (e ∷ []) v → IsReached b (e ∷ es) v
  unfolding contains
  sooner e es v (x, i, node, path) = (x, ground arith, node, path)

  chained :
      (j : J) (visit : String → Node → State J → Outcome J) (e : String) (es : List String)
      (s : State J)
      → ((t : State J) → Walked j (e ∷ []) s t → Result j es t (walk_all build b visit es t))
      → (o : Outcome J) → Result j (e ∷ []) s o
      → Result j (e ∷ es) s (elim o as (λ x. Outcome J) [
        | done t ↦ walk_all build b visit es t
        | failed ↦ failed
        | out_of_fuel ↦ out_of_fuel
      ])
  chained j visit e es s rest (done t) h =
      map-Result j es (e ∷ es) t s (walk_all build b visit es t) (λ u k. joined j e es s t u h k)
        (later e es) (rest t h)
  chained j visit e es s rest failed (v, n, r, h, k) = (v, n, sooner e es v r, h, k)
  chained j visit e es s rest out_of_fuel h = h

  pub walk_all_lem :
      (j : J) (visit : String → Node → State J → Outcome J) (k : ℕ)
      → Visits j visit k
      → (es : List String) (s : State J) → left b b.nodes s.visited < k
      → IsStarted j s
      → Result j es s (walk_all build b visit es s)
  unfolding walk_all
  walk_all_lem j visit k visits [] s room h = unmoved j s h
  walk_all_lem j visit k visits (e ∷ es) s room h = elim (Option-cases (lookup e b.nodes)) [
    | inl absent ↦
        let same : walk_all build b visit (e ∷ es) s ≡ walk_all build b visit es s = ground arith in
        subst (Result j (e ∷ es) s) (sym same) (
          map-Result j es (e ∷ es) s s (walk_all build b visit es s)
            (λ t w. skipped j e es s t absent w) (later e es)
            (walk_all_lem j visit k visits es s room h))
    | inr (n, found) ↦
        let same : walk_all build b visit (e ∷ es) s ≡ elim (visit e n s) as (λ x. Outcome J) [
          | done t ↦ walk_all build b visit es t
          | failed ↦ failed
          | out_of_fuel ↦ out_of_fuel
        ] =
          ground arith in
        subst (Result j (e ∷ es) s) (sym same) (
          chained j visit e es s
            (λ t w.
              walk_all_lem j visit k visits es t
                (omega (arith, left_le b b.nodes s.visited t.visited w.more))
                (record { once = w.once; built = w.built }))
            (visit e n s) (visits e n s found room h))
  ]
