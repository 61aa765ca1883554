-- ===== src/Resolve/Walk/Reached.antt =====
-- The walk builds exactly the nodes that can be reached.
use mathlib.Core.Path.{subst}
use cnspec.Common.{
  ℕ, zero, suc, ◌<◌, Bool, true, false, Bool-cases, Option-cases, String, str_eq, eq_iff, List, [],
  ◌∷◌, Option, some, length, ◌≡◌, ◌↔◌, refl, sym, inl, inr, arith,
}
use mathlib.Core.Logic.{∥∥₁_elim}
use mathlib.Core.Bool.{So-prop}
use cnspec.Common.Dict.{lookup}
use cnspec.Common.Keys.{contains, IsDistinct}
use cnspec.Resolve.{Builder, Node}
use cnspec.Resolve.Edges.{targets}
use cnspec.Resolve.Walk.Paths.{
  IsEdge, Reach, here, step, reach_first, IsReached, left_visit, left_all,
}
use cnspec.Resolve.Walk.Walked.{
  builds, IsBlocked, Walked, Result, IsStarted, Visits, map-Result, walk_all_lem,
}
use cnspec.Resolve.Walk.{
  State, Outcome, done, failed, out_of_fuel, walk_all, walk, walk_from, non_prunables,
}

module _ {J : Type 0} (build : String → Node → J → Option J) (b : Builder) where
  through :
      (id : String) (n : Node) (v : String)
      → lookup id b.nodes ≡ some n
      → IsReached b (targets b id) v
      → IsReached b (id ∷ []) v
  unfolding contains
  through id n v found (x, i, node, path) =
      (id, ground (arith, eq_iff id id), (n, found), reach_first b (i, node) path)

  entered :
      (j m : J) (id : String) (n : Node) (s t : State J)
      → lookup id b.nodes ≡ some n
      → contains id s.visited ≡ false
      → Walked build b j (targets b id) (record { visited = id ∷ s.visited; job = m }) t
      → Walked build b j (id ∷ []) s t
  unfolding contains
  entered j m id n s t found fresh h = record {
    more = λ v i. h.more v (ground arith);
    all = λ e i node. h.more e (ground arith);
    only = λ v i. elim (h.only v i) [
      | inr (x, i', node, path) ↦
          inr (id, ground (arith, eq_iff id id), (n, found), reach_first b (i', node) path)
      | inl before ↦ elim (Bool-cases (str_eq id v)) [
        | inl is ↦ inr (
          id,
          ground (arith, eq_iff id id),
          (n, found),
          subst (Reach b id) ((eq_iff id v).0 is) here,
        )
        | inr other ↦ inl (ground arith)
      ]
    ];
    closed = λ v w i e. elim (h.closed v w i e) [
      | inr to ↦ inr to
      | inl before ↦ elim (Bool-cases (str_eq id v)) [
        | inl is ↦
            let (to, node) = subst (λ x. IsEdge b x w) (sym ((eq_iff id v).0 is)) e in
            inr (h.all w to node)
        | inr other ↦ inl (ground arith)
      ]
    ];
    once = h.once;
    built = h.built;
  }

  found_again :
      (j : J) (id : String) (s : State J)
      → contains id s.visited ≡ true
      → IsStarted build b j s
      → Walked build b j (id ∷ []) s s
  unfolding contains
  found_again j id s old h = record {
    more = λ v m. m;
    all = λ e i node. subst (λ x. contains x s.visited ≡ true) ((eq_iff id e).0 (ground arith)) old;
    only = λ v m. inl m;
    closed = λ u v m e. inl m;
    once = h.once;
    built = h.built;
  }

  walk_lem : (j : J) (fuel : ℕ) → Visits build b j (walk build b fuel) fuel
  unfolding walk builds contains
  walk_lem j zero id n s found room h = omega arith
  walk_lem j (suc fuel) id n s found room h = elim (Bool-cases (contains id s.visited)) [
    | inl old ↦ rw old (found_again j id s old h)
    | inr fresh ↦ elim (Option-cases (build id n s.job)) [
      | inl bad ↦
          rw (fresh, bad)
            (id, n, (id, ground (arith, eq_iff id id), (n, found), here), found, (s.job, bad))
      | inr (m, good) ↦
          rw (fresh, good)
            (let inside : State J = record { visited = id ∷ s.visited; job = m } in
              map-Result build b j (targets b id) (id ∷ []) inside s
                (walk_all build b (walk build b fuel) (targets b id) inside)
                (λ t w. entered j m id n s t found fresh w) (λ v. through id n v found)
                (walk_all_lem build b j (walk build b fuel) fuel (walk_lem j fuel) (targets b id)
                  inside (omega (arith, (left_visit b b.nodes id n s.visited).1 found fresh))
                  (record {
                    once = (fresh, h.once);
                    built = ground (arith, h.built, found, good);
                  })))
    ]
  ]

  complete :
      (j : J) (es : List String) (s t : State J)
      → s.visited ≡ []
      → Walked build b j es s t
      → {e v : String} → contains e t.visited ≡ true
      → Reach b e v
      → contains v t.visited ≡ true
  unfolding contains
  complete j es s t none_yet h i here = i
  complete j es s t none_yet h i (step {v = u} {w} path edge) =
      elim (h.closed u w (complete j es s t none_yet h i path) edge) [
        | inr to ↦ to
        | inl before ↦ absurd (ground arith)
      ]

  -- What the walk from all nodes that cannot be pruned has visited and built.
  abbrev pub IsComplete : (String → Bool) → J → State J → Type 0
  IsComplete is_space j t =
      ((v : String)
        → (contains v t.visited ≡ true) ↔ ∥ IsReached b (non_prunables is_space b.nodes) v ∥₁)
      × IsDistinct t.visited
      × (builds build b t.visited j ≡ some t.job)

  abbrev pub Ended : (String → Bool) → J → Outcome J → Type 0
  Ended is_space j (done t) = IsComplete is_space j t
  Ended is_space j failed = IsBlocked build b (non_prunables is_space b.nodes)
  Ended is_space j out_of_fuel = ⊥

  ended_lem :
      (is_space : String → Bool) (j : J) (s : State J)
      → s.visited ≡ []
      → (o : Outcome J) → Result build b j (non_prunables is_space b.nodes) s o
      → Ended is_space j o
  unfolding contains
  ended_lem is_space j s none_yet (done t) h =
      let es = non_prunables is_space b.nodes in
      (
        λ v. (
          λ i. elim (h.only v i) [ inl before ↦ absurd (ground arith) | inr r ↦ ∣ r ∣₁ ],
          λ r.
              ∥∥₁_elim r (So-prop _)
                (λ (e, i, node, path). complete j es s t none_yet h (h.all e i node) path),
        ),
        h.once,
        h.built,
      )
  ended_lem is_space j s none_yet failed h = h
  ended_lem is_space j s none_yet out_of_fuel h = h

  -- With more fuel than nodes the walk ends. If it succeeds, it has visited exactly the nodes that a
  -- path leads to from one that cannot be pruned, each once, and the policy is what building
  -- them in this order makes. It fails only if such a node does not build.
  pub walk_reaches :
      (is_space : String → Bool) (fuel : ℕ) (j : J)
      → length b.nodes < fuel
      → Ended is_space j (walk_from build b is_space fuel j)
  unfolding walk_from builds
  walk_reaches is_space fuel j room =
      let s : State J = record { visited = []; job = j } in
      ended_lem is_space j s refl (walk_from build b is_space fuel j) (
        walk_all_lem build b j (walk build b fuel) fuel (walk_lem j fuel)
          (non_prunables is_space b.nodes) s (omega (arith, left_all b b.nodes))
          (record { once = tt; built = refl }))
