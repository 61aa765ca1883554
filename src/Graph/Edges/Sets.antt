-- ===== src/Graph/Edges/Sets.antt =====
-- The edges do not depend on the order in which they are added.
use mathlib.Core.List.{Permᴰ}
use mathlib.Core.Path.{subst, fun_ext, ap₂}
use cnspec.Common.{
  Bool, true, false, Bool-cases, ◌||◌, ◌&&◌, List, [], ◌∷◌, ◌≡◌, refl, sym, ap, ◌∙◌, inl, inr, ◌⊎◌,
  All, arith,
}
use cnspec.Common.Sums.{All-imp}
use cnspec.Graph.Edges.{insert_sorted, add_edge, add_edges}

-- What Go documents of `==` and `<` on strings.
pub record IsOrder {NodeId : Type 0} (same less : NodeId → NodeId → Bool) : Type 0 where
  pub same_refl : (a : NodeId) → same a a ≡ true
  pub same_eq : (a b : NodeId) → same a b ≡ true → a ≡ b
  pub irreflexive : (a : NodeId) → less a a ≡ false
  pub total : (a b : NodeId) → less a b ≡ false → same a b ≡ false → less b a ≡ true
  pub trans : (a b c : NodeId) → less a b ≡ true → less b c ≡ true → less a c ≡ true

module _ {NodeId : Type 0} (same : NodeId → NodeId → Bool) where
  -- What a list of edges says of the targets of a node.
  unfoldable pub has_edge : NodeId → NodeId → List (NodeId × NodeId) → Bool
  has_edge n v [] = false
  has_edge n v ((from, to) ∷ es) = (same from n && same to v) || has_edge n v es

  unfoldable pub has : NodeId → List NodeId → Bool
  has v [] = false
  has v (x ∷ ss) = same x v || has v ss

module _ {NodeId : Type 0} (less : NodeId → NodeId → Bool) where
  -- No id stands twice, and each is less than the ones after it.
  abbrev pub IsAscending : List NodeId → Type 0
  IsAscending [] = Unit
  IsAscending (x ∷ ss) = All (λ y. less x y ≡ true) ss × IsAscending ss

module _ {NodeId : Type 0} (same less : NodeId → NodeId → Bool) (order : IsOrder same less) where
  asym : (a b : NodeId) → less a b ≡ true → less b a ≡ false
  asym a b e = ground (arith, order.trans a b a e, order.irreflexive a)

  unlike : (a b : NodeId) → same a b ≡ true → (less a b ≡ false) × (less b a ≡ false)
  unlike a b e =
      let is = order.same_eq a b e in
      (
        subst (λ x. less a x ≡ false) is (order.irreflexive a),
        subst (λ x. less x a ≡ false) is (order.irreflexive a),
      )

  differ : (a b : NodeId) → less a b ≡ true → (same a b ≡ false) × (same b a ≡ false)
  differ a b e = (ground (arith, unlike a b), ground (arith, unlike b a))

  order_cases : (a b : NodeId) → (less a b ≡ true) ⊎ (a ≡ b) ⊎ (less b a ≡ true)
  order_cases a b = elim (Bool-cases (less a b)) [
    | inl e ↦ inl e
    | inr e ↦ elim (Bool-cases (same a b)) [
      | inl f ↦ inr (inl (order.same_eq a b f))
      | inr f ↦ inr (inr (order.total a b e f))
    ]
  ]

  insert_lt :
      (ss : List NodeId) (s t : NodeId)
      → less s t ≡ true
      → insert_sorted same less (insert_sorted same less ss s) t
        ≡ insert_sorted same less (insert_sorted same less ss t) s
  unfolding insert_sorted
  insert_lt [] s t lt = let (d, d') = differ s t lt in ground (arith, asym s t lt, d, d')
  insert_lt (x ∷ ss) s t lt = elim (order_cases x s) [
    | inl x_s ↦ ground (arith, order.trans x s t x_s lt, insert_lt ss s t lt)
    | inr (inl is) ↦
        subst
          (λ y.
            insert_sorted same less (insert_sorted same less (y ∷ ss) s) t
            ≡ insert_sorted same less (insert_sorted same less (y ∷ ss) t) s)
          (sym is) (ground (arith, order.same_refl s, order.irreflexive s))
    | inr (inr s_x) ↦
        let (d, d') = differ s t lt in
        let (c, c') = differ s x s_x in ground (arith, asym s t lt, asym s x s_x, d, d', c, c')
  ]

  insert_comm :
      (ss : List NodeId) (s t : NodeId)
      → insert_sorted same less (insert_sorted same less ss s) t
        ≡ insert_sorted same less (insert_sorted same less ss t) s
  insert_comm ss s t = elim (order_cases s t) [
    | inl lt ↦ insert_lt ss s t lt
    | inr (inl is) ↦
        subst
          (λ y.
            insert_sorted same less (insert_sorted same less ss s) y
            ≡ insert_sorted same less (insert_sorted same less ss y) s)
          is refl
    | inr (inr lt) ↦ sym (insert_lt ss t s lt)
  ]

  add_comm :
      (edges : NodeId → List NodeId) (e f : NodeId × NodeId)
      → add_edge same less (add_edge same less edges e) f
        ≡ add_edge same less (add_edge same less edges f) e
  unfolding add_edge
  add_comm edges (from, to) (from', to') =
      fun_ext (λ n. ground (arith, insert_comm (edges n) to to'))

  has-insert_sorted :
      (v s : NodeId) (ss : List NodeId)
      → has same v (insert_sorted same less ss s) ≡ (same s v || has same v ss)
  unfolding has insert_sorted
  has-insert_sorted v s [] = ground arith
  has-insert_sorted v s (x ∷ ss) = elim (order_cases x s) [
    | inl lt ↦ ground (arith, has-insert_sorted v s ss)
    | inr (inl is) ↦
        subst
          (λ y. has same v (insert_sorted same less (y ∷ ss) s) ≡ (same s v || has same v (y ∷ ss)))
          (sym is) (ground (arith, order.same_refl s, order.irreflexive s))
    | inr (inr lt) ↦ let (c, c') = differ s x lt in ground (arith, asym s x lt, c, c')
  ]

  has-add_edges :
      (es : List (NodeId × NodeId)) (edges : NodeId → List NodeId) (n v : NodeId)
      → has same v (add_edges same less edges es n) ≡ (has same v (edges n) || has_edge same n v es)
  unfolding add_edges add_edge has_edge
  has-add_edges [] edges n v = ground arith
  has-add_edges ((from, to) ∷ es) edges n v = ground (
    arith,
    has-add_edges es (add_edge same less edges (from, to)) n v,
    has-insert_sorted v to (edges n),
  )

  insert-All :
      (x s : NodeId) (ss : List NodeId)
      → less x s ≡ true
      → All (λ y. less x y ≡ true) ss
      → All (λ y. less x y ≡ true) (insert_sorted same less ss s)
  unfolding insert_sorted
  insert-All x s [] lt h = (lt, tt)
  insert-All x s (y ∷ ss) lt (l, h) = elim (Bool-cases (less y s)) [
    | inl y_s ↦ rw y_s (l, insert-All x s ss lt h)
    | inr f ↦ elim (Bool-cases (same y s)) [
      | inl is ↦ rw (f, is) (l, h)
      | inr g ↦ rw (f, g) (lt, (l, h))
    ]
  ]

  insert-IsAscending :
      (s : NodeId) (ss : List NodeId)
      → IsAscending less ss
      → IsAscending less (insert_sorted same less ss s)
  unfolding insert_sorted
  insert-IsAscending s [] h = (tt, tt)
  insert-IsAscending s (x ∷ ss) (up, asc) = elim (Bool-cases (less x s)) [
    | inl x_s ↦ rw x_s (insert-All x s ss x_s up, insert-IsAscending s ss asc)
    | inr f ↦ elim (Bool-cases (same x s)) [
      | inl is ↦ rw (f, is) (up, asc)
      | inr g ↦
          let s_x = order.total x s f g in
          rw (f, g) ((s_x, All-imp ss (λ y x_y. order.trans s x y s_x x_y) up), (up, asc))
    ]
  ]

  add_edges-IsAscending :
      (es : List (NodeId × NodeId)) (edges : NodeId → List NodeId) (n : NodeId)
      → ((m : NodeId) → IsAscending less (edges m))
      → IsAscending less (add_edges same less edges es n)
  unfolding add_edges add_edge
  add_edges-IsAscending [] edges n h = h n
  add_edges-IsAscending ((from, to) ∷ es) edges n h =
      add_edges-IsAscending es (add_edge same less edges (from, to)) n (λ m.
        elim (Bool-cases (same from m)) [
          | inl e ↦ rw e (insert-IsAscending to (edges m) (h m))
          | inr e ↦ rw e (h m)
        ])

  add_edges-Permᴰ :
      {k l : List (NodeId × NodeId)}
      → Permᴰ k l
      → (edges : NodeId → List NodeId) → add_edges same less edges k ≡ add_edges same less edges l
  unfolding add_edges
  add_edges-Permᴰ Permᴰ.nil edges = refl
  add_edges-Permᴰ (Permᴰ.cons {a} {l₂ = l} e p) edges =
      add_edges-Permᴰ p (add_edge same less edges a)
      ∙ ap (λ x. add_edges same less (add_edge same less edges x) l) e
  add_edges-Permᴰ (Permᴰ.swap {a} {b} {l = l} e f) edges =
      ap (λ x. add_edges same less x l) (add_comm edges a b)
      ∙ ap₂ (λ x y. add_edges same less (add_edge same less (add_edge same less edges x) y) l) f e
  add_edges-Permᴰ (Permᴰ.trans p q) edges = add_edges-Permᴰ p edges ∙ add_edges-Permᴰ q edges

  -- From a graph without edges, in whatever order Go ranges over the maps that the edges come from,
  -- every node gets the same targets: exactly those of its edges, each once, in ascending order.
  pub edges_as_sets :
      (k l : List (NodeId × NodeId))
      → Permᴰ k l
      → (add_edges same less (λ m. []) k ≡ add_edges same less (λ m. []) l)
        × ((n : NodeId) → IsAscending less (add_edges same less (λ m. []) k n))
        × ((n v : NodeId) → has same v (add_edges same less (λ m. []) k n) ≡ has_edge same n v k)
  unfolding has
  edges_as_sets k l p = (
    add_edges-Permᴰ p (λ m. []),
    λ n. add_edges-IsAscending k (λ m. []) n (λ m. tt),
    λ n v. has-add_edges k (λ m. []) n v,
  )
