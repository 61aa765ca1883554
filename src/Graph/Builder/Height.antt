-- ===== src/Graph/Builder/Height.antt =====
-- The height of a node: one more than the greatest height of the nodes it sends to.
use cnspec.Common.{
  ◌∙◌, ℕ, zero, suc, ◌<◌, ◌≤◌, String, List, [], ◌∷◌, ltb, if◌then◌else◌, All, ◌≡◌, refl, arith, ap,
}
use cnspec.Common.Sums.{All-imp}
use cnspec.Graph.{Layout, targets}
use cnspec.Graph.Drain.{IsAcyclic}

unfoldable pub greatest : (String → ℕ) → List String → ℕ → ℕ
greatest h [] m = m
greatest h (v ∷ vs) m = greatest h vs (if ltb m (h v) then h v else m)

greatest_cong :
    (h k : String → ℕ) (vs : List String) (m : ℕ)
    → All (λ v. h v ≡ k v) vs
    → greatest h vs m ≡ greatest k vs m
unfolding greatest
greatest_cong h k [] m e = refl
greatest_cong h k (v ∷ vs) m (e, es) =
    ap (λ x. greatest h vs (if ltb m x then x else m)) e ∙ greatest_cong h k vs _ es

le-greatest : (h : String → ℕ) (vs : List String) (m : ℕ) → m ≤ greatest h vs m
unfolding greatest
le-greatest h [] m = omega arith
le-greatest h (v ∷ vs) m = ground (arith, le-greatest h vs (if ltb m (h v) then h v else m))

pub greatest_bounds :
    (h : String → ℕ) (vs : List String) (m : ℕ) → All (λ v. h v ≤ greatest h vs m) vs
unfolding greatest
greatest_bounds h [] m = tt
greatest_bounds h (v ∷ vs) m =
    (ground (arith, le-greatest h vs (if ltb m (h v) then h v else m)), greatest_bounds h vs _)

module _ (g : Layout) where
  unfoldable pub height_below : ℕ → String → ℕ
  height_below zero n = 0
  height_below (suc depth) n = suc (greatest (height_below depth) (targets g n) 0)

  module _ (rank : String → ℕ) (acyclic : IsAcyclic g rank) where
    height_stable :
        (f k : ℕ) (n : String) → rank n < f → rank n < k → height_below f n ≡ height_below k n
    unfolding height_below
    height_stable zero k n p q = absurd (omega arith)
    height_stable (suc f) zero n p q = absurd (omega arith)
    height_stable (suc f) (suc k) n p q = ap suc (
        greatest_cong _ _ (targets g n) 0 (
          All-imp (targets g n) (λ v h. height_stable f k v (omega arith) (omega arith))
            (acyclic n)))

    -- The number of nodes on a longest path from `n`.
    unfoldable pub height : String → ℕ
    height n = height_below (suc (rank n)) n

    pub height_lem : (n : String) → height n ≡ suc (greatest height (targets g n) 0)
    unfolding height height_below
    height_lem n = ap suc (
        greatest_cong _ _ (targets g n) 0 (
          All-imp (targets g n) (λ v h. height_stable (rank n) (suc (rank v)) v h (omega arith))
            (acyclic n)))

    -- It falls along every edge.
    pub height_falls : (n : String) → All (λ v. height v < height n) (targets g n)
    height_falls n =
        All-imp (targets g n) (λ v le. omega (arith, height_lem n))
          (greatest_bounds height (targets g n) 0)
