-- ===== src/Resolve/Walk/Paths.antt =====
-- Paths along the edges of the graph, and the nodes that a walk has left.
use cnspec.Common.{
  ℕ, suc, ◌<◌, ◌≤◌, true, false, String, eq_iff, List, [], ◌∷◌, some, length, if◌then◌else◌, ◌≡◌,
  arith,
}
use cnspec.Common.Dict.{lookup}
use cnspec.Common.Keys.{contains}
use cnspec.Resolve.{Builder, Node}
use cnspec.Resolve.Edges.{targets}

module _ (b : Builder) where
  abbrev pub IsNode : String → Type 0
  IsNode id = (n : Node) × (lookup id b.nodes ≡ some n)

  abbrev pub IsEdge : String → String → Type 0
  IsEdge u v = (contains v (targets b u) ≡ true) × IsNode v

  -- The paths along edges.
  pub data Reach (u : String) : String → Type 0 where
    here : Reach u u
    step : {v w : String} → Reach u v → IsEdge v w → Reach u w

  pub reach_first : {u v w : String} → IsEdge u v → Reach v w → Reach u w
  reach_first e here = step here e
  reach_first e (step p f) = step (reach_first e p) f

  pub reach_trans : {u v w : String} → Reach u v → Reach v w → Reach u w
  reach_trans p here = p
  reach_trans p (step q e) = step (reach_trans p q) e

  -- `v` can be reached from a node of the list.
  abbrev pub IsReached : List String → String → Type 0
  IsReached es v = (e : String) × (contains e es ≡ true) × IsNode e × Reach e v

  -- The nodes that are not visited yet.
  unfoldable pub left : List (String × Node) → List String → ℕ
  left [] vs = 0
  left ((k, n) ∷ ns) vs = if contains k vs then left ns vs else suc (left ns vs)

  pub left_visit :
      (ns : List (String × Node)) (id : String) (n : Node) (vs : List String)
      → (left ns (id ∷ vs) ≤ left ns vs)
        × (lookup id ns ≡ some n → contains id vs ≡ false → left ns (id ∷ vs) < left ns vs)
  unfolding left contains lookup
  left_visit [] id n vs = (omega arith, λ e f. cc)
  left_visit ((k, m) ∷ ns) id n vs = (
    ground (arith, left_visit ns id n vs),
    λ e f. ground (arith, left_visit ns id n vs, eq_iff k id, eq_iff id k),
  )

  pub left_le :
      (ns : List (String × Node)) (vs ws : List String)
      → ((v : String) → contains v vs ≡ true → contains v ws ≡ true)
      → left ns ws ≤ left ns vs
  unfolding left
  left_le [] vs ws h = omega arith
  left_le ((k, n) ∷ ns) vs ws h = ground (arith, left_le ns vs ws h, h k)

  pub left_all : (ns : List (String × Node)) → left ns [] ≤ length ns
  unfolding left contains
  left_all [] = omega arith
  left_all ((k, n) ∷ ns) = ground (arith, left_all ns)
