-- ===== src/Tests/Edges.antt =====
-- Edges between nodes that are numbers.
use mathlib.Core.List.{Permᴰ}
use cnspec.Common.{ℕ, Bool, ◌==◌, ltb, List, [], ◌∷◌, ◌≡◌, refl, arith}
use cnspec.Graph.Edges.{add_edges}
use cnspec.Graph.Edges.Sets.{IsOrder, IsAscending, has, has_edge, edges_as_sets}

abbrev equal : ℕ → ℕ → Bool
equal m n = m == n

numbers-IsOrder : IsOrder equal ltb
numbers-IsOrder = record {
  same_refl = λ a. ground arith;
  same_eq = λ a b e. ground arith;
  irreflexive = λ a. ground arith;
  total = λ a b e f. ground arith;
  trans = λ a b c e f. ground arith;
}

abbrev one_way : List (ℕ × ℕ)
one_way = (1, 3) ∷ (1, 2) ∷ []

abbrev other_way : List (ℕ × ℕ)
other_way = (1, 2) ∷ (1, 3) ∷ []

edges_as_sets_example :
    (add_edges equal ltb (λ m. []) one_way ≡ add_edges equal ltb (λ m. []) other_way)
    × ((n : ℕ) → IsAscending ltb (add_edges equal ltb (λ m. []) one_way n))
    × ((n v : ℕ)
        → has equal v (add_edges equal ltb (λ m. []) one_way n) ≡ has_edge equal n v one_way)
edges_as_sets_example =
    edges_as_sets equal ltb numbers-IsOrder one_way other_way (Permᴰ.swap refl refl)
