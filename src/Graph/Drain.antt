-- ===== src/Graph/Drain.antt =====
-- A round of the graph executor ends: a popped item is replaced by items for the out edges of its
-- receiver, and the graph has no cycles.
use mathlib.Core.Option.{some-injective}
use cnspec.Common.{
  inr, inl, Option-cases, bind-eq-some, ℕ, zero, suc, ◌+◌, ◌<◌, ◌≤◌, String, List, [], ◌∷◌, Option,
  none, some, All, ◌≡◌, ◌≢◌, refl, arith, ap,
}
use cnspec.Common.Dict.{lookup}
use cnspec.Common.Sums.{sum_of, sum_cong, sum-Permᴰ, All-imp}
use cnspec.Graph.{
  out_of_fuel, Item, Heap, HeapLaws, NodeData, Layout, State, targets, deliver, send, visit,
  pop_visit, drain, item_to,
}

-- Every edge leads to a node of a lower rank.
abbrev pub IsAcyclic : Layout → (String → ℕ) → Type 0
IsAcyclic g rank = (n : String) → All (λ v. rank v < rank n) (targets g n)

module _ (g : Layout) where
  -- The number of items that one item for `n` leads to, itself counted, up to `depth` edges away.
  unfoldable pub cost : ℕ → String → ℕ
  cost zero n = 1
  cost (suc depth) n = suc (sum_of (cost depth) (targets g n))

  module _ (rank : String → ℕ) (acyclic : IsAcyclic g rank) where
    cost_stable : (f k : ℕ) (n : String) → rank n < f → rank n < k → cost f n ≡ cost k n
    unfolding cost
    cost_stable zero k n p q = absurd (omega arith)
    cost_stable (suc f) zero n p q = absurd (omega arith)
    cost_stable (suc f) (suc k) n p q = ap suc (
        sum_cong (cost f) (cost k) (targets g n) (
          All-imp (targets g n) (λ v h. cost_stable f k v (omega arith) (omega arith)) (acyclic n)))

    abbrev pub weight : String → ℕ
    weight n = cost (suc (rank n)) n

    cost_weight : (n : String) → weight n ≡ suc (sum_of weight (targets g n))
    unfolding cost
    cost_weight n = ap suc (
        sum_cong (cost (rank n)) weight (targets g n) (
          All-imp (targets g n) (λ v h. cost_stable (rank n) (suc (rank v)) v h (omega arith))
            (acyclic n)))

    abbrev pub work : List Item → ℕ
    work q = sum_of (λ (i : Item). weight i.receiver) q

    module _ {N E : Type 0} (h : Heap) (laws : HeapLaws h) (d : NodeData N E) where
      work-deliver :
          (from : String) (e : E) (vs : List String) (s t : State N)
          → deliver h d g from e vs s ≡ some t
          → work t.queue ≡ work s.queue + sum_of weight vs
      unfolding deliver sum_of
      work-deliver from e [] s t p =
          omega (arith, ap (λ (x : State N). work x.queue) (some-injective _ _ p))
      work-deliver from e (v ∷ vs) s t p =
          let (n, _, after) = bind-eq-some (lookup v s.nodes) _ p in
          let (n', _, rest) = bind-eq-some (d.consume from e n) _ after in
          let x = item_to h d g from v in
          omega (
            arith,
            work-deliver from e vs _ t rest,
            sum-Permᴰ (λ (i : Item). weight i.receiver) (laws.push_perm x s.queue),
          )

      work-send :
          (from : String) (out : Option E) (s t : State N)
          → send h d g from out s ≡ some t
          → work t.queue < work s.queue + weight from
      unfolding send
      work-send from none s t p =
          omega (arith, ap (λ (x : State N). work x.queue) (some-injective _ _ p), cost_weight from)
      work-send from (some e) s t p =
          omega (arith, work-deliver from e (targets g from) _ t p, cost_weight from)

      work-visit :
          (i : Item) (s t : State N)
          → visit h d g i s ≡ some t
          → work t.queue < work s.queue + weight i.receiver
      unfolding visit
      work-visit i s t p =
          let (n, _, after) = bind-eq-some (lookup i.receiver s.nodes) _ p in
          let (r, _, rest) = bind-eq-some (d.recalculate n) _ after in
          work-send i.receiver r.1 _ t rest

      work-pop_visit : (s t : State N) → pop_visit h d g s ≡ some t → work t.queue < work s.queue
      unfolding pop_visit sum_of
      work-pop_visit s t p =
          let (r, popped, rest) = bind-eq-some (h.pop s.queue) _ p in
          omega (
            arith,
            work-visit r.0 _ t rest,
            sum-Permᴰ (λ (i : Item). weight i.receiver) (laws.pop_perm s.queue r.1 r.0 popped),
          )

      pub drain-ne-out_of_fuel :
          (fuel : ℕ) (s : State N) (q : List Item)
          → s.queue ≡ q
          → work q ≤ fuel
          → drain h d g fuel s ≢ out_of_fuel
      unfolding drain sum_of
      drain-ne-out_of_fuel zero s [] e le = ground arith
      drain-ne-out_of_fuel (suc fuel) s [] e le = ground arith
      drain-ne-out_of_fuel zero s (x ∷ q) e le = absurd (omega (arith, cost_weight x.receiver))
      drain-ne-out_of_fuel (suc fuel) s (x ∷ q) e le = elim (Option-cases (pop_visit h d g s)) [
        | inl fails ↦ ground arith
        | inr (t, p) ↦
            let less = work-pop_visit s t p in
            let lower = ap work e in
            let ih = drain-ne-out_of_fuel fuel t t.queue refl (omega arith) in ground arith
      ]

      -- A round that begins with any items ends within as many steps as there are paths from their
      -- receivers, where no edge of the graph is on a cycle.
      pub drain_ends : (s : State N) → drain h d g (work s.queue) s ≢ out_of_fuel
      drain_ends s = drain-ne-out_of_fuel (work s.queue) s s.queue refl (omega arith)
