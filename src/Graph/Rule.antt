-- ===== src/Graph/Rule.antt =====
-- The invariant rule of the loop over the queue.
use cnspec.Common.{◌∙◌, sym, ap, ℕ, zero, suc, List, [], ◌∷◌, some, ◌≡◌, refl, arith, inl, inr}
use cnspec.Common.{Option-cases}
use mathlib.Core.Path.{subst}
use cnspec.Graph.{Item, Heap, NodeData, Layout, State, Outcome, pop_visit, drain}

module _ {N E : Type 0} (h : Heap) (d : NodeData N E) (g : Layout) where
  drain_at_end :
      (fuel : ℕ) (s t : State N) → s.queue ≡ [] → drain h d g fuel s ≡ Outcome.drained t → s ≡ t
  unfolding drain
  drain_at_end zero s t e p = ground arith
  drain_at_end (suc fuel) s t e p = ground arith

  -- What one step keeps holds at the end, where the queue is empty.
  pub drain_rule {κ} :
      (P : State N → Type κ)
      → ((s t : State N) → P s → pop_visit h d g s ≡ some t → P t)
      → (fuel : ℕ) (q : List Item) (s t : State N) → s.queue ≡ q
      → P s
      → drain h d g fuel s ≡ Outcome.drained t
      → P t × (t.queue ≡ [])
  unfolding drain
  drain_rule P keep fuel [] s t e o p =
      let same = drain_at_end fuel s t e p in
      (subst P same o, ap (λ (x : State N). x.queue) (sym same) ∙ e)
  drain_rule P keep zero (x ∷ q) s t e o p = absurd (ground arith)
  drain_rule P keep (suc fuel) (x ∷ q) s t e o p = elim (Option-cases (pop_visit h d g s)) [
    | inl fails ↦ absurd (ground arith)
    | inr (s', popped) ↦
        drain_rule P keep fuel s'.queue s' t refl (keep s s' o popped) (ground arith)
  ]
