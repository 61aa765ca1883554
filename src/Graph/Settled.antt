-- ===== src/Graph/Settled.antt =====
-- At the end of a round the graph is up to date: no node has anything left to send.
use cnspec.Common.Sums.{Any, Any-Permᴰ}
use cnspec.Common.{
  bind-eq-some, ℕ, String, List, [], ◌∷◌, Option, none, some, ◌≡◌, ◌⊎◌, inl, inr, refl,
}
use mathlib.Core.List.{Permᴰ}
use mathlib.Core.List.Permᴰ
use mathlib.Core.Path.{subst}
use cnspec.Common.Dict.{lookup, update}
use cnspec.Graph.{
  Item, Heap, HeapLaws, NodeData, Layout, State, Outcome, deliver, send, visit, pop_visit, drain,
  item_to, targets,
}
use cnspec.Graph.Level.{NodeLaws}
use cnspec.Common.Dict.{update-cases}
use cnspec.Graph.Rule.{drain_rule}
use mathlib.Core.Option.{some-injective}

-- An item for the node `u` is in the queue.
abbrev pub Waits : String → List Item → Type 0
Waits u = Any (λ (i : Item). i.receiver ≡ u)

pub Waits-Permᴰ : (u : String) {k l : List Item} → Permᴰ k l → Waits u k → Waits u l
Waits-Permᴰ u = Any-Permᴰ (λ (i : Item). i.receiver ≡ u)

module _ {N E : Type 0} (h : Heap) (heap_laws : HeapLaws h) (d : NodeData N E) (laws : NodeLaws d)
    (g : Layout) where
  abbrev pub HasNothing : N → Type 0
  HasNothing n = d.recalculate n ≡ some (n, none)

  -- Every node has nothing to send, or waits in the queue.
  abbrev pub IsCovered : State N → Type 0
  IsCovered s = (u : String) (n : N) → lookup u s.nodes ≡ some n → HasNothing n ⊎ Waits u s.queue

  pub push-Waits : (u : String) (x : Item) (q : List Item) → Waits u (x ∷ q) → Waits u (h.push x q)
  push-Waits u x q = Waits-Permᴰ u (Permᴰ.symm (heap_laws.push_perm x q))

  deliver-IsCovered :
      (from : String) (e : E) (vs : List String) (s t : State N)
      → IsCovered s
      → deliver h d g from e vs s ≡ some t
      → IsCovered t
  unfolding deliver
  deliver-IsCovered from e [] s t c p = subst IsCovered (some-injective _ _ p) c
  deliver-IsCovered from e (v ∷ vs) s t c p =
      let (n, found, after) = bind-eq-some (lookup v s.nodes) _ p in
      let (m, took, rest) = bind-eq-some (d.consume from e n) _ after in
      let x = item_to h d g from v in
      let c' : IsCovered (record s { nodes = update v m s.nodes; queue = h.push x s.queue }) =
        λ u k found'. elim (update-cases u v k m s.nodes found') [
          | inl (same, _) ↦ inr (push-Waits u x s.queue (inl same))
          | inr (_, old) ↦ elim (c u k old) [
            | inl nothing ↦ inl nothing
            | inr waits ↦ inr (push-Waits u x s.queue (inr waits))
          ]
        ] in
      deliver-IsCovered from e vs _ t c' rest

  pub send-IsCovered :
      (from : String) (out : Option E) (s t : State N)
      → IsCovered s
      → send h d g from out s ≡ some t
      → IsCovered t
  unfolding send
  send-IsCovered from none s t c p = subst IsCovered (some-injective _ _ p) c
  send-IsCovered from (some e) s t c p =
      deliver-IsCovered from e (targets g from) (record s { sent = from ∷ s.sent }) t c p

  pop_visit-IsCovered : (s t : State N) → IsCovered s → pop_visit h d g s ≡ some t → IsCovered t
  unfolding pop_visit visit
  pop_visit-IsCovered s t c p =
      let (r, popped, after) = bind-eq-some (h.pop s.queue) _ p in
      let i = r.0 in
      let (n, found, next) = bind-eq-some (lookup i.receiver s.nodes) _ after in
      let (q, recalc, sent) = bind-eq-some (d.recalculate n) _ next in
      let perm = heap_laws.pop_perm s.queue r.1 i popped in
      let c' : IsCovered (record s { nodes = update i.receiver q.0 s.nodes; queue = r.1 }) =
        λ u k found'. elim (update-cases u i.receiver k q.0 s.nodes found') [
          | inl (_, is_q) ↦ inl (subst HasNothing is_q (laws.settled n q.0 q.1 recalc))
          | inr (other, old) ↦ elim (c u k old) [
            | inl nothing ↦ inl nothing
            | inr waits ↦ elim (Waits-Permᴰ u perm waits) [
              | inl same ↦ absurd (other same)
              | inr w ↦ inr w
            ]
          ]
        ] in
      send-IsCovered i.receiver q.1 _ t c' sent

  -- At the end of a round no node has anything to send, where at its start every node that has waits in the
  -- queue.
  pub drained_settled :
      (fuel : ℕ) (s t : State N)
      → IsCovered s
      → drain h d g fuel s ≡ Outcome.drained t
      → (u : String) (n : N) → lookup u t.nodes ≡ some n
      → HasNothing n
  drained_settled fuel s t c p u n found =
      let (c', empty) = drain_rule h d g IsCovered pop_visit-IsCovered fuel s.queue s t refl c p in
      elim (subst (λ q. HasNothing n ⊎ Waits u q) empty (c' u n found)) [
        | inl nothing ↦ nothing
        | inr w ↦ absurd w
      ]
