-- ===== src/Graph/Level.antt =====
-- Levels of the graph: a node sends only to nodes of a lower level. What is true in a round when
-- items are handled by falling priority.
use mathlib.Core.Path.{subst}
use cnspec.Common.{
  refl, Bool, true, false, String, List, Option, none, some, All, ◌≡◌, ◌⊎◌, inl, inr, ap, sym, ◌∙◌,
  ℤ, arith,
}
use cnspec.Common.Dict.{lookup, update, update-cases}
use cnspec.Common.Keys.{contains, IsDistinct}
use cnspec.Common.Integers.{◌≤ℤ◌, ◌<ℤ◌, pos_part, neg_part}
use cnspec.Common.Sums.{All-imp, Any}
use cnspec.Graph.{Item, NodeData, Layout, State, targets, priority_of}

-- What every node type does: once it has recalculated, it sends nothing until it consumes. Nodes that
-- are not `speaking`, as execution queries, send only empty envelopes, and nodes that are `deaf`,
-- as datapoints, ignore those.
pub record NodeLaws {N E : Type 0} (d : NodeData N E) : Type 0 where
  pub speaking : N → Bool
  pub deaf : N → Bool
  pub is_empty : E → Bool
  pub settled :
      (n m : N) (out : Option E)
      → d.recalculate n ≡ some (m, out)
      → d.recalculate m ≡ some (m, none)
  pub quiet :
      (n m : N) (e : E)
      → d.recalculate n ≡ some (m, some e)
      → speaking n ≡ false
      → is_empty e ≡ true
  pub ignored :
      (from : String) (e : E) (n m : N)
      → d.consume from e n ≡ some m
      → deaf n ≡ true
      → is_empty e ≡ true
      → m ≡ n
  pub recalculate_kind :
      (n m : N) (out : Option E)
      → d.recalculate n ≡ some (m, out)
      → (speaking m ≡ speaking n) × (deaf m ≡ deaf n)
  pub consume_kind :
      (from : String) (e : E) (n m : N)
      → d.consume from e n ≡ some m
      → (speaking m ≡ speaking n) × (deaf m ≡ deaf n)

-- The priorities fall along every edge, and no level is below its priority.
pub record IsRanked (g : Layout) (level : String → ℤ) : Type 0 where
  pub falls : (u : String) → All (λ v. priority_of g v <ℤ priority_of g u) (targets g u)
  pub raised : (u : String) → priority_of g u ≤ℤ level u

-- An item for the node at its level is in the queue.
abbrev pub WaitsAt : String → ℤ → List Item → Type 0
WaitsAt u p = Any (λ (i : Item). (i.receiver ≡ u) × (i.priority ≡ p))

module _ {N E : Type 0} (d : NodeData N E) (laws : NodeLaws d) (g : Layout)
    (level : String → ℤ) where
  -- A node that is not speaking sends to deaf nodes only. The nodes that another sends to are at the
  -- level of their priority.
  abbrev pub IsLayered : List (String × N) → Type 0
  IsLayered nodes =
      (u : String) (n : N)
      → lookup u nodes ≡ some n
      → (laws.speaking n ≡ true → All (λ v. priority_of g v ≡ level v) (targets g u))
        × (laws.speaking n ≡ false
            → All (λ v. (m : N) → lookup v nodes ≡ some m → laws.deaf m ≡ true) (targets g u))

  -- The node `u` has nothing to send.
  abbrev pub IsSettled : List (String × N) → String → Type 0
  IsSettled nodes u = (n : N) → lookup u nodes ≡ some n → d.recalculate n ≡ some (n, none)

  -- A node that has something to send waits in the queue at its level.
  abbrev pub IsCovered : State N → Type 0
  IsCovered s =
      (u : String) (n : N)
      → lookup u s.nodes ≡ some n
      → (d.recalculate n ≡ some (n, none)) ⊎ WaitsAt u (level u) s.queue

  abbrev pub IsRanged : Item → Type 0
  IsRanged i = (priority_of g i.receiver ≤ℤ i.priority) × (i.priority ≤ℤ level i.receiver)

  -- `done` lists the nodes that were visited in this round.
  pub record IsOrdered (done : List String) (s : State N) : Type 0 where
    pub layered : IsLayered s.nodes
    pub covered : IsCovered s
    pub ranged : All IsRanged s.queue
    pub below : All (λ u. All (λ (i : Item). i.priority ≤ℤ level u) s.queue) done
    pub settled : All (IsSettled s.nodes) done
    pub noted : (u : String) → contains u s.sent ≡ true → contains u done ≡ true
    pub once : IsDistinct s.sent

  -- Changing a node keeps its kind.
  pub update-IsLayered :
      (v : String) (n m : N) (nodes : List (String × N))
      → lookup v nodes ≡ some n
      → (laws.speaking m ≡ laws.speaking n) × (laws.deaf m ≡ laws.deaf n)
      → IsLayered nodes
      → IsLayered (update v m nodes)
  update-IsLayered v n m nodes e (speaks, hears) h u k found =
      let old : (w : String) (x : N)
          → lookup w (update v m nodes) ≡ some x
          → (y : N) × (lookup w nodes ≡ some y)
            × (laws.speaking x ≡ laws.speaking y)
            × (laws.deaf x ≡ laws.deaf y) =
        λ w x f. elim (update-cases w v x m nodes f) [
          | inl (same, is_x) ↦ (
            n,
            subst (λ z. lookup z nodes ≡ some n) same e,
            sym (ap laws.speaking is_x) ∙ speaks,
            sym (ap laws.deaf is_x) ∙ hears,
          )
          | inr (_, was) ↦ (x, was, refl, refl)
        ] in
      let (y, was, s, _) = old u k found in
      let (loud, quiet) = h u y was in
      (
        λ t. loud (sym s ∙ t),
        λ t.
            All-imp (targets g u)
              (λ w deaf x f. let (z, before, _, t') = old w x f in t' ∙ deaf z before)
              (quiet (sym s ∙ t)),
      )

  -- A node at a higher level than the one that changes stays settled.
  pub update-IsSettled :
      (u v : String) (m : N) (nodes : List (String × N))
      → level v <ℤ level u
      → IsSettled nodes u
      → IsSettled (update v m nodes) u
  update-IsSettled u v m nodes lower h n found = elim (update-cases u v n m nodes found) [
    | inl (same, _) ↦
        absurd (omega (arith, ap (λ w. pos_part (level w)) same, ap (λ w. neg_part (level w)) same))
    | inr (_, old) ↦ h n old
  ]

  -- The node that has recalculated is settled, and so is every one that was.
  pub visit-IsSettled :
      (u v : String) (n m : N) (out : Option E) (nodes : List (String × N))
      → d.recalculate n ≡ some (m, out)
      → (v ≡ u) ⊎ IsSettled nodes u
      → IsSettled (update v m nodes) u
  visit-IsSettled u v n m out nodes e h k found = elim (update-cases u v k m nodes found) [
    | inl (_, is_m) ↦ subst (λ x. d.recalculate x ≡ some (x, none)) is_m (laws.settled n m out e)
    | inr (other, old) ↦ elim h [ inl same ↦ absurd (other same) | inr settled ↦ settled k old ]
  ]
