-- ===== src/Graph/Sending.antt =====
-- What stays true in a round of the graph executor while a node sends its data.
use mathlib.Core.List.Permᴰ
use mathlib.Core.Path.{subst}
use cnspec.Common.{true, String, List, some, All, ◌≡◌, inl, inr, ap, sym, ◌∙◌, ℤ, arith}
use cnspec.Common.Dict.{lookup, update, update-cases}
use cnspec.Common.Integers.{◌≤ℤ◌, ◌<ℤ◌}
use cnspec.Common.Sums.{All-imp, All-imp₂, All-Permᴰ, Any-Permᴰ}
use cnspec.Graph.{Item, Heap, HeapLaws, NodeData, Layout, State, priority_of, item_to}
use cnspec.Graph.Level.{NodeLaws, IsRanked, IsRanged, IsOrdered, update-IsLayered, update-IsSettled}

module _ {N E : Type 0} (h : Heap) (heap_laws : HeapLaws h) (d : NodeData N E) (laws : NodeLaws d)
    (g : Layout) (level : String → ℤ) (ranked : IsRanked g level) where
  abbrev Ordered : List String → State N → Type 0
  Ordered done s = IsOrdered d laws g level done s

  -- The node `v` of priority below `bound` is below the level of `u`.
  below_level :
      (bound : ℤ) (v u : String)
      → priority_of g v <ℤ bound
      → priority_of g v ≡ level v
      → bound ≤ℤ level u
      → level v <ℤ level u
  below_level bound v u low e high = subst (λ p. p <ℤ level u) e (omega arith)

  -- A deaf node that ignores an empty envelope is what it was.
  pub ignored_same :
      (from v : String) (n m : N) (e : E) (nodes : List (String × N))
      → laws.deaf n ≡ true
      → laws.is_empty e ≡ true
      → lookup v nodes ≡ some n
      → d.consume from e n ≡ some m
      → (u : String) (k : N) → lookup u (update v m nodes) ≡ some k
      → lookup u nodes ≡ some k
  ignored_same from v n m e nodes deaf empty found took u k f =
      elim (update-cases u v k m nodes f) [
        | inl (is_u, is_k) ↦
            subst (λ w. lookup w nodes ≡ some k) is_u
              (found ∙ ap some (sym (laws.ignored from e n m took deaf empty) ∙ is_k))
        | inr (_, old) ↦ old
      ]

  -- What the receivers of data are to the nodes that were visited, for a bound between the two.
  module _ (bound : ℤ) (done : List String) (high : All (λ u. bound ≤ℤ level u) done) where
    pushed_below :
        (x : Item) (q : List Item)
        → x.priority <ℤ bound
        → All (λ u. All (λ (i : Item). i.priority ≤ℤ level u) q) done
        → All (λ u. All (λ (i : Item). i.priority ≤ℤ level u) (h.push x q)) done
    pushed_below x q low below =
        All-imp₂ done
          (λ u hi b. All-Permᴰ _ (Permᴰ.symm (heap_laws.push_perm x q)) (omega arith, b)) high below

    -- Data for a node at the level of its priority.
    pub speak-IsOrdered :
        (from v : String) (n m : N) (e : E) (s : State N)
        → priority_of g v <ℤ bound
        → priority_of g v ≡ level v
        → lookup v s.nodes ≡ some n
        → d.consume from e n ≡ some m
        → Ordered done s
        → Ordered done
            (record s { nodes = update v m s.nodes; queue = h.push (item_to h d g from v) s.queue })
    speak-IsOrdered from v n m e s low level_is found took o =
        let x = item_to h d g from v in
        let pushed = Permᴰ.symm (heap_laws.push_perm x s.queue) in
        record {
          layered =
              update-IsLayered d laws g level v n m s.nodes found
                (laws.consume_kind from e n m took) o.layered;
          covered = λ u k f. elim (update-cases u v k m s.nodes f) [
            | inl (same, _) ↦ inr (Any-Permᴰ _ pushed (inl (same, level_is ∙ ap level same)))
            | inr (_, old) ↦ elim (o.covered u k old) [
              | inl nothing ↦ inl nothing
              | inr waits ↦ inr (Any-Permᴰ _ pushed (inr waits))
            ]
          ];
          ranged =
              All-Permᴰ (IsRanged d laws g level) pushed ((omega arith, ranked.raised v), o.ranged);
          below = pushed_below x s.queue low o.below;
          settled =
              All-imp₂ done
                (λ u hi k.
                  update-IsSettled d laws g level u v m s.nodes
                    (below_level bound v u low level_is hi) k)
                high o.settled;
          noted = o.noted;
          once = o.once;
        }

    -- An empty envelope for a deaf node changes nothing but the queue.
    pub quiet-IsOrdered :
        (from v : String) (n m : N) (e : E) (s : State N)
        → priority_of g v <ℤ bound
        → laws.deaf n ≡ true
        → laws.is_empty e ≡ true
        → lookup v s.nodes ≡ some n
        → d.consume from e n ≡ some m
        → Ordered done s
        → Ordered done
            (record s { nodes = update v m s.nodes; queue = h.push (item_to h d g from v) s.queue })
    quiet-IsOrdered from v n m e s low deaf empty found took o =
        let x = item_to h d g from v in
        let pushed = Permᴰ.symm (heap_laws.push_perm x s.queue) in
        let same = ignored_same from v n m e s.nodes deaf empty found took in
        record {
          layered =
              update-IsLayered d laws g level v n m s.nodes found
                (laws.consume_kind from e n m took) o.layered;
          covered = λ u k f. elim (o.covered u k (same u k f)) [
            | inl nothing ↦ inl nothing
            | inr waits ↦ inr (Any-Permᴰ _ pushed (inr waits))
          ];
          ranged =
              All-Permᴰ (IsRanged d laws g level) pushed ((omega arith, ranked.raised v), o.ranged);
          below = pushed_below x s.queue low o.below;
          settled = All-imp done (λ u k x f. k x (same u x f)) o.settled;
          noted = o.noted;
          once = o.once;
        }
