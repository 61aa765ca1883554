-- ===== src/Graph/Once.antt =====
-- In a round each node sends at most once: items are handled by falling priority, and data is only
-- sent to nodes of a lower priority.
use mathlib.Core.List.{Permᴰ}
use mathlib.Core.Path.{subst}
use mathlib.Core.Option.{some-injective}
use cnspec.Common.{
  ℕ, true, false, Bool-cases, String, List, [], ◌∷◌, Option, none, some, All, ◌≡◌, ◌⊎◌, inl, inr,
  refl, ap, sym, ◌∙◌, ℤ, arith, bind-eq-some,
}
use cnspec.Common.Dict.{lookup, update, update-cases, lookup-update_self}
use cnspec.Common.Keys.{contains, IsDistinct, All-contains}
use cnspec.Common.Integers.{◌≤ℤ◌, ◌<ℤ◌, ltb_ℤ→ge}
use cnspec.Common.Sums.{All-imp, All-Permᴰ, Any-Permᴰ}
use cnspec.Graph.{
  Item, less, Heap, HeapLaws, NodeData, Layout, State, Outcome, targets, priority_of, deliver, send,
  visit, pop_visit, drain,
}
use cnspec.Graph.Level.{
  NodeLaws, IsRanked, WaitsAt, IsLayered, IsCovered, IsRanged, IsOrdered, update-IsLayered,
  visit-IsSettled,
}
use cnspec.Graph.Sending.{speak-IsOrdered, quiet-IsOrdered, ignored_same}
use cnspec.Graph.Rule.{drain_rule}

module _ {N E : Type 0} (h : Heap) (heap_laws : HeapLaws h) (d : NodeData N E) (laws : NodeLaws d)
    (g : Layout) (level : String → ℤ) (ranked : IsRanked g level) where
  abbrev Ordered : List String → State N → Type 0
  Ordered done s = IsOrdered d laws g level done s

  module _ (bound : ℤ) (done : List String) (high : All (λ u. bound ≤ℤ level u) done) where
    speak_on-IsOrdered :
        (from : String) (e : E) (vs : List String) (s t : State N)
        → All (λ v. priority_of g v <ℤ bound) vs
        → All (λ v. priority_of g v ≡ level v) vs
        → Ordered done s
        → deliver h d g from e vs s ≡ some t
        → Ordered done t
    unfolding deliver
    speak_on-IsOrdered from e [] s t low lev o p = subst (Ordered done) (some-injective _ _ p) o
    speak_on-IsOrdered from e (v ∷ vs) s t (l, low) (is, lev) o p =
        let (n, found, after) = bind-eq-some (lookup v s.nodes) _ p in
        let (m, took, rest) = bind-eq-some (d.consume from e n) _ after in
        speak_on-IsOrdered from e vs _ t low lev
          (speak-IsOrdered h heap_laws d laws g level ranked bound done high from v n m e s l is
            found took o)
          rest

    quiet_on-IsOrdered :
        (from : String) (e : E) (vs : List String) (s t : State N)
        → laws.is_empty e ≡ true
        → All (λ v. priority_of g v <ℤ bound) vs
        → All (λ v. (m : N) → lookup v s.nodes ≡ some m → laws.deaf m ≡ true) vs
        → Ordered done s
        → deliver h d g from e vs s ≡ some t
        → Ordered done t
    unfolding deliver
    quiet_on-IsOrdered from e [] s t empty low deaf o p =
        subst (Ordered done) (some-injective _ _ p) o
    quiet_on-IsOrdered from e (v ∷ vs) s t empty (l, low) (hears, deaf) o p =
        let (n, found, after) = bind-eq-some (lookup v s.nodes) _ p in
        let (m, took, rest) = bind-eq-some (d.consume from e n) _ after in
        let same =
          ignored_same h heap_laws d laws g level ranked from v n m e s.nodes (hears n found) empty
            found took in
        quiet_on-IsOrdered from e vs _ t empty low (All-imp vs (λ w k x f. k x (same w x f)) deaf)
          (quiet-IsOrdered h heap_laws d laws g level ranked bound done high from v n m e s l
            (hears n found) empty found took o)
          rest

  below_popped :
      (i j : Item)
      → i.priority ≤ℤ level i.receiver
      → less j i ≡ false
      → j.priority ≤ℤ level i.receiver
  unfolding less
  below_popped i j le l = omega (arith, ltb_ℤ→ge i.priority j.priority l)

  -- A node that has recalculated for the item that was popped counts as visited.
  visited-IsOrdered :
      (done : List String) (i : Item) (r : List Item) (n m : N) (out : Option E) (s : State N)
      → d.recalculate n ≡ some (m, out)
      → lookup i.receiver s.nodes ≡ some n
      → Permᴰ s.queue (i ∷ r)
      → All (λ j. less j i ≡ false) r
      → Ordered done s
      → Ordered (i.receiver ∷ done) (record s { nodes = update i.receiver m s.nodes; queue = r })
  unfolding contains
  visited-IsOrdered done i r n m out s e found perm least o =
      let v = i.receiver in
      let (range, ranges) = All-Permᴰ (IsRanged d laws g level) perm o.ranged in
      record {
        layered =
            update-IsLayered d laws g level v n m s.nodes found (laws.recalculate_kind n m out e)
              o.layered;
        covered = λ u k f. elim (update-cases u v k m s.nodes f) [
          | inl (_, is_m) ↦
              inl (subst (λ x. d.recalculate x ≡ some (x, none)) is_m (laws.settled n m out e))
          | inr (other, old) ↦ elim (o.covered u k old) [
            | inl nothing ↦ inl nothing
            | inr waits ↦ elim (Any-Permᴰ _ perm waits) [
              | inl (is, _) ↦ absurd (other is)
              | inr w ↦ inr w
            ]
          ]
        ];
        ranged = ranges;
        below = (
          All-imp r (λ j l. below_popped i j range.1 l) least,
          All-imp done (λ u b. (All-Permᴰ _ perm b).1) o.below,
        );
        settled = (
          visit-IsSettled d laws g level v v n m out s.nodes e (inl refl),
          All-imp done (λ u k. visit-IsSettled d laws g level u v n m out s.nodes e (inr k))
              o.settled,
        );
        noted = λ u c. ground (arith, o.noted u);
        once = o.once;
      }

  -- A node that has something to send was not visited before.
  not_sent :
      (done : List String) (from : String) (n m : N) (x : E) (s : State N)
      → d.recalculate n ≡ some (m, some x)
      → lookup from s.nodes ≡ some n
      → Ordered done s
      → contains from s.sent ≡ false
  not_sent done from n m x s e found o = elim (Bool-cases (contains from s.sent)) [
    | inl sent ↦ cc (All-contains _ from done (o.noted from sent) o.settled n found)
    | inr fresh ↦ fresh
  ]

  -- A node that was visited just now sends its data.
  send-IsOrdered :
      (done : List String) (from : String) (n m : N) (out : Option E) (s t : State N)
      → d.recalculate n ≡ some (m, out)
      → lookup from s.nodes ≡ some m
      → ((x : E) → out ≡ some x → contains from s.sent ≡ false)
      → All (λ u. priority_of g from ≤ℤ level u) (from ∷ done)
      → Ordered (from ∷ done) s
      → send h d g from out s ≡ some t
      → Ordered (from ∷ done) t
  unfolding send contains
  send-IsOrdered done from n m none s t e found fresh high o p =
      subst (Ordered (from ∷ done)) (some-injective _ _ p) o
  send-IsOrdered done from n m (some x) s t e found fresh high o p =
      let noted : Ordered (from ∷ done) (record s { sent = from ∷ s.sent }) = record {
        layered = o.layered;
        covered = o.covered;
        ranged = o.ranged;
        below = o.below;
        settled = o.settled;
        noted = λ u c. ground (arith, o.noted u);
        once = (fresh x refl, o.once);
      } in
      let (kind, _) = laws.recalculate_kind n m (some x) e in
      let (loud, quiet) = o.layered from m found in
      elim (Bool-cases (laws.speaking m)) [
        | inl speaks ↦
            speak_on-IsOrdered (priority_of g from) (from ∷ done) high from x (targets g from) _ t
              (ranked.falls from) (loud speaks) noted p
        | inr silent ↦
            quiet_on-IsOrdered (priority_of g from) (from ∷ done) high from x (targets g from) _ t
              (laws.quiet n m x e (sym kind ∙ silent)) (ranked.falls from) (quiet silent) noted p
      ]

  high_head :
      (i : Item) (u : String) (r : List Item)
      → priority_of g i.receiver ≤ℤ i.priority
      → All (λ (j : Item). j.priority ≤ℤ level u) (i ∷ r)
      → priority_of g i.receiver ≤ℤ level u
  high_head i u r e (b, _) = omega arith

  pop_visit-IsOrdered :
      (done : List String) (s t : State N)
      → Ordered done s
      → pop_visit h d g s ≡ some t
      → (u : String) × Ordered (u ∷ done) t
  unfolding pop_visit visit
  pop_visit-IsOrdered done s t o p =
      let ((i, r), popped, after) = bind-eq-some (h.pop s.queue) _ p in
      let (n, found, next) = bind-eq-some (lookup i.receiver s.nodes) _ after in
      let (q, recalc, sent) = bind-eq-some (d.recalculate n) _ next in
      let perm = heap_laws.pop_perm s.queue r i popped in
      let (range, _) = All-Permᴰ (IsRanged d laws g level) perm o.ranged in
      let high = All-imp done (λ u b. high_head i u r range.0 (All-Permᴰ _ perm b)) o.below in
      (
        i.receiver,
        send-IsOrdered done i.receiver n q.0 q.1 _ t recalc
            (lookup-update_self i.receiver q.0 s.nodes)
            (λ x is.
              not_sent done i.receiver n q.0 x s (recalc ∙ ap (λ y. some (q.0, y)) is) found o)
            (ranked.raised i.receiver, high)
            (visited-IsOrdered done i r n q.0 q.1 s recalc found perm
              (heap_laws.pop_least s.queue r i popped) o)
            sent,
      )

  -- In a round each node sends at most once, and at its end no item is left and no node has anything
  -- to send. The priorities fall along every edge. At the start nothing was sent, every node that has
  -- something to send waits in the queue at its level, and no item is above the level or below the
  -- priority of its receiver. Levels are not below priorities, and are above them only for nodes that
  -- receive nothing but empty envelopes, which they ignore.
  pub sends_once :
      (fuel : ℕ) (s t : State N)
      → IsLayered d laws g level s.nodes
      → IsCovered d laws g level s
      → All (IsRanged d laws g level) s.queue
      → s.sent ≡ []
      → drain h d g fuel s ≡ Outcome.drained t
      → IsDistinct t.sent
        × (t.queue ≡ [])
        × ((u : String) (n : N) → lookup u t.nodes ≡ some n → d.recalculate n ≡ some (n, none))
  unfolding contains
  sends_once fuel s t layered covered ranged fresh p =
      let start : Ordered [] s = record {
        layered = layered;
        covered = covered;
        ranged = ranged;
        below = tt;
        settled = tt;
        noted = λ u c. cc (ap (contains u) fresh, c);
        once = subst IsDistinct (sym fresh) tt;
      } in
      let ((done, o), empty) =
        drain_rule h d g (λ s. (done : List String) × Ordered done s)
          (λ s t (done, o) p. let (u, o') = pop_visit-IsOrdered done s t o p in (u ∷ done, o')) fuel
          s.queue s t refl ([], start) p in
      (
        o.once,
        empty,
        λ u n found.
            elim (subst (λ q. (d.recalculate n ≡ some (n, none)) ⊎ WaitsAt u (level u) q) empty
              (o.covered u n found)) [ inl nothing ↦ nothing | inr w ↦ absurd w ],
      )
