-- ===== src/Graph/Execute/Ends.antt =====
-- `Execute` does not run out of fuel.
use mathlib.Core.Option.{some-injective}
use cnspec.Common.{
  ℕ, suc, ◌+◌, ◌≤◌, length, Bool, true, false, not, ◌&&◌, String, List, [], ◌∷◌, Option, none, some,
  if◌then◌else◌, ◌≡◌, ◌≢◌, refl, ap, arith, bind-eq-some, All,
}
use cnspec.Common.Dict.{lookup}
use cnspec.Common.Sums.{sum_of, sum-Permᴰ}
use cnspec.Graph.{
  Item, Heap, HeapLaws, NodeData, Layout, State, Outcome, drained, panic, out_of_fuel, drain,
}
use cnspec.Graph.Drain.{IsAcyclic, weight, work, drain-ne-out_of_fuel}
use cnspec.Graph.Rule.{drain_rule}
use cnspec.Graph.Execute.{
  Message, Batch, End, finished, stopped, waiting, panics, exhausted, result, collected, failed,
  item_for, initialize_all, receive, receive_all, accept, take_batch, is_failed, is_collected,
  rounds, execute,
}

module _ {N E : Type 0} (h : Heap) (laws : HeapLaws h) (d : NodeData N E) (g : Layout)
    (rank : String → ℕ) (acyclic : IsAcyclic g rank) where
  abbrev mass : String → ℕ
  mass n = weight g rank acyclic n

  abbrev load : List Item → ℕ
  load q = work g rank acyclic q

  -- The steps that the messages of a batch lead to.
  unfoldable pub results_load : List (String × E) → ℕ
  results_load [] = 0
  results_load ((k, e) ∷ rs) = mass k + results_load rs

  unfoldable pub message_load : Message E → ℕ
  message_load (result k e) = mass k
  message_load collected = 0
  message_load failed = 0

  abbrev pub batch_load : Batch E → ℕ
  batch_load b = message_load b.first + results_load b.rest

  unfoldable pub nodes_load : List (String × N) → ℕ
  nodes_load [] = 0
  nodes_load ((k, n) ∷ ns) = mass k + nodes_load ns

  push_work : (x : Item) (q : List Item) → load (h.push x q) ≡ mass x.receiver + load q
  unfolding sum_of
  push_work x q = sum-Permᴰ (λ (i : Item). mass i.receiver) (laws.push_perm x q)

  initialize_all-work :
      (rescore : Bool) (top : ℕ) (ns : List (String × N)) (q : List Item)
      (r : List (String × N) × List Item)
      → initialize_all h d g rescore top ns q ≡ some r
      → load r.1 ≤ load q + nodes_load ns
  unfolding initialize_all nodes_load
  initialize_all-work rescore top [] q r e =
      omega (arith, ap (λ (x : List (String × N) × List Item). load x.1) (some-injective _ _ e))
  initialize_all-work rescore top ((k, n) ∷ ns) q r e =
      let (m, _, after) = bind-eq-some (d.initialize n) _ e in
      let x = item_for h d g "__initialize__" top k in
      let skips = rescore && not (d.is_static m) in
      let (r', rest, last) =
        bind-eq-some (initialize_all h d g rescore top ns (if skips then q else h.push x q)) _
          after in
      let ih = initialize_all-work rescore top ns (if skips then q else h.push x q) r' rest in
      let same = ap (λ (y : List (String × N) × List Item). load y.1) (some-injective _ _ last) in
      let queued : load (if skips then q else h.push x q) ≤ mass k + load q =
        ground (arith, push_work x q) in
      omega arith

  receive-work :
      (top : ℕ) (k : String) (e : E) (s t : State N)
      → receive h d g top k e s ≡ some t
      → load t.queue ≡ mass k + load s.queue
  unfolding receive
  receive-work top k e s t p =
      let (n, _, after) = bind-eq-some (lookup k s.nodes) _ p in
      let (m, _, last) = bind-eq-some (d.consume "" e n) _ after in
      omega (
        arith,
        push_work (item_for h d g "" top k) s.queue,
        ap (λ (x : State N). load x.queue) (some-injective _ _ last),
      )

  receive_all-work :
      (top : ℕ) (rs : List (String × E)) (s t : State N)
      → receive_all h d g top rs s ≡ some t
      → load t.queue ≡ results_load rs + load s.queue
  unfolding receive_all results_load
  receive_all-work top [] s t p =
      omega (arith, ap (λ (x : State N). load x.queue) (some-injective _ _ p))
  receive_all-work top ((k, e) ∷ rs) s t p =
      let (u, first, rest) = bind-eq-some (receive h d g top k e s) _ p in
      omega (arith, receive-work top k e s u first, receive_all-work top rs u t rest)

  accept-work :
      (top : ℕ) (m : Message E) (s t : State N)
      → accept h d g top m s ≡ some t
      → load t.queue ≡ message_load m + load s.queue
  unfolding accept message_load
  accept-work top (result k e) s t p = receive-work top k e s t p
  accept-work top collected s t p =
      omega (arith, ap (λ (x : State N). load x.queue) (some-injective _ _ p))
  accept-work top failed s t p =
      omega (arith, ap (λ (x : State N). load x.queue) (some-injective _ _ p))

  take_batch-work :
      (top : ℕ) (b : Batch E) (s t : State N)
      → take_batch h d g top b s ≡ some t
      → load t.queue ≡ batch_load b + load s.queue
  unfolding take_batch
  take_batch-work top b s t p =
      let (u, first, rest) = bind-eq-some (accept h d g top b.first s) _ p in
      omega (arith, accept-work top b.first s u first, receive_all-work top b.rest u t rest)

  round_ne :
      (o : Outcome N) (next : State N → End N)
      → o ≢ out_of_fuel
      → ((t : State N) → o ≡ drained t → next t ≢ exhausted)
      → elim o [ drained t ↦ next t | panic ↦ panics | out_of_fuel ↦ exhausted ] ≢ exhausted
  round_ne (drained t) next ends more = more t refl
  round_ne panic next ends more = λ e. cc
  round_ne out_of_fuel next ends more = absurd (ends refl)

  option_ne :
      {A : Type 0} (o : Option A) (next : A → End N)
      → ((t : A) → o ≡ some t → next t ≢ exhausted)
      → elim o [ none ↦ panics | some t ↦ next t ] ≢ exhausted
  option_ne none next more = λ e. cc
  option_ne (some t) next more = more t refl

  choose_ne :
      (b : Bool) (x y : End N) → x ≢ exhausted → y ≢ exhausted → (if b then x else y) ≢ exhausted
  choose_ne true x y p q = p
  choose_ne false x y p q = q

  ends_ne :
      (t : State N) → (finished t ≢ exhausted) × (stopped t ≢ exhausted) × (waiting t ≢ exhausted)
  ends_ne t = (λ e. cc, λ e. cc, λ e. cc)

  drained_empty : (fuel : ℕ) (s t : State N) → drain h d g fuel s ≡ drained t → load t.queue ≡ 0
  unfolding sum_of
  drained_empty fuel s t e =
      ap load (drain_rule h d g (λ s. Unit {0}) (λ s t u p. tt) fuel s.queue s t refl tt e).1

  rounds_ne :
      (fuel top : ℕ) (rescore done : Bool) (bs : List (Batch E)) (s : State N)
      → load s.queue ≤ fuel
      → All (λ b. batch_load b ≤ fuel) bs
      → rounds h d g fuel top rescore done bs s ≢ exhausted
  unfolding rounds
  rounds_ne fuel top rescore done [] s le all =
      round_ne (drain h d g fuel s) _
        (drain-ne-out_of_fuel g rank acyclic h laws d fuel s s.queue refl le)
        (λ t e.
          let (fin, _, wait) = ends_ne t in choose_ne rescore _ _ fin (choose_ne done _ _ fin wait))
  rounds_ne fuel top rescore done (b ∷ bs) s le (l, all) =
      round_ne (drain h d g fuel s) _
        (drain-ne-out_of_fuel g rank acyclic h laws d fuel s s.queue refl le)
        (λ t e.
          let (fin, stop, _) = ends_ne t in
          let empty = drained_empty fuel s t e in
          choose_ne rescore _ _ fin (
            choose_ne done _ _ fin (
              choose_ne (is_failed h d g b.first) _ _ stop (
                option_ne (take_batch h d g top b t) _ (λ u p.
                  rounds_ne fuel top rescore (is_collected h d g b.first) bs u
                    (omega (arith, take_batch-work top b t u p)) all)))))

  -- In a graph without cycles every round of `Execute` ends, in rescore mode and outside of it, whatever
  -- arrives. The fuel of a round is the number of paths that begin at all nodes, or at the
  -- receivers of a batch if there are more of those.
  pub execute_ends :
      (fuel : ℕ) (rescore : Bool) (bs : List (Batch E)) (nodes : List (String × N))
      → nodes_load nodes ≤ fuel
      → All (λ b. batch_load b ≤ fuel) bs
      → execute h d g fuel rescore bs nodes ≢ exhausted
  unfolding execute sum_of
  execute_ends fuel rescore bs nodes le all =
      let top = suc (length nodes) in
      option_ne (initialize_all h d g rescore top nodes []) _ (λ r e.
        rounds_ne fuel top rescore false bs (record { nodes = r.0; queue = r.1; sent = [] })
          (omega (arith, initialize_all-work rescore top nodes [] r e)) all)
