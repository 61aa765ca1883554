-- ===== src/Graph/Execute/UpToDate.antt =====
-- Whenever `Execute` waits or ends, the graph is up to date.
use mathlib.Core.Option.{some-injective}
use mathlib.Core.Path.{subst}
use cnspec.Common.{
  ℕ, suc, length, Bool, true, false, Bool-cases, String, str_eq, eq_iff, List, [], ◌∷◌, Option,
  none, some, if◌then◌else◌, ◌≡◌, ◌⊎◌, inl, inr, refl, ap, arith, bind-eq-some,
}
use cnspec.Common.Dict.{lookup, update-cases}
use cnspec.Graph.{
  Item, Heap, HeapLaws, NodeData, Layout, State, Outcome, drained, panic, out_of_fuel, drain,
}
use cnspec.Graph.Level.{NodeLaws}
use cnspec.Graph.Settled.{Waits, IsCovered, push-Waits, drained_settled}
use cnspec.Graph.Execute.{
  Message, Batch, End, finished, stopped, waiting, panics, exhausted, result, collected, failed,
  item_for, initialize_all, receive, receive_all, accept, take_batch, is_failed, is_collected,
  rounds, execute,
}

module _ {N E : Type 0} (h : Heap) (heap_laws : HeapLaws h) (d : NodeData N E) (laws : NodeLaws d)
    (g : Layout) where
  abbrev Covered : State N → Type 0
  Covered = IsCovered h heap_laws d laws g

  -- No node has anything to send.
  abbrev pub IsUpToDate : State N → Type 0
  IsUpToDate s = (u : String) (n : N) → lookup u s.nodes ≡ some n → d.recalculate n ≡ some (n, none)

  abbrev pub EndsUpToDate : End N → Type 0
  EndsUpToDate (finished t) = IsUpToDate t
  EndsUpToDate (stopped t) = IsUpToDate t
  EndsUpToDate (waiting t) = IsUpToDate t
  EndsUpToDate panics = Unit
  EndsUpToDate exhausted = Unit

  initialize_all-Waits :
      (top : ℕ) (ns : List (String × N)) (q : List Item) (r : List (String × N) × List Item)
      (u : String)
      → initialize_all h d g false top ns q ≡ some r
      → Waits u q ⊎ ((n : N) × (lookup u r.0 ≡ some n))
      → Waits u r.1
  unfolding initialize_all lookup
  initialize_all-Waits top [] q r u e (inl w) =
      subst (λ (x : List (String × N) × List Item). Waits u x.1) (some-injective _ _ e) w
  initialize_all-Waits top [] q r u e (inr (n, found)) =
      cc (ap (λ (x : List (String × N) × List Item). lookup u x.0) (some-injective _ _ e), found)
  initialize_all-Waits top ((k, n) ∷ ns) q r u e w =
      let (m, _, after) = bind-eq-some (d.initialize n) _ e in
      let x = item_for h d g "__initialize__" top k in
      let (r', rest, last) =
        bind-eq-some (initialize_all h d g false top ns (h.push x q)) _ after in
      let same = some-injective _ _ last in
      let ih = initialize_all-Waits top ns (h.push x q) r' u rest in
      let first : lookup u ((k, m) ∷ r'.0) ≡ lookup u r.0 =
        ap (λ (y : List (String × N) × List Item). lookup u y.0) same in
      subst (λ (y : List (String × N) × List Item). Waits u y.1) same
        (elim w [
          | inl old ↦ ih (inl (push-Waits h heap_laws d laws g u x q (inr old)))
          | inr (y, found) ↦ elim (Bool-cases (str_eq k u)) [
            | inl is_k ↦
                ih (inl (push-Waits h heap_laws d laws g u x q (inl ((eq_iff k u).0 is_k))))
            | inr other ↦ ih (inr (y, ground arith))
          ]
        ])

  receive-IsCovered :
      (top : ℕ) (k : String) (e : E) (s t : State N)
      → Covered s
      → receive h d g top k e s ≡ some t
      → Covered t
  unfolding receive
  receive-IsCovered top k e s t c p =
      let (n, _, after) = bind-eq-some (lookup k s.nodes) _ p in
      let (m, _, last) = bind-eq-some (d.consume "" e n) _ after in
      let x = item_for h d g "" top k in
      subst Covered (some-injective _ _ last) λ u y f. elim (update-cases u k y m s.nodes f) [
        | inl (same, _) ↦ inr (push-Waits h heap_laws d laws g u x s.queue (inl same))
        | inr (_, old) ↦ elim (c u y old) [
          | inl nothing ↦ inl nothing
          | inr waits ↦ inr (push-Waits h heap_laws d laws g u x s.queue (inr waits))
        ]
      ]

  receive_all-IsCovered :
      (top : ℕ) (rs : List (String × E)) (s t : State N)
      → Covered s
      → receive_all h d g top rs s ≡ some t
      → Covered t
  unfolding receive_all
  receive_all-IsCovered top [] s t c p = subst Covered (some-injective _ _ p) c
  receive_all-IsCovered top ((k, e) ∷ rs) s t c p =
      let (u, first, rest) = bind-eq-some (receive h d g top k e s) _ p in
      receive_all-IsCovered top rs u t (receive-IsCovered top k e s u c first) rest

  accept-IsCovered :
      (top : ℕ) (m : Message E) (s t : State N)
      → Covered s
      → accept h d g top m s ≡ some t
      → Covered t
  unfolding accept
  accept-IsCovered top (result k e) s t c p = receive-IsCovered top k e s t c p
  accept-IsCovered top collected s t c p = subst Covered (some-injective _ _ p) c
  accept-IsCovered top failed s t c p = subst Covered (some-injective _ _ p) c

  round_ends :
      (o : Outcome N) (next : State N → End N)
      → ((t : State N) → o ≡ drained t → IsUpToDate t)
      → ((t : State N) → IsUpToDate t → EndsUpToDate (next t))
      → EndsUpToDate (elim o [ drained t ↦ next t | panic ↦ panics | out_of_fuel ↦ exhausted ])
  round_ends (drained t) next settles ends = ends t (settles t refl)
  round_ends panic next settles ends = tt
  round_ends out_of_fuel next settles ends = tt

  option_ends :
      {A : Type 0} (o : Option A) (next : A → End N)
      → ((t : A) → o ≡ some t → EndsUpToDate (next t))
      → EndsUpToDate (elim o [ none ↦ panics | some t ↦ next t ])
  option_ends none next ends = tt
  option_ends (some t) next ends = ends t refl

  take_batch-IsCovered :
      (top : ℕ) (b : Batch E) (s t : State N)
      → Covered s
      → take_batch h d g top b s ≡ some t
      → Covered t
  unfolding take_batch
  take_batch-IsCovered top b s t c p =
      let (u, first, rest) = bind-eq-some (accept h d g top b.first s) _ p in
      receive_all-IsCovered top b.rest u t (accept-IsCovered top b.first s u c first) rest

  choose :
      (b : Bool) (x y : End N) → EndsUpToDate x → EndsUpToDate y → EndsUpToDate (if b then x else y)
  choose true x y p q = p
  choose false x y p q = q

  rounds_end :
      (fuel top : ℕ) (rescore done : Bool) (bs : List (Batch E)) (s : State N)
      → Covered s
      → EndsUpToDate (rounds h d g fuel top rescore done bs s)
  unfolding rounds
  rounds_end fuel top rescore done [] s c =
      round_ends (drain h d g fuel s) _ (λ t e. drained_settled h heap_laws d laws g fuel s t c e)
        (λ t up. choose rescore _ _ up (choose done _ _ up up))
  rounds_end fuel top rescore done (b ∷ bs) s c =
      round_ends (drain h d g fuel s) _ (λ t e. drained_settled h heap_laws d laws g fuel s t c e)
        (λ t up. choose rescore _ _ up (
          choose done _ _ up (
            choose (is_failed h d g b.first) _ _ up (
              option_ends (take_batch h d g top b t) _ (λ u e.
                rounds_end fuel top rescore (is_collected h d g b.first) bs u
                  (take_batch-IsCovered top b t u (λ v n f. inl (up v n f)) e))))))

  -- Whenever `Execute` waits for a message, has all data or stops on an error, no node has anything
  -- left to send, whatever has arrived. This is outside of rescore mode, where all nodes are queued first.
  pub execute_up_to_date :
      (fuel : ℕ) (bs : List (Batch E)) (nodes : List (String × N))
      → EndsUpToDate (execute h d g fuel false bs nodes)
  unfolding execute
  execute_up_to_date fuel bs nodes =
      let top = suc (length nodes) in
      option_ends (initialize_all h d g false top nodes []) _ (λ r e.
        rounds_end fuel top false false bs (record { nodes = r.0; queue = r.1; sent = [] })
          (λ u n found. inr (initialize_all-Waits top nodes [] r u e (inr (n, found)))))
