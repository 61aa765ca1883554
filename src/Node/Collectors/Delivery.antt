-- ===== src/Node/Collectors/Delivery.antt =====
-- Collectors hand over what has arrived.
use cnspec.Common.{
  Bool-cases, Bool, true, false, String, str_eq, List, [], ◌∷◌, Option, none, some, if◌then◌else◌,
  ◌≡◌, ◌⊎◌, inl, inr, refl, arith,
}
use cnspec.Common.Dict.{lookup, lookup-update}
use cnspec.Node.Collectors.{
  Collector, Event, arrive, recalc, handle, run, collect, recalculate, values,
}
use mathlib.Core.List.{Memᴰ}
use mathlib.Core.Path.{subst}

module _ {A : Type 0} where
  abbrev pub new_collector : Collector A
  new_collector = record { unreported = []; invalidated = false; sunk = [] }

  -- The last value that arrives for the key, or else `old`.
  unfoldable pub last_arrival : String → List (Event A) → Option A → Option A
  last_arrival k [] old = old
  last_arrival k (arrive j a ∷ es) old = last_arrival k es (if str_eq j k then some a else old)
  last_arrival k (recalc ∷ es) old = last_arrival k es old

  -- The value stands in a batch that was handed over.
  abbrev pub IsSunk : A → List (List A) → Type 0
  IsSunk a bs = (b : List A) × Memᴰ b bs × Memᴰ a b

  abbrev IsKept : String → Option A → Collector A → Type 0
  IsKept k none n = Unit
  IsKept k (some a) n =
      ((lookup k n.unreported ≡ some a) × (n.invalidated ≡ true)) ⊎ IsSunk a n.sunk

  mem-values :
      (k : String) (a : A) (m : List (String × A)) → lookup k m ≡ some a → Memᴰ a (values m)
  unfolding lookup values
  mem-values k a [] e = cc
  mem-values k a ((j, b) ∷ m) e = elim (Bool-cases (str_eq j k)) [
    | inl same ↦ Memᴰ.head (ground arith)
    | inr other ↦ Memᴰ.tail (mem-values k a m (ground arith))
  ]

  recalculate-sinks :
      (k : String) (a : A) (n : Collector A) → IsKept k (some a) n → IsSunk a (recalculate n).sunk
  unfolding recalculate
  recalculate-sinks k a n (inl (waits, fresh)) =
      rw fresh (values n.unreported, Memᴰ.head refl, mem-values k a n.unreported waits)
  recalculate-sinks k a n (inr (b, m, i)) = elim (Bool-cases n.invalidated) [
    | inl old ↦ rw old (b, Memᴰ.tail m, i)
    | inr done ↦ rw done (b, m, i)
  ]

  recalculate-IsKept :
      (k : String) (old : Option A) (n : Collector A)
      → IsKept k old n
      → IsKept k old (recalculate n)
  recalculate-IsKept k none n h = tt
  recalculate-IsKept k (some a) n h = inr (recalculate-sinks k a n h)

  replaced-IsKept :
      (k j : String) (a : A) (n : Collector A) (b : Bool)
      → str_eq j k ≡ b
      → (old : Option A) → IsKept k old n
      → IsKept k (if b then some a else old) (collect j a n)
  unfolding collect
  replaced-IsKept k j a n true e old h =
      inl (ground (arith, lookup-update k j a n.unreported), refl)
  replaced-IsKept k j a n false e none h = tt
  replaced-IsKept k j a n false e (some c) (inl (waits, _)) =
      inl (ground (arith, lookup-update k j a n.unreported), refl)
  replaced-IsKept k j a n false e (some c) (inr sunk) = inr sunk

  collect-IsKept :
      (k j : String) (a : A) (old : Option A) (n : Collector A)
      → IsKept k old n
      → IsKept k (if str_eq j k then some a else old) (collect j a n)
  collect-IsKept k j a old n h = replaced-IsKept k j a n (str_eq j k) refl old h

  run-IsKept :
      (k : String) (es : List (Event A)) (old : Option A) (n : Collector A)
      → IsKept k old n
      → IsKept k (last_arrival k es old) (run n es)
  unfolding run handle last_arrival
  run-IsKept k [] old n h = h
  run-IsKept k (arrive j a ∷ es) old n h = run-IsKept k es _ _ (collect-IsKept k j a old n h)
  run-IsKept k (recalc ∷ es) old n h = run-IsKept k es old _ (recalculate-IsKept k old n h)

  -- After any arrivals and recalculations of a new collector, a recalculation has handed over the last
  -- value that arrived for each key.
  pub delivers_last :
      (es : List (Event A)) (k : String) (a : A)
      → last_arrival k es none ≡ some a
      → IsSunk a (recalculate (run new_collector es)).sunk
  delivers_last es k a e =
      recalculate-sinks k a (run new_collector es)
        (subst (λ o. IsKept k o (run new_collector es)) e (run-IsKept k es none new_collector tt))
