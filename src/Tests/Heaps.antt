-- ===== src/Tests/Heaps.antt =====
-- A priority queue for the tests: an unsorted list, from which a greatest item is taken.
use mathlib.Core.List.{Permᴰ}
use mathlib.Core.List.Permᴰ
use mathlib.Core.Option.{some-injective}
use mathlib.Core.Path.{subst}
use cnspec.Common.{
  List, [], ◌∷◌, Option, none, some, All, true, false, Bool-cases, if◌then◌else◌, ◌≡◌, refl, arith,
  inl, inr,
}
use cnspec.Common.Sums.{All-imp}
use cnspec.Graph.{Item, less, Heap, HeapLaws}

unfoldable pub extract : Item → List Item → Item × List Item
extract x [] = (x, [])
extract x (y ∷ q) = let r = extract y q in if less r.0 x then (r.0, x ∷ r.1) else (x, r.0 ∷ r.1)

unfoldable pub pop : List Item → Option (Item × List Item)
pop [] = none
pop (x ∷ q) = some (extract x q)

unfoldable pub list_heap : Heap
unfolding pop
list_heap = record { push = λ x q. x ∷ q; pop = pop }

extract-Permᴰ : (x : Item) (q : List Item) → Permᴰ (x ∷ q) ((extract x q).0 ∷ (extract x q).1)
unfolding extract
extract-Permᴰ x [] = Permᴰ.refl (x ∷ [])
extract-Permᴰ x (y ∷ q) =
    let rest : Permᴰ (x ∷ y ∷ q) (x ∷ (extract y q).0 ∷ (extract y q).1) =
      Permᴰ.cons refl (extract-Permᴰ y q) in
    elim (Bool-cases (less (extract y q).0 x)) [
      | inl first ↦ rw first (Permᴰ.trans rest (Permᴰ.swap refl refl))
      | inr later ↦ rw later rest
    ]

less_trans : (x y z : Item) → less y x ≡ false → less z y ≡ false → less z x ≡ false
unfolding less
less_trans x y z h k = ground arith

less_asym : (x y : Item) → less y x ≡ true → less x y ≡ false
unfolding less
less_asym x y h = ground arith

extract_least :
    (x : Item) (q : List Item) → All (λ y. less y (extract x q).0 ≡ false) (extract x q).1
unfolding extract
extract_least x [] = tt
extract_least x (y ∷ q) =
    let ih = extract_least y q in
    elim (Bool-cases (less (extract y q).0 x)) [
      | inl first ↦ rw first (less_asym x (extract y q).0 first, ih)
      | inr later ↦
          rw later
            (later, All-imp (extract y q).1 (λ z k. less_trans x (extract y q).0 z later k) ih)
    ]

pop_perm : (q r : List Item) (x : Item) → pop q ≡ some (x, r) → Permᴰ q (x ∷ r)
unfolding pop
pop_perm [] r x e = cc
pop_perm (y ∷ q) r x e =
    subst (λ (p : Item × List Item). Permᴰ (y ∷ q) (p.0 ∷ p.1)) (some-injective _ _ e)
      (extract-Permᴰ y q)

pop_least : (q r : List Item) (x : Item) → pop q ≡ some (x, r) → All (λ y. less y x ≡ false) r
unfolding pop
pop_least [] r x e = cc
pop_least (y ∷ q) r x e =
    subst (λ (p : Item × List Item). All (λ z. less z p.0 ≡ false) p.1) (some-injective _ _ e)
      (extract_least y q)

pub list_heap_laws : HeapLaws list_heap
unfolding list_heap pop
list_heap_laws = record {
  push_perm = λ x q. Permᴰ.refl (x ∷ q);
  pop_perm = pop_perm;
  pop_least = pop_least;
  pop_some = λ x q. (extract x q, refl);
}
