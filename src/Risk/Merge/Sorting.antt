-- ===== src/Risk/Merge/Sorting.antt =====
-- The merge of sorted arrays sorts.
use mathlib.Core.Path.{subst}
use cnspec.Common.{
  sym, ap, zero, none, some, suc, [], ◌∷◌, inl, inr, ◌≡◌, arith, ◌≤◌, All, Option, ℤ, List, ℕ,
}
use mathlib.Core.List.Perm
use mathlib.Core.List.{Perm}
use cnspec.Risk.Compare.{IsComparison, Before, Sorted}
use cnspec.Risk.Merge.{heads, advance, total, round, rounds, merge_sorted}
use cnspec.Risk.Merge.Rounds.{
  HeadAt, flatten, round-cases, advance-All, advance-Perm, total-advance,
}

module _ {ℓ} {T : Type ℓ} where
  advance-Sorted :
      (cmp : T → T → ℤ) (n : ℕ) (ts : List (List T))
      → All (Sorted cmp) ts
      → All (Sorted cmp) (advance n ts)
  unfolding advance
  advance-Sorted cmp n [] h = tt
  advance-Sorted cmp zero ([] ∷ ts) h = h
  advance-Sorted cmp zero ((x ∷ xs) ∷ ts) (a, h) = (a.1, h)
  advance-Sorted cmp (suc n) (t ∷ ts) (a, h) = (a, advance-Sorted cmp n ts h)

  HeadAt-All {κ} :
      (P : T → Type κ) (n : ℕ) (x : T) (ts : List (List T)) → HeadAt n x ts → All (All P) ts → P x
  HeadAt-All P _ _ _ (HeadAt.here x xs us) h = h.0.0
  HeadAt-All P _ _ _ (HeadAt.there m x t us h) a = HeadAt-All P m x us h a.1

  module _ (cmp : T → T → ℤ) where
    rounds-step :
        (n : ℕ) (ts : List (List T)) (r : Option (T × List (List T)))
        → round cmp ts ≡ r
        → rounds cmp (suc n) ts ≡ elim r [ none ↦ [] | some q ↦ q.0 ∷ rounds cmp n q.1 ]
    unfolding rounds
    rounds-step n ts r e = ap (λ o. elim o [ none ↦ [] | some q ↦ q.0 ∷ rounds cmp n q.1 ]) e

    rounds-Perm : (n : ℕ) (ts : List (List T)) → total ts ≤ n → Perm (rounds cmp n ts) (flatten ts)
    unfolding rounds
    rounds-Perm zero ts h = elim (round-cases cmp ts) [
      | inl (e, z) ↦ subst (λ l. Perm [] l) (sym z) Perm.rfl
      | inr (k, x, e, at, least) ↦ absurd (ground (arith, total-advance k x ts at))
    ]
    rounds-Perm (suc n) ts h = elim (round-cases cmp ts) [
      | inl (e, z) ↦
          subst (λ l. Perm l (flatten ts)) (sym (rounds-step n ts none e))
            (subst (λ l. Perm [] l) (sym z) Perm.rfl)
      | inr (k, x, e, at, least) ↦
          subst (λ l. Perm l (flatten ts)) (sym (rounds-step n ts _ e))
            (Perm.trans
              (Perm.cons x (rounds-Perm n (advance k ts) (ground (arith, total-advance k x ts at))))
              (advance-Perm k x ts at))
    ]

    rounds-All {κ} :
        (P : T → Type κ) (n : ℕ) (ts : List (List T)) → All (All P) ts → All P (rounds cmp n ts)
    unfolding rounds
    rounds-All P zero ts h = tt
    rounds-All P (suc n) ts h = elim (round-cases cmp ts) [
      | inl (e, z) ↦ subst (All P) (sym (rounds-step n ts none e)) tt
      | inr (k, x, e, at, least) ↦
          subst (All P) (sym (rounds-step n ts _ e))
            (HeadAt-All P k x ts at h, rounds-All P n (advance k ts) (advance-All P k ts h))
    ]

    -- An element that is before every first element is before all elements.
    least-All :
        (ok : IsComparison cmp) (k : ℕ) (x : T) (ts : List (List T))
        → All (Sorted cmp) ts
        → All (λ c. Before cmp x c.1) (heads k ts)
        → All (All (Before cmp x)) ts
    unfolding heads
    least-All ok k x [] s h = tt
    least-All ok k x ([] ∷ ts) (a, s) h = (tt, least-All ok (suc k) x ts s h)
    least-All ok k x ((y ∷ ys) ∷ ts) ((a, b), s) (p, h) =
        ((p, weaken y ys p a), least-All ok (suc k) x ts s h)
      where
        weaken :
            (y : T) (ys : List T) → Before cmp x y → All (Before cmp y) ys → All (Before cmp x) ys
        weaken y [] p h = tt
        weaken y (z ∷ zs) p (q, h) = (ok.trans x y z p q, weaken y zs p h)

    rounds-Sorted :
        IsComparison cmp
        → (n : ℕ) (ts : List (List T)) → All (Sorted cmp) ts
        → Sorted cmp (rounds cmp n ts)
    unfolding rounds
    rounds-Sorted ok zero ts h = tt
    rounds-Sorted ok (suc n) ts h = elim (round-cases cmp ts) [
      | inl (e, z) ↦ subst (Sorted cmp) (sym (rounds-step n ts none e)) tt
      | inr (k, x, e, at, least) ↦ subst (Sorted cmp) (sym (rounds-step n ts _ e)) (
        rounds-All (Before cmp x) n (advance k ts)
            (advance-All _ k ts (least-All ok 0 x ts h (least ok))),
        rounds-Sorted ok n (advance k ts) (advance-Sorted cmp k ts h),
      )
    ]

    -- Where the comparison orders and each array is sorted, the merge yields every element of the
    -- arrays as often as it stands in them, in sorted order.
    pub merge_sorted-Sorted :
        (ts : List (List T))
        → IsComparison cmp
        → All (Sorted cmp) ts
        → Perm (merge_sorted cmp ts) (flatten ts) × Sorted cmp (merge_sorted cmp ts)
    unfolding merge_sorted
    merge_sorted-Sorted ts ok h =
        (rounds-Perm (total ts) ts (omega arith), rounds-Sorted ok (total ts) ts h)
