-- ===== src/Risk/Merge.antt =====
-- `mergeSorted` and `minF` of policy/risk_factor.go: the merge of sorted arrays by repeatedly
-- taking a least first element. A cursor into an array is kept as what is left of the array.
pub mod Rounds
pub mod Sorting
use cnspec.Common.{
  ℕ, zero, suc, ◌+◌, List, [], ◌∷◌, ◌++◌, Option, none, some, Bool, if◌then◌else◌, ℤ, length,
}
use cnspec.Risk.Compare.{is_neg}

module _ {ℓ} {T : Type ℓ} where
  -- `scratch` and `scratchIdx`: the arrays that are not at their end, with the element at the cursor.
  unfoldable pub heads : ℕ → List (List T) → List (ℕ × T)
  heads i [] = []
  heads i ([] ∷ ts) = heads (suc i) ts
  heads i ((x ∷ xs) ∷ ts) = (i, x) ∷ heads (suc i) ts

  -- `cursors[n]++`.
  unfoldable pub advance : ℕ → List (List T) → List (List T)
  advance n [] = []
  advance zero ([] ∷ ts) = [] ∷ ts
  advance zero ((x ∷ xs) ∷ ts) = xs ∷ ts
  advance (suc n) (t ∷ ts) = t ∷ advance n ts

  abbrev pub total : List (List T) → ℕ
  total [] = 0
  total (t ∷ ts) = length t + total ts

  module _ (cmp : T → T → ℤ) where
    -- The loop of `minF`, with the least element so far.
    unfoldable pub min_f : ℕ × T → List (ℕ × T) → ℕ × T
    min_f m [] = m
    min_f m (c ∷ cs) = min_f (if is_neg (cmp c.1 m.1) then c else m) cs

    unfoldable pub take_least : List (ℕ × T) → List (List T) → Option (T × List (List T))
    take_least [] ts = none
    take_least (c ∷ cs) ts = some ((min_f c cs).1, advance (min_f c cs).0 ts)

    -- One round of the loop: the element that is yielded, and the arrays after it.
    unfoldable pub round : List (List T) → Option (T × List (List T))
    round ts = take_least (heads 0 ts) ts

    -- The elements yielded in `fuel` rounds.
    unfoldable pub rounds : ℕ → List (List T) → List T
    rounds zero ts = []
    rounds (suc n) ts = elim (round ts) [ none ↦ [] | some r ↦ r.0 ∷ rounds n r.1 ]

    unfoldable pub merge_sorted : List (List T) → List T
    merge_sorted ts = rounds (total ts) ts
