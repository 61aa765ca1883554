-- ===== src/Risk/Applied.antt =====
-- In which order `AdjustRiskScore` of policy/risk_factor.go applies the risk factors.
use mathlib.Core.List.{Perm}
use cnspec.Risk.Merge.Rounds.{flatten}
use mathlib.Core.Path.{subst}
use cnspec.Common.{
  ◌≢◌, sym, some, ◌∷◌, zero, ◌⊎◌, inl, inr, ◌↔◌, [], All, arith, ◌∙◌, suc, List, ap, if◌then◌else◌,
  ◌||◌, ℤ, pos, negsuc, Bool, true, false, ◌≡◌, refl, is_pos,
}
use cnspec.Risk.Compare.{Sorted, either-IsComparison, is_neg, either, IsComparison}
use cnspec.Risk.Factor.{
  ScoredRiskInfo, RiskyScore, cmp_values, cmp_risk_factors, cmp_scored_risk_factors, Platform,
  RiskFactor, is_toxic, magnitude_value,
}
use cnspec.Risk.Adjust.{adjust_step, set_risk, adjust_risk_score}
use cnspec.Common.Order.{fold}
use cnspec.Common.Sums.{All-imp}
use cnspec.Risk.Merge.Sorting.{merge_sorted-Sorted}
use cnspec.Risk.Merge.{merge_sorted}

-- What the code relies on of `cmp.Compare`, of `!=` on floats that are not NaN, and of
-- `strings.Compare`.
pub record PlatformLaws (g : Platform) : Type 0 where
  pub floats : IsComparison g.compare
  pub strings : IsComparison g.compare_strings
  pub ne_compare : (x y : g.Float32) → g.ne x y ≡ (is_pos (g.compare x y) || is_neg (g.compare x y))

abbrev cmp_bools : Bool → Bool → ℤ
cmp_bools true false = pos 1
cmp_bools false true = negsuc 0
cmp_bools _ _ = pos 0

cmp_bools-IsComparison : IsComparison cmp_bools
cmp_bools-IsComparison = record { swap = λ a b. swapped a b; trans = λ a b c. chained a b c }
  where
    swapped : (a b : Bool) → is_neg (cmp_bools a b) ≡ is_pos (cmp_bools b a)
    swapped true true = refl
    swapped true false = refl
    swapped false true = refl
    swapped false false = refl

    chained :
        (a b c : Bool)
        → is_pos (cmp_bools a b) ≡ false
        → is_pos (cmp_bools b c) ≡ false
        → is_pos (cmp_bools a c) ≡ false
    chained true true c h k = k
    chained true false c h k = cc
    chained false b true h k = refl
    chained false b false h k = refl

-- Comparing by a key of the elements.
pull {ℓ κ} :
    {A : Type ℓ} {K : Type κ} (c : K → K → ℤ) (key : A → K)
    → IsComparison c
    → IsComparison (λ a b. c (key a) (key b))
pull c key ok = record {
  swap = λ a b. ok.swap (key a) (key b);
  trans = λ x y z. ok.trans (key x) (key y) (key z);
}

either_of_ne : (u v : ℤ) (b : Bool) → b ≡ (is_pos u || is_neg u) → (if b then u else v) ≡ either u v
either_of_ne (pos zero) v b e = ap (λ c. if c then pos zero else v) e
either_of_ne (pos (suc n)) v b e = ground arith
either_of_ne (negsuc n) v b e = ap (λ c. if c then negsuc n else v) e

first_toxic :
    (p q : Bool) (u : ℤ)
    → elim p [
      | true ↦ elim q [ true ↦ u | false ↦ pos 1 ]
      | false ↦ elim q [ true ↦ negsuc 0 | false ↦ u ]
    ]
      ≡ either (cmp_bools p q) u
first_toxic true true u = refl
first_toxic true false u = refl
first_toxic false true u = refl
first_toxic false false u = refl

module _ (g : Platform) where
  -- `a` may stand before `b` in the order of application, by what the two say: a factor that is
  -- not toxic before one that is, then the one with the lower magnitude, then the one with the
  -- lower MRN.
  abbrev pub Precedes : ScoredRiskInfo g → ScoredRiskInfo g → Type 0
  Precedes a b =
      let r = a.risk_factor in
      let s = b.risk_factor in
      let by_value = g.compare (magnitude_value g r) (magnitude_value g s) in
      ((is_toxic g r ≡ false) × (is_toxic g s ≡ true))
      ⊎ ((is_toxic g r ≡ is_toxic g s)
          × ((is_neg by_value ≡ true)
              ⊎ ((by_value ≡ pos zero) × (is_pos (g.compare_strings r.mrn s.mrn) ≡ false))))

  abbrev pub InOrder : List (ScoredRiskInfo g) → Type 0
  InOrder [] = Unit
  InOrder (x ∷ xs) = All (Precedes x) xs × InOrder xs

module _ (g : Platform) (laws : PlatformLaws g) where
  by_keys : RiskFactor g → RiskFactor g → ℤ
  by_keys a b = either (cmp_bools (is_toxic g a) (is_toxic g b)) (
      either (g.compare (magnitude_value g a) (magnitude_value g b))
        (g.compare_strings a.mrn b.mrn))

  cmp-by_keys : (a b : RiskFactor g) → cmp_risk_factors g a b ≡ by_keys a b
  unfolding cmp_risk_factors cmp_values by_keys
  cmp-by_keys a b =
      first_toxic (is_toxic g a) (is_toxic g b) _
      ∙ ap (either (cmp_bools (is_toxic g a) (is_toxic g b))) (
          either_of_ne _ (g.compare_strings a.mrn b.mrn) _
            (laws.ne_compare (magnitude_value g a) (magnitude_value g b)))

  by_keys-IsComparison : IsComparison by_keys
  unfolding by_keys
  by_keys-IsComparison =
      either-IsComparison _ _ (pull cmp_bools (is_toxic g) cmp_bools-IsComparison) (
        either-IsComparison _ _ (pull g.compare (magnitude_value g) laws.floats)
          (pull g.compare_strings (λ r. r.mrn) laws.strings))

  pub cmp-IsComparison : IsComparison (cmp_scored_risk_factors g)
  unfolding cmp_scored_risk_factors
  cmp-IsComparison =
      pull (cmp_risk_factors g) (λ r. r.risk_factor)
        (subst IsComparison (λ i a b. sym (cmp-by_keys a b) i) by_keys-IsComparison)

  not_after :
      (u v : ℤ)
      → (is_pos (either u v) ≡ false) ↔ ((is_neg u ≡ true) ⊎ ((u ≡ pos zero) × (is_pos v ≡ false)))
  not_after (pos zero) v = (λ h. inr (refl, h), λ h. ground arith)
  not_after (pos (suc n)) v = (λ h. absurd (ground arith), λ h. absurd (ground arith))
  not_after (negsuc n) v = (λ h. inl refl, λ h. refl)

  not_after_toxic :
      (p q : Bool) (u : ℤ) {X : Type 0}
      → (is_pos u ≡ false) ↔ X
      → (is_pos (either (cmp_bools p q) u) ≡ false) ↔ (((p ≡ false) × (q ≡ true)) ⊎ ((p ≡ q) × X))
  not_after_toxic true true u e = (
    λ h. inr (refl, e.0 h),
    λ h. elim h [ inl other ↦ absurd (cc (other.0)) | inr same ↦ e.1 same.1 ],
  )
  not_after_toxic true false u e = (
    λ h. absurd (cc h),
    λ h. elim h [ inl other ↦ absurd (cc (other.0)) | inr same ↦ absurd (cc (same.0)) ],
  )
  not_after_toxic false true u e = (λ h. inl (refl, refl), λ h. refl)
  not_after_toxic false false u e = (
    λ h. inr (refl, e.0 h),
    λ h. elim h [ inl other ↦ absurd (cc (other.1)) | inr same ↦ e.1 same.1 ],
  )

  -- The comparison of the source is this order.
  Before-Precedes :
      (a b : ScoredRiskInfo g) → (is_pos (cmp_scored_risk_factors g a b) ≡ false) ↔ Precedes g a b
  unfolding cmp_scored_risk_factors by_keys
  Before-Precedes a b = rw (cmp-by_keys a.risk_factor b.risk_factor) (
      not_after_toxic _ _ _ (
        not_after (g.compare (magnitude_value g a.risk_factor) (magnitude_value g b.risk_factor))
          (g.compare_strings a.risk_factor.mrn b.risk_factor.mrn)))

  Sorted-InOrder :
      (l : List (ScoredRiskInfo g)) → Sorted (cmp_scored_risk_factors g) l → InOrder g l
  Sorted-InOrder [] h = tt
  Sorted-InOrder (x ∷ xs) (a, h) =
      (All-imp xs (λ y. (Before-Precedes x y).0) a, Sorted-InOrder xs h)

  InOrder-Sorted :
      (l : List (ScoredRiskInfo g)) → InOrder g l → Sorted (cmp_scored_risk_factors g) l
  InOrder-Sorted [] h = tt
  InOrder-Sorted (x ∷ xs) (a, h) =
      (All-imp xs (λ y. (Before-Precedes x y).1) a, InOrder-Sorted xs h)

  -- Each array of factors is in order: factors that are not toxic first, then by magnitude, then by
  -- MRN. A score of 100 keeps its risk score of 100 and its risk factors. Any other score is
  -- adjusted once by every factor of the arrays, in one such order of them all.
  pub adjust-InOrder :
      (s : RiskyScore g) (t : List (ScoredRiskInfo g)) (ts : List (List (ScoredRiskInfo g)))
      → All (InOrder g) (t ∷ ts)
      → (s.score.value ≡ 100 → adjust_risk_score g (some s) (t ∷ ts) ≡ some (set_risk g 100 s))
        × (s.score.value ≢ 100
            → (l : List (ScoredRiskInfo g)) × Perm l (flatten (t ∷ ts))
              × InOrder g l
              × (adjust_risk_score g (some s) (t ∷ ts)
                  ≡ some (fold (adjust_step g) (set_risk g s.score.value s) l)))
  unfolding adjust_risk_score
  adjust-InOrder s t ts h =
      let c = cmp_scored_risk_factors g in
      let (all, sorted) =
        merge_sorted-Sorted c (t ∷ ts) cmp-IsComparison (All-imp (t ∷ ts) InOrder-Sorted h) in
      (
        λ e. ground arith,
        λ ne. (merge_sorted c (t ∷ ts), all, Sorted-InOrder _ sorted, ground arith),
      )
