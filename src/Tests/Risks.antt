-- ===== src/Tests/Risks.antt =====
-- Risk factors of an asset and of a check.
use cnspec.Risk.Recorded.{factors, all_noted, adjust_notes}
use cnspec.Common.{
  ◌++◌, ◌≢◌, All, some, none, ℕ, ℤ, pos, negsuc, Bool, true, false, not, ltb, ◌==◌, if◌then◌else◌,
  inl, String, str_eq, List, [], ◌∷◌, ◌+◌, ◌-◌, ◌*◌, ◌≡◌, refl, arith,
}
use cnspec.Risk.Applied.{adjust-InOrder, InOrder, PlatformLaws}
use cnspec.Risk.Joined.{lookup, latest, mrns, add-lookup}
use cnspec.Risk.Adjust.{adjust_risk_score, adjust_step, set_risk, add_factors, replace}
use cnspec.Common.Order.{fold}
use cnspec.Common.Keys.{IsDistinct}
use cnspec.Risk.Compare.{Sorted, IsComparison}
use cnspec.Risk.Merge.Rounds.{flatten}
use mathlib.Core.List.{Perm}
use cnspec.Score.{zero_score}
use cnspec.Risk.Merge.{merge_sorted, rounds, round, take_least, heads, min_f, advance}
use cnspec.Risk.Factor.{
  is_toxic, magnitude_value, Platform, ScoredRiskFactor, ScoredRiskInfo, RiskyScore, ScopeType,
}
use cnspec.Risk.Merge.Sorting.{merge_sorted-Sorted}

abbrev compare_naturals : ℕ → ℕ → ℤ
compare_naturals a b = if ltb a b then negsuc 0 else if a == b then pos 0 else pos 1

-- The order of the names that the tests use.
abbrev rank : String → ℕ
rank s = if str_eq s "a" then 0 else if str_eq s "b" then 1 else 2

abbrev natural_floats : Platform
natural_floats = record {
  Float32 = ℕ;
  of_ℕ = λ n. n;
  add = λ x y. x + y;
  sub = λ x y. x - y;
  mul = λ x y. x * y;
  neg = λ x. x;
  lt = ltb;
  ne = λ x y. not (x == y);
  to_int = pos;
  to_uint32 = λ n. n;
  compare = compare_naturals;
  compare_strings = λ s t. compare_naturals (rank s) (rank t);
}

naturals-IsComparison : IsComparison compare_naturals
naturals-IsComparison = record { swap = λ a b. ground arith; trans = λ a b c h k. ground arith }

natural_laws : PlatformLaws natural_floats
natural_laws = record {
  floats = naturals-IsComparison;
  strings = record {
    swap = λ a b. naturals-IsComparison.swap (rank a) (rank b);
    trans = λ a b c. naturals-IsComparison.trans (rank a) (rank b) (rank c);
  };
  ne_compare = λ x y. ground arith;
}

abbrev arrays : List (List ℕ)
arrays = (1 ∷ 4 ∷ []) ∷ [] ∷ (2 ∷ 3 ∷ []) ∷ []

merge_run : merge_sorted compare_naturals arrays ≡ 1 ∷ 2 ∷ 3 ∷ 4 ∷ []
unfolding merge_sorted rounds round take_least heads min_f advance
merge_run = refl

merge_sorted-Sorted_example :
    Perm (merge_sorted compare_naturals arrays) (flatten arrays)
    × Sorted compare_naturals (merge_sorted compare_naturals arrays)
merge_sorted-Sorted_example =
    merge_sorted-Sorted compare_naturals arrays naturals-IsComparison
      (((refl, tt), (tt, tt)), (tt, (((refl, tt), (tt, tt)), tt)))

abbrev info : String → ℕ → Bool → ScoredRiskInfo natural_floats
info m v toxic = record {
  risk_factor = record {
    mrn = m;
    scope = ScopeType.asset;
    deprecated_v11_magnitude = 0;
    deprecated_v11_is_absolute = false;
    magnitude = some (record { value = v; is_toxic = toxic });
    software = [];
    resources = [];
  };
  scored_risk_factor = record { mrn = m; risk = 0; is_toxic = toxic; is_detected = true };
}

abbrev risky : RiskyScore natural_floats
risky = record { score = record zero_score { value = 60 }; risk_factors = none }

abbrev asset_risks : List (ScoredRiskInfo natural_floats)
asset_risks = info "b" 10 false ∷ info "a" 20 true ∷ []

abbrev check_risks : List (ScoredRiskInfo natural_floats)
check_risks = info "a" 10 false ∷ []

risks-InOrder : All (InOrder natural_floats) (asset_risks ∷ check_risks ∷ [])
unfolding is_toxic magnitude_value
risks-InOrder = (((inl (refl, refl), tt), (tt, tt)), ((tt, tt), tt))

adjust-InOrder_example :
    (risky.score.value ≡ 100
      → adjust_risk_score natural_floats (some risky) (asset_risks ∷ check_risks ∷ [])
        ≡ some (set_risk natural_floats 100 risky))
    × (risky.score.value ≢ 100
        → (l : List (ScoredRiskInfo natural_floats)) × Perm l
            (flatten (asset_risks ∷ check_risks ∷ []))
          × InOrder natural_floats l
          × (adjust_risk_score natural_floats (some risky) (asset_risks ∷ check_risks ∷ [])
              ≡ some (
                  fold
                    (adjust_step natural_floats)
                    (set_risk natural_floats risky.score.value risky)
                    l)))
adjust-InOrder_example =
    adjust-InOrder natural_floats natural_laws risky asset_risks (check_risks ∷ []) risks-InOrder

abbrev factor : String → ℕ → ScoredRiskFactor natural_floats
factor m v = record { mrn = m; risk = v; is_toxic = false; is_detected = true }

abbrev old_factors : List (ScoredRiskFactor natural_floats)
old_factors = factor "a" 1 ∷ factor "b" 2 ∷ []

abbrev new_factors : List (ScoredRiskFactor natural_floats)
new_factors = factor "b" 3 ∷ factor "c" 4 ∷ []

add_run :
    add_factors natural_floats old_factors (some new_factors)
    ≡ factor "a" 1 ∷ factor "b" 3 ∷ factor "c" 4 ∷ []
unfolding add_factors replace
add_run = refl

add-lookup_example :
    ((k : String)
      → lookup natural_floats k (add_factors natural_floats old_factors (some new_factors))
        ≡ latest natural_floats k new_factors (lookup natural_floats k old_factors))
    × (IsDistinct (mrns natural_floats old_factors)
        → IsDistinct
            (mrns natural_floats (add_factors natural_floats old_factors (some new_factors))))
add-lookup_example = add-lookup natural_floats old_factors new_factors

adjust_notes_example :
    factors natural_floats (fold (adjust_step natural_floats) risky asset_risks)
    ≡ factors natural_floats risky ++ all_noted natural_floats asset_risks
adjust_notes_example = adjust_notes natural_floats risky asset_risks
