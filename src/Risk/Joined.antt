-- ===== src/Risk/Joined.antt =====
-- `ScoredRiskFactors.Add` of policy/risk_factor.go as an update of a map from MRNs to factors.
use cnspec.Common.{
  String, str_eq, eq_iff, List, [], ◌∷◌, Option, none, some, if◌then◌else◌, ◌||◌, ◌≡◌, refl, arith,
  ◌∙◌, ap,
}
use cnspec.Common.Keys.{contains, IsDistinct}
use cnspec.Risk.Factor.{Platform, ScoredRiskFactor}
use cnspec.Risk.Adjust.{replace, add_factors}

module _ (g : Platform) where
  abbrev pub mrns : List (ScoredRiskFactor g) → List String
  mrns [] = []
  mrns (x ∷ xs) = x.mrn ∷ mrns xs

  -- The factor of an MRN.
  unfoldable pub lookup : String → List (ScoredRiskFactor g) → Option (ScoredRiskFactor g)
  lookup k [] = none
  lookup k (x ∷ xs) = let rest = lookup k xs in if str_eq x.mrn k then some x else rest

  -- The last factor of an MRN, or else `d`.
  unfoldable pub latest :
      String → List (ScoredRiskFactor g) → Option (ScoredRiskFactor g) → Option (ScoredRiskFactor g)
  latest k [] d = d
  latest k (x ∷ xs) d = latest k xs (if str_eq x.mrn k then some x else d)

  lookup-replace :
      (k : String) (nu : ScoredRiskFactor g) (xs : List (ScoredRiskFactor g))
      → lookup k (replace g nu xs) ≡ (if str_eq nu.mrn k then some nu else lookup k xs)
  unfolding lookup replace
  lookup-replace k nu [] = refl
  lookup-replace k nu (x ∷ xs) =
      ground (arith, lookup-replace k nu xs, eq_iff x.mrn nu.mrn, eq_iff x.mrn k, eq_iff nu.mrn k)

  contains-replace :
      (k : String) (nu : ScoredRiskFactor g) (xs : List (ScoredRiskFactor g))
      → contains k (mrns (replace g nu xs)) ≡ (str_eq nu.mrn k || contains k (mrns xs))
  unfolding contains replace
  contains-replace k nu [] = refl
  contains-replace k nu (x ∷ xs) =
      ground (arith, contains-replace k nu xs, eq_iff x.mrn nu.mrn, eq_iff x.mrn k, eq_iff nu.mrn k)

  contains_eq : (j k : String) (xs : List String) → j ≡ k → contains j xs ≡ contains k xs
  contains_eq j k xs e = rw e

  IsDistinct-replace :
      (nu : ScoredRiskFactor g) (xs : List (ScoredRiskFactor g))
      → IsDistinct (mrns xs)
      → IsDistinct (mrns (replace g nu xs))
  unfolding replace contains
  IsDistinct-replace nu [] d = (refl, tt)
  IsDistinct-replace nu (x ∷ xs) d = ground (
    arith,
    IsDistinct-replace nu xs d.1,
    contains-replace x.mrn nu xs,
    eq_iff x.mrn nu.mrn,
    eq_iff nu.mrn x.mrn,
    contains_eq x.mrn nu.mrn (mrns xs),
  )

  -- After joining, every MRN has its last factor in `other`, and its old one where `other` has none;
  -- and where no MRN stood twice, none does after joining.
  pub add-lookup :
      (s other : List (ScoredRiskFactor g))
      → ((k : String) → lookup k (add_factors g s (some other)) ≡ latest k other (lookup k s))
        × (IsDistinct (mrns s) → IsDistinct (mrns (add_factors g s (some other))))
  unfolding add_factors latest
  add-lookup s [] = (λ k. refl, λ d. d)
  add-lookup s (x ∷ xs) =
      let (found, distinct) = add-lookup (replace g x s) xs in
      (
        λ k. found k ∙ ap (latest k xs) (lookup-replace k x s),
        λ d. distinct (IsDistinct-replace x s d),
      )
