-- ===== src/Common/Dict.antt =====
-- Go's maps with string keys as association lists.
use cnspec.Common.{
  All, inr, inl, Bool-cases, ◌≢◌, ◌⊎◌, String, str_eq, eq_iff, List, [], ◌∷◌, Option, none, some,
  if◌then◌else◌, ◌≡◌, refl, arith,
}
use mathlib.Core.Path.{subst}

module _ {ℓ} {V : Type ℓ} where
  -- `v, ok := m[k]`
  unfoldable pub lookup : String → List (String × V) → Option V
  lookup k [] = none
  lookup k ((j, v) ∷ m) = let rest = lookup k m in if str_eq j k then some v else rest

  -- `m[k] = v`
  unfoldable pub update : String → V → List (String × V) → List (String × V)
  update k v [] = (k, v) ∷ []
  update k v ((j, w) ∷ m) =
      let rest = update k v m in if str_eq j k then (k, v) ∷ m else (j, w) ∷ rest

  pub lookup-update :
      (j k : String) (v : V) (m : List (String × V))
      → lookup j (update k v m) ≡ (if str_eq k j then some v else lookup j m)
  unfolding lookup update
  lookup-update j k v [] = refl
  lookup-update j k v ((i, w) ∷ m) =
      ground (arith, lookup-update j k v m, eq_iff k j, eq_iff i k, eq_iff i j)

  -- An entry after an update is the new one, or was there before.
  pub update-cases :
      (j k : String) (v w : V) (m : List (String × V))
      → lookup j (update k w m) ≡ some v
      → ((k ≡ j) × (w ≡ v)) ⊎ ((k ≢ j) × (lookup j m ≡ some v))
  update-cases j k v w m e = elim (Bool-cases (str_eq k j)) [
    | inl same ↦ inl ((eq_iff k j).0 same, ground (arith, lookup-update j k w m))
    | inr other ↦
        inr (λ same. cc (other, (eq_iff k j).1 same), ground (arith, lookup-update j k w m))
  ]

  pub lookup-update_self :
      (k : String) (v : V) (m : List (String × V)) → lookup k (update k v m) ≡ some v
  lookup-update_self k v m = ground (arith, lookup-update k k v m, eq_iff k k)

  -- What holds of every entry holds of the one that is looked up.
  pub lookup-All {κ} :
      (P : String → V → Type κ) (k : String) (v : V) (m : List (String × V))
      → All (λ e. P e.0 e.1) m
      → lookup k m ≡ some v
      → P k v
  unfolding lookup
  lookup-All P k v [] h e = cc
  lookup-All P k v ((j, w) ∷ m) (p, h) e = elim (Bool-cases (str_eq j k)) [
    | inl same ↦ subst (λ i. P i v) ((eq_iff j k).0 same) (subst (P j) (ground arith) p)
    | inr other ↦ lookup-All P k v m h (ground arith)
  ]
