-- ===== src/Impact/Base.antt =====
-- What layering impacts over one another gives, for `Impact.AddBase` of policy/explorer_impact.go.
use cnspec.Impact.{Impact, ScoringSystem, Action, add_base}
use cnspec.Common.{
  ℤ, pos, negsuc, zero, suc, Bool, true, false, Bool-cases, Option, none, some, List, [], ◌∷◌, map,
  if◌then◌else◌, ◌≡◌, refl, ◌∙◌, inl, inr, arith,
}
use cnspec.Common.Order.{fold}

-- The first element that the test holds of, and the last element where it holds of none.
abbrev pub first_set {ℓ} : {A : Type ℓ} → (A → Bool) → A → List A → A
first_set is_set a [] = a
first_set is_set a (b ∷ bs) = if is_set a then a else first_set is_set b bs

abbrev pub is_given : Option ℤ → Bool
is_given none = false
is_given (some v) = true

abbrev pub is_chosen : ScoringSystem → Bool
is_chosen ScoringSystem.scoring_unspecified = false
is_chosen _ = true

-- A weight is set if it is positive.
abbrev pub is_weighed : ℤ → Bool
is_weighed (pos zero) = false
is_weighed (pos (suc n)) = true
is_weighed (negsuc n) = false

abbrev pub is_decided : Action → Bool
is_decided Action.unspecified = false
is_decided _ = true

first_set_self {ℓ} :
    {A : Type ℓ} (t : A → Bool) (a : A) (bs : List A) → t a ≡ true → first_set t a bs ≡ a
first_set_self t a [] h = refl
first_set_self t a (b ∷ bs) h = rw h refl

first_set-if {ℓ} :
    {A : Type ℓ} (t : A → Bool) (a b : A) (bs : List A)
    → first_set t (if t a then a else b) bs ≡ first_set t a (b ∷ bs)
first_set-if t a b bs = elim (Bool-cases (t a)) [
  | inl set ↦ rw set (first_set_self t a bs set)
  | inr unset ↦ rw unset refl
]

-- Each field of an impact over a base.
module _ (v b : Impact) where
  value-add_base : (add_base v (some b)).value ≡ (if is_given v.value then v.value else b.value)
  unfolding add_base
  value-add_base = ground arith

  scoring-add_base :
      (add_base v (some b)).scoring ≡ (if is_chosen v.scoring then v.scoring else b.scoring)
  unfolding add_base
  scoring-add_base = ground arith

  weight-add_base :
      (add_base v (some b)).weight ≡ (if is_weighed v.weight then v.weight else b.weight)
  unfolding add_base
  weight-add_base = ground arith

  action-add_base :
      (add_base v (some b)).action ≡ (if is_decided v.action then v.action else b.action)
  unfolding add_base
  action-add_base = ground arith

-- A field of an impact that was layered over all of the bases, one after the other.
module _ {A : Type 0} (t : A → Bool) (field : Impact → A)
    (over : (v b : Impact)
      → field (add_base v (some b)) ≡ (if t (field v) then field v else field b)) where
  field_lem :
      (v : Impact) (bases : List Impact)
      → field (fold (λ a b. add_base a (some b)) v bases) ≡ first_set t (field v) (map field bases)
  field_lem v [] = refl
  field_lem v (b ∷ bases) =
      field_lem (add_base v (some b)) bases
      ∙ rw (over v b) (first_set-if t (field v) (field b) (map field bases))

-- An impact that is layered over bases, one after the other, has the first value that it or one of
-- them gives, the first scoring system and the first action that are not unspecified, and the
-- first weight above 0; where there is none, it has what the last base has. Without a base nothing
-- changes.
pub layer_fields :
    (v : Impact) (bases : List Impact)
    → let r = fold (λ a b. add_base a (some b)) v bases in
      (r.value ≡ first_set is_given v.value (map (λ (i : Impact). i.value) bases))
      × (r.scoring ≡ first_set is_chosen v.scoring (map (λ (i : Impact). i.scoring) bases))
      × (r.weight ≡ first_set is_weighed v.weight (map (λ (i : Impact). i.weight) bases))
      × (r.action ≡ first_set is_decided v.action (map (λ (i : Impact). i.action) bases))
      × (add_base v none ≡ v)
unfolding add_base
layer_fields v bases = (
  field_lem is_given (λ i. i.value) value-add_base v bases,
  field_lem is_chosen (λ i. i.scoring) scoring-add_base v bases,
  field_lem is_weighed (λ i. i.weight) weight-add_base v bases,
  field_lem is_decided (λ i. i.action) action-add_base v bases,
  refl,
)
