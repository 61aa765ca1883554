-- ===== src/Common/Order.antt =====
-- A fold whose steps commute does not see the order of its list. Go ranges over a map in an
-- order that changes from run to run, so this is what makes such a loop deterministic.
use mathlib.Core.List.{Perm, Permᴰ}
use mathlib.Core.Logic.{∥∥₁_elim}
use mathlib.Core.Path.{◌≡◌, refl, ap, ap₂, ◌∙◌}
use mathlib.Core.List.{List, [], ◌∷◌}

module _ {ℓ κ} {A : Type ℓ} {S : Type κ} (step : S → A → S) where
  abbrev pub fold : S → List A → S
  fold s [] = s
  fold s (a ∷ l) = fold (step s a) l

  -- The steps commute at the states that satisfy `P`, which the steps keep.
  module _ {μ} (P : S → Type μ) (keep : (s : S) (a : A) → P s → P (step s a))
      (comm : (s : S) (a b : A) → P s → step (step s a) b ≡ step (step s b) a) where
    fold-Permᴰ : (s : S) → P s → {k l : List A} → Permᴰ k l → fold s k ≡ fold s l
    fold-Permᴰ s h Permᴰ.nil = refl
    fold-Permᴰ s h (Permᴰ.cons {a} {l₂ = l} e p) =
        fold-Permᴰ (step s a) (keep s a h) p ∙ ap (λ x. fold (step s x) l) e
    fold-Permᴰ s h (Permᴰ.swap {a} {b} {l = l} e f) =
        ap (λ x. fold x l) (comm s a b h) ∙ ap₂ (λ x y. fold (step (step s x) y) l) f e
    fold-Permᴰ s h (Permᴰ.trans p q) = fold-Permᴰ s h p ∙ fold-Permᴰ s h q

    -- What is observed of the last state is the same for every order.
    pub fold-Perm {ν} :
        {B : Type ν} (view : S → B)
        → IsSet B
        → (s : S) → P s
        → {k l : List A} → Perm k l
        → view (fold s k) ≡ view (fold s l)
    fold-Perm view is_set s h p = ∥∥₁_elim p (is_set _ _) (λ d. ap view (fold-Permᴰ s h d))
