-- ===== src/Common/Sums.antt =====
-- Sums over lists, which do not see the order.
use mathlib.Core.Path.{subst}
use mathlib.Core.List.{Permᴰ}
use cnspec.Common.{inr, inl, ◌⊎◌, ℕ, ◌+◌, List, [], ◌∷◌, All, ◌≡◌, refl, arith, ap}

module _ {ℓ} {A : Type ℓ} where
  unfoldable pub sum_of : (A → ℕ) → List A → ℕ
  sum_of w [] = 0
  sum_of w (x ∷ xs) = w x + sum_of w xs

  pub sum_cong : (w u : A → ℕ) (xs : List A) → All (λ x. w x ≡ u x) xs → sum_of w xs ≡ sum_of u xs
  unfolding sum_of
  sum_cong w u [] h = refl
  sum_cong w u (x ∷ xs) (e, h) = omega (arith, e, sum_cong w u xs h)

  pub sum-Permᴰ : (w : A → ℕ) {k l : List A} → Permᴰ k l → sum_of w k ≡ sum_of w l
  unfolding sum_of
  sum-Permᴰ w Permᴰ.nil = refl
  sum-Permᴰ w (Permᴰ.cons e p) = omega (arith, ap w e, sum-Permᴰ w p)
  sum-Permᴰ w (Permᴰ.swap e f) = omega (arith, ap w e, ap w f)
  sum-Permᴰ w (Permᴰ.trans p q) = omega (arith, sum-Permᴰ w p, sum-Permᴰ w q)

  pub All-imp {κ μ} :
      {P : A → Type κ} {Q : A → Type μ} (xs : List A) → ((x : A) → P x → Q x) → All P xs → All Q xs
  All-imp [] f h = tt
  All-imp (x ∷ xs) f (p, h) = (f x p, All-imp xs f h)

  pub All-Permᴰ {κ} : (P : A → Type κ) {k l : List A} → Permᴰ k l → All P k → All P l
  All-Permᴰ P Permᴰ.nil h = h
  All-Permᴰ P (Permᴰ.cons e p) (a, h) = (subst P e a, All-Permᴰ P p h)
  All-Permᴰ P (Permᴰ.swap e f) (a, (b, h)) = (subst P f b, (subst P e a, h))
  All-Permᴰ P (Permᴰ.trans p q) h = All-Permᴰ P q (All-Permᴰ P p h)

  pub All-imp₂ {κ μ ν} :
      {P : A → Type κ} {Q : A → Type μ} {R : A → Type ν} (xs : List A)
      → ((x : A) → P x → Q x → R x)
      → All P xs
      → All Q xs
      → All R xs
  All-imp₂ [] f h k = tt
  All-imp₂ (x ∷ xs) f (p, h) (q, k) = (f x p q, All-imp₂ xs f h k)

  -- Some element satisfies `P`.
  abbrev pub Any : (A → Type 0) → List A → Type 0
  Any P [] = ⊥
  Any P (x ∷ xs) = P x ⊎ Any P xs

  pub Any-Permᴰ : (P : A → Type 0) {k l : List A} → Permᴰ k l → Any P k → Any P l
  Any-Permᴰ P Permᴰ.nil w = w
  Any-Permᴰ P (Permᴰ.cons e p) (inl r) = inl (subst P e r)
  Any-Permᴰ P (Permᴰ.cons e p) (inr w) = inr (Any-Permᴰ P p w)
  Any-Permᴰ P (Permᴰ.swap e f) (inl r) = inr (inl (subst P e r))
  Any-Permᴰ P (Permᴰ.swap e f) (inr (inl r)) = inl (subst P f r)
  Any-Permᴰ P (Permᴰ.swap e f) (inr (inr w)) = inr (inr w)
  Any-Permᴰ P (Permᴰ.trans p q) w = Any-Permᴰ P q (Any-Permᴰ P p w)
