-- ===== src/Risk/Merge/Rounds.antt =====
-- What one round of the merge of sorted arrays takes, and what all rounds yield.
use mathlib.Core.List.Perm
use cnspec.Common.{
  negsuc, pos, sym, ℕ, zero, suc, ◌+◌, List, [], ◌∷◌, ◌++◌, none, some, Bool, true, false,
  if◌then◌else◌, ℤ, ◌≡◌, refl, All, arith, inl, inr, ◌∙◌, ◌⊎◌, is_pos,
}
use mathlib.Core.List.{Perm, perm_middle}
use mathlib.Core.Path.{subst}
use cnspec.Risk.Compare.{is_neg, IsComparison, Before}
use cnspec.Risk.Merge.{heads, advance, total, min_f, take_least, round}

module _ {ℓ} {T : Type ℓ} where
  abbrev pub flatten : List (List T) → List T
  flatten [] = []
  flatten (t ∷ ts) = t ++ flatten ts

  -- `x` is the first element of the `n`-th array.
  pub data HeadAt : ℕ → T → List (List T) → Type ℓ where
    here : (x : T) (xs : List T) (ts : List (List T)) → HeadAt zero x ((x ∷ xs) ∷ ts)
    there :
        (n : ℕ) (x : T) (t : List T) (ts : List (List T))
        → HeadAt n x ts
        → HeadAt (suc n) x (t ∷ ts)

  pub advance-Perm :
      (n : ℕ) (x : T) (ts : List (List T))
      → HeadAt n x ts
      → Perm (x ∷ flatten (advance n ts)) (flatten ts)
  unfolding advance
  advance-Perm _ _ _ (HeadAt.here x xs us) = Perm.rfl
  advance-Perm _ _ _ (HeadAt.there m x t us h) =
      Perm.trans (Perm.symm (perm_middle t _)) (Perm.append_left t (advance-Perm m x us h))

  pub total-advance :
      (n : ℕ) (x : T) (ts : List (List T)) → HeadAt n x ts → total ts ≡ suc (total (advance n ts))
  unfolding advance
  total-advance _ _ _ (HeadAt.here x xs us) = omega arith
  total-advance _ _ _ (HeadAt.there m x t us h) = ground (arith, total-advance m x us h)

  pub advance-All {κ} :
      (P : T → Type κ) (n : ℕ) (ts : List (List T)) → All (All P) ts → All (All P) (advance n ts)
  unfolding advance
  advance-All P n [] h = tt
  advance-All P zero ([] ∷ ts) h = h
  advance-All P zero ((x ∷ xs) ∷ ts) (a, h) = (a.1, h)
  advance-All P (suc n) (t ∷ ts) (a, h) = (a, advance-All P n ts h)

  shift : (k n : ℕ) (x : T) (ts : List (List T)) → HeadAt (k + suc n) x ts → HeadAt (suc k + n) x ts
  shift k n x ts = subst (λ i. HeadAt i x ts) (omega arith)

  -- Every entry of the scratch space is the first element of its array.
  heads-HeadAt :
      (k : ℕ) (all ts : List (List T))
      → ((n : ℕ) (x : T) → HeadAt n x ts → HeadAt (k + n) x all)
      → All (λ c. HeadAt c.0 c.1 all) (heads k ts)
  unfolding heads
  heads-HeadAt k all [] h = tt
  heads-HeadAt k all ([] ∷ ts) h =
      heads-HeadAt (suc k) all ts
        (λ n x m. shift k n x all (h (suc n) x (HeadAt.there n x [] ts m)))
  heads-HeadAt k all ((y ∷ ys) ∷ ts) h = (
    subst (λ i. HeadAt i y all) (omega arith) (h 0 y (HeadAt.here y ys ts)),
    heads-HeadAt (suc k) all ts
        (λ n x m. shift k n x all (h (suc n) x (HeadAt.there n x (y ∷ ys) ts m))),
  )

  no_heads : (k : ℕ) (ts : List (List T)) → heads k ts ≡ [] → flatten ts ≡ []
  unfolding heads
  no_heads k [] e = refl
  no_heads k ([] ∷ ts) e = no_heads (suc k) ts e
  no_heads k ((x ∷ xs) ∷ ts) e = cc

  module _ (cmp : T → T → ℤ) where
    choose {κ} : (P : ℕ × T → Type κ) (b : Bool) (c d : ℕ × T) → P c → P d → P (if b then d else c)
    choose P true c d p q = q
    choose P false c d p q = p

    min-All {κ} :
        (P : ℕ × T → Type κ) (c : ℕ × T) (cs : List (ℕ × T)) → P c → All P cs → P (min_f cmp c cs)
    unfolding min_f
    min-All P c [] p h = p
    min-All P c (d ∷ cs) p (q, h) =
        let b = is_neg (cmp d.1 c.1) in min-All P (if b then d else c) cs (choose P b c d p q) h

    not_both : (v : ℤ) → is_neg v ≡ is_pos v → is_pos v ≡ false
    not_both (pos n) h = sym h
    not_both (negsuc n) h = refl

    neg→Before : (v : ℤ) → is_neg v ≡ true → is_pos v ≡ false
    neg→Before (pos n) h = cc
    neg→Before (negsuc n) h = refl

    module _ (ok : IsComparison cmp) where
      Before-refl : (x : T) → Before cmp x x
      Before-refl x = not_both (cmp x x) (ok.swap x x)

      better-Before :
          (c d : ℕ × T)
          → Before cmp (if is_neg (cmp d.1 c.1) then d else c).1 c.1
            × Before cmp (if is_neg (cmp d.1 c.1) then d else c).1 d.1
      better-Before c d = go (is_neg (cmp d.1 c.1)) refl
        where
          go :
              (b : Bool)
              → is_neg (cmp d.1 c.1) ≡ b
              → Before cmp (if b then d else c).1 c.1 × Before cmp (if b then d else c).1 d.1
          go true e = (neg→Before (cmp d.1 c.1) e, Before-refl d.1)
          go false e = (Before-refl c.1, sym (ok.swap d.1 c.1) ∙ e)

      -- What `minF` returns is not above any element.
      min-Before :
          (c : ℕ × T) (cs : List (ℕ × T)) → All (λ d. Before cmp (min_f cmp c cs).1 d.1) (c ∷ cs)
      unfolding min_f
      min-Before c [] = (Before-refl c.1, tt)
      min-Before c (d ∷ cs) =
          let b = is_neg (cmp d.1 c.1) in
          let best = if b then d else c in
          let (first, rest) = min-Before best cs in
          let (to_c, to_d) = better-Before c d in
          let m = (min_f cmp best cs).1 in
          (ok.trans m best.1 c.1 first to_c, (ok.trans m best.1 d.1 first to_d, rest))

    taken :
        (ts : List (List T)) (hs : List (ℕ × T))
        → All (λ c. HeadAt c.0 c.1 ts) hs
        → (hs ≡ [] → flatten ts ≡ [])
        → (take_least cmp hs ts ≡ none) × (flatten ts ≡ [])
          ⊎ ((n : ℕ) × (x : T) × (take_least cmp hs ts ≡ some (x, advance n ts))
              × HeadAt n x ts
              × (IsComparison cmp → All (λ c. Before cmp x c.1) hs))
    unfolding take_least
    taken ts [] h e = inl (refl, e refl)
    taken ts (c ∷ cs) (p, h) e =
        let m = min_f cmp c cs in
        inr (m.0, m.1, refl, min-All (λ d. HeadAt d.0 d.1 ts) c cs p h, λ ok. min-Before ok c cs)

    -- A round takes the first element of some array, and none only when all arrays are used up.
    pub round-cases :
        (ts : List (List T))
        → (round cmp ts ≡ none) × (flatten ts ≡ [])
          ⊎ ((n : ℕ) × (x : T) × (round cmp ts ≡ some (x, advance n ts))
              × HeadAt n x ts
              × (IsComparison cmp → All (λ c. Before cmp x c.1) (heads 0 ts)))
    unfolding round
    round-cases ts =
        taken ts (heads 0 ts)
          (heads-HeadAt 0 ts ts (λ n x. subst (λ i. HeadAt i x ts) (omega arith))) (no_heads 0 ts)
