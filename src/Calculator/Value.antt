-- ===== src/Calculator/Value.antt =====
-- The value of an average, a weighted average and the worst of the children, against its
-- definition over all children at once.

use cnspec.Calculator
use mathlib.Core.List.{Memᴰ}
use cnspec.Calculator.Worst
use cnspec.Calculator.{
  average, weighted, worst, Float64, ltb, true, false, Impact, ℕ, Option, Bool, ScoreType, Score,
}
use cnspec.Calculator.Average
use cnspec.Calculator.Weighted
use cnspec.Calculator.Order.{add_entry, Entry}
use cnspec.Calculator.Load.{added, sum}
use cnspec.Common.{
  Bool-cases, refl, inr, inl, ◌⊎◌, All, ◌≤◌, [], if◌then◌else◌, ◌∷◌, arith, word, ◌==◌, ◌<◌, ◌*◌,
  ◌+◌, ◌&&◌, not, ◌≡◌, List,
}
use cnspec.Calculator.Tally.{is_ignored}
use cnspec.Common.Order.{fold}
use cnspec.Calculator.Worst.{lower_value}

abbrev pub rates : ScoreType → Bool → Option Impact → Bool
rates ScoreType.result flag i = not (is_ignored i)
rates ScoreType.error flag i = flag
rates _ flag i = false

-- The score has a value that the calculator takes into account; `flag` is the feature flag by
-- which errors count like results.
abbrev pub is_rated : Bool → Score → Option Impact → Bool
is_rated flag s i = rates s.type flag i && not (s.score_completion == 0)

unfoldable pub rated : Bool → ℕ → Score → Option Impact → ℕ
rated flag n s i = if is_rated flag s i then n else 0

abbrev pub count_of : Bool → Score → Option Impact → ℕ
count_of flag s i = rated flag 1 s i

abbrev pub value_of : Bool → Score → Option Impact → ℕ
value_of flag s i = rated flag s.value s i

abbrev pub weight_of : Bool → Score → Option Impact → ℕ
weight_of flag s i = rated flag s.weight s i

abbrev pub weighted_value_of : Bool → Score → Option Impact → ℕ
weighted_value_of flag s i = rated flag (s.value * s.weight) s i

module _ (flag : Bool) (s : Score) (i : Option Impact) where
  average-add :
      (c : Average.Average)
      → c.fail_errors ≡ flag
      → c.value + value_of flag s i < word
      → c.score_cnt + count_of flag s i < word
      → ((Average.add c s i).value ≡ c.value + value_of flag s i)
        × ((Average.add c s i).score_cnt ≡ c.score_cnt + count_of flag s i)
        × ((Average.add c s i).fail_errors ≡ flag)
  unfolding Average.add rated
  average-add c e h k = ground arith

  weighted-add :
      (c : Weighted.Weighted)
      → c.fail_errors ≡ flag
      → c.value + weighted_value_of flag s i < word
      → c.score_cnt + weight_of flag s i < word
      → ((Weighted.add c s i).value ≡ c.value + weighted_value_of flag s i)
        × ((Weighted.add c s i).score_cnt ≡ c.score_cnt + weight_of flag s i)
        × ((Weighted.add c s i).fail_errors ≡ flag)
  unfolding Weighted.add rated
  weighted-add c e h k = ground arith

pub add_average : Average.Average → Entry → Average.Average
add_average c e = Average.add c (added e).0 (added e).1

pub add_weighted : Weighted.Weighted → Entry → Weighted.Weighted
add_weighted c e = Weighted.add c (added e).0 (added e).1

module _ (flag : Bool) where
  pub average-fold :
      (k : List Entry) (c : Average.Average)
      → c.fail_errors ≡ flag
      → c.value + sum (value_of flag) k < word
      → c.score_cnt + sum (count_of flag) k < word
      → ((fold add_average c k).value ≡ c.value + sum (value_of flag) k)
        × ((fold add_average c k).score_cnt ≡ c.score_cnt + sum (count_of flag) k)
  unfolding add_average
  average-fold [] c e h m = omega arith
  average-fold (x ∷ k) c e h m =
      let (v, n, same) = average-add flag (added x).0 (added x).1 c e (omega arith) (omega arith) in
      omega
        (arith, v, n, average-fold k (add_average c x) same (omega (arith, v)) (omega (arith, n)))

  pub weighted-fold :
      (k : List Entry) (c : Weighted.Weighted)
      → c.fail_errors ≡ flag
      → c.value + sum (weighted_value_of flag) k < word
      → c.score_cnt + sum (weight_of flag) k < word
      → ((fold add_weighted c k).value ≡ c.value + sum (weighted_value_of flag) k)
        × ((fold add_weighted c k).score_cnt ≡ c.score_cnt + sum (weight_of flag) k)
  unfolding add_weighted
  weighted-fold [] c e h m = omega arith
  weighted-fold (x ∷ k) c e h m =
      let (v, n, same) =
        weighted-add flag (added x).0 (added x).1 c e (omega arith) (omega arith) in
      omega
        (arith, v, n, weighted-fold k (add_weighted c x) same (omega (arith, v)) (omega (arith, n)))

-- The score takes part in the search for the worst.
abbrev pub is_ranked : Bool → Score → Option Impact → Bool
is_ranked flag s i = is_rated flag s i && not (s.weight == 0)

worst-add :
    (flag : Bool) (s : Score) (i : Option Impact) (c : Worst.Worst)
    → c.fail_errors ≡ flag
    → ((Worst.add c s i).value
        ≡ (if is_ranked flag s i && ltb s.value c.value then s.value else c.value))
      × ((Worst.add c s i).fail_errors ≡ flag)
unfolding Worst.add lower_value
worst-add flag s i c e = ground arith

pub add_worst : Worst.Worst → Entry → Worst.Worst
add_worst c e = Worst.add c (added e).0 (added e).1

-- The child takes part in the search, with the value v.
abbrev pub RankedAt : Bool → ℕ → Entry → Type 0
RankedAt flag v e = let (s, i) = added e in (is_ranked flag s i ≡ true) × (s.value ≡ v)

abbrev pub AtMost : Bool → ℕ → Entry → Type 0
AtMost flag v e = let (s, i) = added e in is_ranked flag s i ≡ true → v ≤ s.value

module _ (flag : Bool) where
  pub worst-fold :
      (k : List Entry) (c : Worst.Worst)
      → c.fail_errors ≡ flag
      → let v = (fold add_worst c k).value in
        (v ≤ c.value)
        × All (AtMost flag v) k
        × ((v ≡ c.value) ⊎ ((e : Entry) × Memᴰ e k × RankedAt flag v e))
  unfolding add_worst
  worst-fold [] c e = (omega arith, tt, inl refl)
  worst-fold (x ∷ k) c e =
      let (v, same) = worst-add flag (added x).0 (added x).1 c e in
      let (below, all, attained) = worst-fold k (add_worst c x) same in
      (
        ground arith,
        ((λ ranked. ground arith), all),
        elim attained [
          | inl kept ↦
              elim (Bool-cases
                (is_ranked flag (added x).0 (added x).1 && ltb (added x).0.value c.value)) [
                  | inl lower ↦ inr (x, Memᴰ.head refl, (ground arith, ground arith))
                  | inr higher ↦ inl (ground arith)
                ]
          | inr (e, m, r) ↦ inr (e, Memᴰ.tail m, r)
        ],
      )

module _ (f : Float64) where
  pub fold-average :
      (k : List Entry) (c : Average.Average)
      → fold (add_entry f) (average c) k ≡ average (fold add_average c k)
  unfolding add_entry add_average Calculator.add_specd_score Calculator.add
  fold-average [] c = refl
  fold-average (e ∷ k) c = fold-average k (add_average c e)

  pub fold-weighted :
      (k : List Entry) (c : Weighted.Weighted)
      → fold (add_entry f) (weighted c) k ≡ weighted (fold add_weighted c k)
  unfolding add_entry add_weighted Calculator.add_specd_score Calculator.add
  fold-weighted [] c = refl
  fold-weighted (e ∷ k) c = fold-weighted k (add_weighted c e)

  pub fold-worst :
      (k : List Entry) (c : Worst.Worst)
      → fold (add_entry f) (worst c) k ≡ worst (fold add_worst c k)
  unfolding add_entry add_worst Calculator.add_specd_score Calculator.add
  fold-worst [] c = refl
  fold-worst (e ∷ k) c = fold-worst k (add_worst c e)
