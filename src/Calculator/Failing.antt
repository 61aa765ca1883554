-- ===== src/Calculator/Failing.antt =====
-- Which checks fail, by the severity of their impacts, and that the banded calculator of
-- policy/score_calculator.go has their weights.
use cnspec.Calculator.Banded
use cnspec.Calculator.Banded.{Bands, Band, band_of, category, file_weight, impact_category}
use cnspec.Calculator.Order.{Entry}
use cnspec.Calculator.Load.{added, sum}
use cnspec.Calculator.Tally.{is_ignored}
use cnspec.Impact.{Impact}
use cnspec.Score.{Score, ScoreType}
use cnspec.Common.{
  ℕ, ◌+◌, ◌<◌, ◌≤◌, ℤ, pos, negsuc, word, Bool, true, false, ◌&&◌, not, leb, ltb, ◌==◌, Option,
  none, some, List, [], ◌∷◌, All, if◌then◌else◌, ◌≡◌, refl, arith,
}
use cnspec.Common.Order.{fold}

-- The impact value of a check is a Go `int32`.
abbrev IsInt32 : Option ℤ → Type 0
IsInt32 none = Unit
IsInt32 (some (pos n)) = n < 2147483648
IsInt32 (some (negsuc n)) = n < 2147483648

abbrev pub HasInt32 : Option Impact → Type 0
HasInt32 none = Unit
HasInt32 (some i) = IsInt32 i.value

-- Critical from 90, high from 70 and medium from 40, up to 100; a value outside of 0 to 100 is low,
-- and a missing one critical.
value_band : Option ℤ → Band
value_band none = Band.critical
value_band (some (negsuc n)) = Band.low
value_band (some (pos v)) =
    if ltb 100 v
    then Band.low
    else if leb 90 v
    then Band.critical
    else if leb 70 v
    then Band.high
    else if leb 40 v
    then Band.medium
    else Band.low

unfoldable pub impact_band : Option Impact → Band
unfolding value_band
impact_band none = Band.critical
impact_band (some i) = value_band i.value

abbrev is_band : Band → Band → Bool
is_band Band.critical Band.critical = true
is_band Band.high Band.high = true
is_band Band.medium Band.medium = true
is_band Band.low Band.low = true
is_band _ _ = false

abbrev is_result : ScoreType → Bool
is_result ScoreType.result = true
is_result _ = false

-- The score is a result that is not ignored, is scored, and is below 100.
abbrev fails : Score → Option Impact → Bool
fails s i =
    is_result s.type && (not (is_ignored i) && (not (s.score_completion == 0) && ltb s.value 100))

-- The weight of a failing check of the band, and 0 for any other child.
unfoldable pub failed_weight : Band → Score → Option Impact → ℕ
unfolding impact_band
failed_weight j s i = if fails s i && is_band (impact_band i) j then s.weight else 0

unfoldable pub failing_of : Band → Bands → ℕ
failing_of Band.critical b = b.crit
failing_of Band.high b = b.high
failing_of Band.medium b = b.mid
failing_of Band.low b = b.low

band_of-value : (v : Option ℤ) → IsInt32 v → band_of (impact_category v) ≡ value_band v
unfolding band_of impact_category value_band
band_of-value none h = refl
band_of-value (some (pos n)) h = ground arith
band_of-value (some (negsuc n)) h = ground arith

band_of-category : (i : Option Impact) → HasInt32 i → band_of (category i) ≡ impact_band i
unfolding category impact_band
band_of-category none h = band_of-value none tt
band_of-category (some i) h = band_of-value i.value h

file_weight-failing :
    (j k : Band) (b : Bands) (s : Score)
    → failing_of j b + s.weight < word
    → failing_of j (file_weight k b s)
      ≡ (if is_band k j && ltb s.value 100 then failing_of j b + s.weight else failing_of j b)
unfolding failing_of file_weight
file_weight-failing Band.critical k b s lt = ground arith
file_weight-failing _ k b s lt = ground arith

module _ (j : Band) where
  add-failing :
      (c : Banded.Banded) (s : Score) (i : Option Impact)
      → HasInt32 i
      → failing_of j c.bands + s.weight < word
      → failing_of j (Banded.add c s i).bands ≡ failing_of j c.bands + failed_weight j s i
  unfolding Banded.add failed_weight
  add-failing c s i h lt =
      ground (arith, band_of-category i, file_weight-failing j (impact_band i) c.bands s)

  failed_weight-le : (s : Score) (i : Option Impact) → failed_weight j s i ≤ s.weight
  unfolding failed_weight
  failed_weight-le s i = ground arith

  -- After all children the band has the weights of its failing checks.
  pub fold-failing :
      (k : List Entry) (c : Banded.Banded)
      → All (λ e. HasInt32 (added e).1) k
      → failing_of j c.bands + sum (λ s i. s.weight) k < word
      → failing_of j (fold (λ b e. Banded.add b (added e).0 (added e).1) c k).bands
        ≡ failing_of j c.bands + sum (failed_weight j) k
  fold-failing [] c h lt = omega arith
  fold-failing (e ∷ k) c (p, h) lt =
      let one = add-failing c (added e).0 (added e).1 p (omega arith) in
      let le = failed_weight-le (added e).0 (added e).1 in
      omega (
        arith,
        one,
        fold-failing k (Banded.add c (added e).0 (added e).1) h (omega (arith, one, le)),
      )
