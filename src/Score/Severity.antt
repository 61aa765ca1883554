-- ===== src/Score/Severity.antt =====
-- The ratings against the severity ranges of the values.
use cnspec.Score.{ℕ, Score, ScoreType, completion}
use cnspec.Score.Rating.{letter, rating_code, by_value, rating, text}
use cnspec.Common.{◌↔◌, ltb, if◌then◌else◌, arith, ◌≤◌, ◌≡◌, String, ◌≢◌, some}

-- The score is rated by its value.
abbrev pub IsRated : Score → Type 0
IsRated s =
    (s.type ≢ ScoreType.unknown)
    × (s.type ≢ ScoreType.unscored)
    × (s.type ≢ ScoreType.skip)
    × (s.type ≢ ScoreType.error)
    × (completion s ≢ 0)

rating-by_value : (s : Score) → IsRated s → rating (some s) ≡ by_value s.value
unfolding rating
rating-by_value s h = ground arith

-- The severity of a value: low from 61, medium from 31, high from 11, critical below.
unfoldable pub severity : ℕ → String
severity v =
    if ltb 60 v
    then "LOW"
    else if ltb 30 v
    then "MEDIUM"
    else if ltb 10 v
    then "HIGH"
    else "CRITICAL"

text-by_value : (itoa : ℕ → String) (v : ℕ) → text itoa (by_value v) ≡ severity v
unfolding text severity by_value
text-by_value itoa v = ground arith

-- Of two scores rated by value, the one with the larger value has no worse a rating.
by_value_antitone : (v w : ℕ) → v ≤ w → rating_code (by_value w) ≤ rating_code (by_value v)
unfolding by_value rating_code
by_value_antitone v w h = ground arith

-- The letter of a value: A from 80, B from 61, C from 31, D from 11, F below.
unfoldable pub grade : ℕ → String
grade v =
    if ltb 79 v
    then "A"
    else if ltb 60 v
    then "B"
    else if ltb 30 v
    then "C"
    else if ltb 10 v
    then "D"
    else "F"

letter-by_value : (itoa : ℕ → String) (v : ℕ) → letter itoa (by_value v) ≡ grade v
unfolding letter grade by_value
letter-by_value itoa v = ground arith

-- A score that is rated by its value has the severity text and the letter of the range that its
-- value lies in: LOW from 61, MEDIUM from 31, HIGH from 11, CRITICAL below, and A from 80, B from
-- 61, C from 31, D from 11, F below.
pub rating_ranges :
    (itoa : ℕ → String) (s : Score)
    → IsRated s
    → (text itoa (rating (some s)) ≡ severity s.value)
      × (letter itoa (rating (some s)) ≡ grade s.value)
rating_ranges itoa s h =
    rw (rating-by_value s h) (text-by_value itoa s.value, letter-by_value itoa s.value)

-- Of two scores that are rated by their values, the one with the larger value has the better
-- rating or the same one; the ratings from `a_plus` to `failed` are numbered from best to worst.
pub rating_antitone :
    (s t : Score)
    → IsRated s
    → IsRated t
    → s.value ≤ t.value
    → rating_code (rating (some t)) ≤ rating_code (rating (some s))
rating_antitone s t h k le =
    rw (rating-by_value s h, rating-by_value t k) (by_value_antitone s.value t.value le)

-- With both completions between 0 and 100 a score is 100 percent complete exactly when all its
-- data and all its scoring are, and its completion is never above 100.
pub completion_full :
    (s : Score)
    → s.data_completion ≤ 100
    → s.score_completion ≤ 100
    → ((completion s ≡ 100) ↔ ((s.data_completion ≡ 100) × (s.score_completion ≡ 100)))
      × (completion s ≤ 100)
unfolding completion
completion_full s d c = ((λ h. omega arith, λ h. omega arith), omega arith)
