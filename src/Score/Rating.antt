-- ===== src/Score/Rating.antt =====
-- policy/rating.go: the rating of a score, its severity text, its letter and its category.
use cnspec.Score.{ℕ, Score, ScoreType, completion}
use cnspec.Common.{[], ◌∷◌, none, some, ◌==◌, String, leb, if◌then◌else◌, Option, List}

-- The generated constants `ScoreRating_*` of an int32 enumeration, with its other numbers.
pub data ScoreRating : Type 0 where
  unrated a_plus a a_minus b_plus b b_minus c_plus c c_minus : ScoreRating
  d_plus d d_minus failed error skip : ScoreRating
  unlisted : ℕ → ScoreRating

unfoldable pub rating_code : ScoreRating → ℕ
rating_code ScoreRating.unrated = 0
rating_code ScoreRating.a_plus = 1
rating_code ScoreRating.a = 2
rating_code ScoreRating.a_minus = 3
rating_code ScoreRating.b_plus = 4
rating_code ScoreRating.b = 5
rating_code ScoreRating.b_minus = 6
rating_code ScoreRating.c_plus = 7
rating_code ScoreRating.c = 8
rating_code ScoreRating.c_minus = 9
rating_code ScoreRating.d_plus = 10
rating_code ScoreRating.d = 11
rating_code ScoreRating.d_minus = 12
rating_code ScoreRating.failed = 13
rating_code ScoreRating.error = 14
rating_code ScoreRating.skip = 15
rating_code (ScoreRating.unlisted n) = n

-- The `switch` over the value.
unfoldable pub by_value : ℕ → ScoreRating
by_value v =
    if leb 95 v
    then ScoreRating.a_plus
    else if leb 85 v
    then ScoreRating.a
    else if leb 80 v
    then ScoreRating.a_minus
    else if leb 75 v
    then ScoreRating.b_plus
    else if leb 65 v
    then ScoreRating.b
    else if leb 61 v
    then ScoreRating.b_minus
    else if leb 50 v
    then ScoreRating.c_plus
    else if leb 40 v
    then ScoreRating.c
    else if leb 31 v
    then ScoreRating.c_minus
    else if leb 25 v
    then ScoreRating.d_plus
    else if leb 15 v
    then ScoreRating.d
    else if leb 11 v
    then ScoreRating.d_minus
    else if leb v 10
    then ScoreRating.failed
    else ScoreRating.unrated

by_type : ScoreType → Score → ScoreRating
unfolding by_value
by_type ScoreType.unknown s = ScoreRating.unrated
by_type ScoreType.unscored s = ScoreRating.unrated
by_type ScoreType.skip s = ScoreRating.skip
by_type ScoreType.error s = ScoreRating.error
by_type _ s = if completion s == 0 then ScoreRating.unrated else by_value s.value

-- `Score.Rating`; `none` is a nil score.
unfoldable pub rating : Option Score → ScoreRating
unfolding by_type
rating none = ScoreRating.unrated
rating (some s) = by_type s.type s

-- `ScoreRatingsText`
abbrev score_ratings_text : List (ℕ × String)
score_ratings_text =
    (0, "UNRATED")
    ∷ (1, "LOW")
    ∷ (2, "LOW")
    ∷ (3, "LOW")
    ∷ (4, "LOW")
    ∷ (5, "LOW")
    ∷ (6, "LOW")
    ∷ (7, "MEDIUM")
    ∷ (8, "MEDIUM")
    ∷ (9, "MEDIUM")
    ∷ (10, "HIGH")
    ∷ (11, "HIGH")
    ∷ (12, "HIGH")
    ∷ (13, "CRITICAL")
    ∷ (14, "ERROR")
    ∷ (15, "SKIP")
    ∷ []

-- `ScoreRating_CategoryLabel`
abbrev score_rating_category_label : List (ℕ × String)
score_rating_category_label =
    (0, "Unrated")
    ∷ (1, "Excellent")
    ∷ (2, "Excellent")
    ∷ (3, "Excellent")
    ∷ (4, "Good")
    ∷ (5, "Good")
    ∷ (6, "Good")
    ∷ (7, "Fair")
    ∷ (8, "Fair")
    ∷ (9, "Fair")
    ∷ (10, "Poor")
    ∷ (11, "Poor")
    ∷ (12, "Poor")
    ∷ (13, "Fail")
    ∷ (14, "Error")
    ∷ (15, "Skip")
    ∷ []

-- `ScoreRating_Letters`
abbrev score_rating_letters : List (ℕ × String)
score_rating_letters =
    (0, "U")
    ∷ (1, "A")
    ∷ (2, "A")
    ∷ (3, "A")
    ∷ (4, "B")
    ∷ (5, "B")
    ∷ (6, "B")
    ∷ (7, "C")
    ∷ (8, "C")
    ∷ (9, "C")
    ∷ (10, "D")
    ∷ (11, "D")
    ∷ (12, "D")
    ∷ (13, "F")
    ∷ (14, "X")
    ∷ (15, "S")
    ∷ []

unfoldable pub lookup : ℕ → List (ℕ × String) → Option String
lookup v [] = none
lookup v ((k, s) ∷ m) = if k == v then some s else lookup v m

-- `strconv.Itoa` belongs to Go's library.
module _ (itoa : ℕ → String) where
  or_itoa : ℕ → Option String → String
  or_itoa v none = itoa v
  or_itoa v (some s) = s

  -- `enumName`
  unfoldable pub enum_name : List (ℕ × String) → ℕ → String
  unfolding or_itoa lookup
  enum_name m v = or_itoa v (lookup v m)

  -- `ScoreRating.Text`
  unfoldable pub text : ScoreRating → String
  unfolding enum_name rating_code
  text r = enum_name score_ratings_text (rating_code r)

  -- `ScoreRating.Letter`
  unfoldable pub letter : ScoreRating → String
  unfolding enum_name rating_code
  letter r = enum_name score_rating_letters (rating_code r)

  -- `ScoreRating.CategoryLabel`
  unfoldable pub category_label : ScoreRating → String
  unfolding enum_name rating_code
  category_label r = enum_name score_rating_category_label (rating_code r)
