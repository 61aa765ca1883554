-- ===== src/Impact/Codec.antt =====
-- The JSON and YAML of impacts and scoring systems in policy/explorer_impact.go. The libraries
-- `encoding/json` and `yaml` are parameters: a document can be read as an int32, as a text, or as
-- an object with the fields of a struct.
pub mod RoundTrip
use cnspec.Common.{
  Bool, true, false, not, ◌||◌, ℕ, ltb, String, str_eq, Option, none, some, if◌then◌else◌, ℤ, pos,
  negsuc, to_u32, ◌==◌,
}
use cnspec.Impact.{
  ScoringSystem, scoring_unspecified, weighted, worst, average, data_only, ignore_score, banded,
  decayed, disabled, unlisted,
}

pub record Format : Type 1 where
  pub Document : Type 0
  pub read_int : Document → Option ℤ
  pub read_text : Document → Option String
  -- The field `value` of an object; `none` is an error.
  pub read_value : Document → Option ℤ
  pub write_int : ℤ → Document
  pub write_text : String → Document

-- The conversion `ScoringSystem(code)`, of the 32 bits of the code.
unfoldable pub of_number : ℕ → ScoringSystem
of_number n =
    if n == 0
    then scoring_unspecified
    else if n == 1
    then weighted
    else if n == 2
    then worst
    else if n == 3
    then average
    else if n == 4
    then data_only
    else if n == 5
    then ignore_score
    else if n == 6
    then banded
    else if n == 7
    then decayed
    else if n == 8
    then disabled
    else unlisted n

unfoldable pub of_name : String → Option ScoringSystem
of_name s =
    if str_eq s "unspecified"
    then some scoring_unspecified
    else if str_eq s "weighted"
    then some weighted
    else if str_eq s "highest impact"
    then some worst
    else if str_eq s "average" || str_eq s ""
    then some average
    else if str_eq s "data only"
    then some data_only
    else if str_eq s "ignore score"
    then some ignore_score
    else if str_eq s "banded"
    then some banded
    else if str_eq s "decayed"
    then some decayed
    else if str_eq s "disabled"
    then some disabled
    else none

-- The names of `MarshalJSON` and `MarshalYAML`; other numbers have none.
unfoldable pub name_of : ScoringSystem → Option String
name_of scoring_unspecified = some "unspecified"
name_of weighted = some "weighted"
name_of worst = some "highest impact"
name_of average = some "average"
name_of data_only = some "data only"
name_of ignore_score = some "ignore score"
name_of banded = some "banded"
name_of decayed = some "decayed"
name_of disabled = some "disabled"
name_of (unlisted n) = none

or_empty : Option String → String
or_empty none = ""
or_empty (some s) = s

-- The test `v < 0 || v > 100`.
unfoldable pub out_of_range : ℤ → Bool
out_of_range (pos n) = ltb 100 n
out_of_range (negsuc n) = true

unfoldable pub checked : ℤ → Option ℤ
unfolding out_of_range
checked v = if out_of_range v then none else some v

module _ (f : Format) where
  -- `ScoringSystem.UnmarshalJSON` and `UnmarshalYAML`; `none` is an error. What is neither a number nor a
  -- text is read as the empty text.
  unfoldable pub read_scoring : f.Document → Option ScoringSystem
  unfolding or_empty
  read_scoring doc = elim (f.read_int doc) [
    | some code ↦ some (of_number (to_u32 code))
    | none ↦ of_name (or_empty (f.read_text doc))
  ]

  -- `ScoringSystem.MarshalJSON`
  unfoldable pub write_json : ScoringSystem → f.Document
  write_json s = elim (name_of s) [ none ↦ f.write_text "unknown" | some name ↦ f.write_text name ]

  -- `ImpactValue.MarshalJSON` and `UnmarshalJSON`.
  unfoldable pub write_value : ℤ → f.Document
  write_value v = f.write_int v

  unfoldable pub read_impact_value : f.Document → Option ℤ
  read_impact_value doc = elim (f.read_int doc) [
    | some v ↦ checked v
    | none ↦ elim (f.read_value doc) [ none ↦ none | some v ↦ checked v ]
  ]
