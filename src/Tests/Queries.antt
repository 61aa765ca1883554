-- ===== src/Tests/Queries.antt =====
-- The score of a query with two entry points, a collector, and a scoring system in a document.
use cnspec.Common.{
  ℕ, Bool, true, false, String, List, [], ◌∷◌, Option, none, some, ◌≡◌, ◌==◌, ℤ, refl, inr,
}
use cnspec.Tests.Nodes.{result}
use cnspec.Node.ReportingQuery.{Library, ReportingQuery, keys}
use cnspec.Node.ReportingQuery.Verdicts.{Scored, gather, score_verdicts}
use cnspec.Node.Collectors.{Event, arrive, recalc, recalculate, run}
use cnspec.Node.Collectors.Delivery.{IsSunk, new_collector, last_arrival, delivers_last}
use cnspec.Common.Dict.{lookup}
use cnspec.Impact.{worst}
use cnspec.Impact.Codec.{Format, read_scoring, write_json}
use cnspec.Impact.Codec.RoundTrip.{FormatLaws, scoring_back}

-- The value 1 is true, and every other one false.
abbrev truth : Option ℕ → Bool × Bool
truth none = (false, false)
truth (some v) = (v == 1, true)

abbrev judging : Library ℕ
judging = record {
  score_of = λ d. none;
  is_success = λ d. truth d.value;
  has_prefix = λ s p. false;
  sort_strings = λ ss. ss;
  message = λ es. "";
}

abbrev query : ReportingQuery ℕ
query = record {
  query_id = "q";
  results =
      ("a", record { resolved = true; value = some (result "a" (some 1) none) })
      ∷ ("b", record { resolved = true; value = some (result "b" (some 0) none) })
      ∷ [];
  invalidated = true;
}

score_verdicts_example : Scored judging query (gather judging query.results ("a" ∷ "b" ∷ []))
unfolding keys lookup
score_verdicts_example = score_verdicts judging query (
  (
    record { resolved = true; value = some (result "a" (some 1) none) },
    refl,
    inr (
      result "a" (some 1) none,
      record { type = "int"; value = some 1; error = none },
      refl,
      refl,
    ),
  ),
  (
    (
      record { resolved = true; value = some (result "b" (some 0) none) },
      refl,
      inr (
        result "b" (some 0) none,
        record { type = "int"; value = some 0; error = none },
        refl,
        refl,
      ),
    ),
    tt,
  ),
)

abbrev arrivals : List (Event ℕ)
arrivals = arrive "a" 1 ∷ recalc ∷ arrive "b" 2 ∷ arrive "a" 3 ∷ []

delivers_last_example : IsSunk 3 (recalculate (run new_collector arrivals)).sunk
unfolding last_arrival
delivers_last_example = delivers_last arrivals "a" 3 refl

data Document : Type 0 where
  number : ℤ → Document
  words : String → Document

abbrev int_of : Document → Option ℤ
int_of (number v) = some v
int_of (words s) = none

abbrev text_of : Document → Option String
text_of (number v) = none
text_of (words s) = some s

abbrev format : Format
format = record {
  Document = Document;
  read_int = int_of;
  read_text = text_of;
  read_value = λ d. none;
  write_int = number;
  write_text = words;
}

format_laws : FormatLaws format
format_laws = record { text_back = λ s. refl; text_no_int = λ s. refl; int_back = λ v. refl }

scoring_back_example : read_scoring format (write_json format worst) ≡ some worst
scoring_back_example = scoring_back format format_laws worst
