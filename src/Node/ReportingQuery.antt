-- ===== src/Node/ReportingQuery.antt =====
-- `ReportingQueryNodeData` of policy/executor/internal/nodes.go: the score of a query from the
-- results of its entry points. The map of results is an association list. Reading the score and the
-- success out of a value, joining error messages, sorting and prefixes of strings belong to libraries
-- and are parameters.
pub mod Verdict
pub mod Verdicts
use cnspec.Node.Result.{placeholder_origin, RawResult, RawData, RunError, result_upgrades}
use cnspec.Common.{
  to_u32, ℕ, Bool, true, false, not, ◌&&◌, ◌||◌, String, str_eq, List, [], ◌∷◌, ◌++◌, Option, none,
  some, if◌then◌else◌, ℤ,
}
use cnspec.Common.Dict.{lookup, update}
use cnspec.Score.{zero_score, ScoreType, Score}

pub record Library (V : Type 0) : Type 0 where
  -- `RawData.Score`
  pub score_of : RawData V → Option ℤ
  -- `RawData.IsSuccess`: the success, and whether the value is a truth value at all
  pub is_success : RawData V → Bool × Bool
  -- `strings.HasPrefix`
  pub has_prefix : String → String → Bool
  -- `sort.Strings`
  pub sort_strings : List String → List String
  -- `Errors.Deduplicate().Error()`
  pub message : List RunError → String

-- `DataResult`, with its key.
pub record DataResult (V : Type 0) : Type 0 where
  pub resolved : Bool
  pub value : Option (RawResult V)

pub record ReportingQuery (V : Type 0) : Type 0 where
  pub query_id : String
  pub results : List (String × DataResult V)
  pub invalidated : Bool

module _ {V : Type 0} where
  unfoldable pub keys : List (String × DataResult V) → List String
  keys [] = []
  keys ((k, r) ∷ rs) = k ∷ keys rs

  any_resolved : List (String × DataResult V) → Bool
  any_resolved [] = false
  any_resolved ((k, r) ∷ rs) = r.resolved || any_resolved rs

  is_empty : List (String × DataResult V) → Bool
  is_empty [] = true
  is_empty (r ∷ rs) = false

  -- `initialize`
  unfoldable pub initialize : ReportingQuery V → ReportingQuery V
  unfolding any_resolved is_empty
  initialize n = record n { invalidated = is_empty n.results || any_resolved n.results }

  consume_result :
      String → Option (RawResult V) → DataResult V → ReportingQuery V → ReportingQuery V
  consume_result from res dr n =
      let n' : ReportingQuery V = record n {
        results = update from (record { resolved = true; value = res }) n.results;
        invalidated = true;
      } in
      if dr.resolved && not (result_upgrades dr.value res) then n else n'

  -- `consume` of the result of an envelope.
  unfoldable pub consume : String → Option (RawResult V) → ReportingQuery V → ReportingQuery V
  unfolding consume_result
  consume from res n = elim (lookup from n.results) [
    | none ↦ n
    | some dr ↦ consume_result from res dr n
  ]

-- The variables of the loop in `score`.
pub record Findings : Type 0 where
  pub all_skipped : Bool
  pub all_true : Bool
  pub found_error : Bool
  pub vanished : Bool
  pub score_found : Option ℤ
  pub errors : List RunError
  pub foreign : List RunError

abbrev pub no_findings : Findings
no_findings = record {
  all_skipped = true;
  all_true = true;
  found_error = false;
  vanished = false;
  score_found = none;
  errors = [];
  foreign = [];
}

module _ {V : Type 0} (lib : Library V) where
  -- The branch for `cur.Data.Error`, with the origin of the placeholder.
  unfoldable pub note_error : String → String → RunError → Findings → Findings
  note_error query_id origin e f =
      let gone = lib.has_prefix e.message "could not find resource" in
      let elsewhere = not (str_eq origin "") && not (str_eq origin query_id) in
      record f {
        vanished = f.vanished || gone;
        all_skipped = f.all_skipped && gone;
        found_error = f.found_error || not gone;
        foreign = if elsewhere then f.foreign ++ (e ∷ []) else f.foreign;
        errors = if elsewhere then f.errors else f.errors ++ (e ∷ []);
      }

  -- The branch for a value that is no score.
  unfoldable pub note_success : Bool × Bool → Findings → Findings
  note_success (success, valid) f = record f {
    all_true = f.all_true && not (not success && valid);
    all_skipped = f.all_skipped && not valid;
  }

  unfoldable pub note_value : RawData V → Findings → Findings
  unfolding note_success
  note_value d f = elim (lib.score_of d) [
    | some v ↦ record f { score_found = some v; all_skipped = false }
    | none ↦ note_success (lib.is_success d) f
  ]

  unfoldable pub note_data : String → String → RawData V → Findings → Findings
  unfolding note_error note_value
  note_data query_id origin d f = elim d.error [
    | some e ↦ note_error query_id origin e f
    | none ↦ elim d.value [ none ↦ f | some v ↦ note_value d f ]
  ]

pub data Loop : Type 0 where
  missing panic : Loop
  noted : Findings → Loop

module _ {V : Type 0} (lib : Library V) where
  -- One checksum of the loop; a result that is not there yet ends the loop, and a result without
  -- data panics.
  unfoldable pub note_result : String → DataResult V → Findings → Loop
  note_result query_id dr f = elim dr.value [
    | none ↦ missing
    | some r ↦ elim r.payload [
      | none ↦ panic
      | some d ↦ noted (note_data lib query_id (placeholder_origin (some r)) d f)
    ]
  ]

  unfoldable pub note_all : String → List (String × DataResult V) → List String → Findings → Loop
  note_all query_id results [] f = noted f
  note_all query_id results (k ∷ ks) f = elim (lookup k results) [
    | none ↦ panic
    | some dr ↦ elim (note_result query_id dr f) [
      | missing ↦ missing
      | panic ↦ panic
      | noted f' ↦ note_all query_id results ks f'
    ]
  ]

  abbrev pub final_score : String → ScoreType → ℕ → String → Score
  final_score query_id t v text = record zero_score {
    qr_id = query_id;
    type = t;
    value = v;
    score_completion = 100;
    weight = 1;
    message = text;
  }

  -- What follows the loop.
  unfoldable pub conclude : String → Findings → Score
  conclude query_id f =
      let text = lib.message (elim f.errors [ [] ↦ f.foreign | e ∷ es ↦ e ∷ es ]) in
      if f.vanished
      then final_score query_id ScoreType.unscored 0 text
      else if f.found_error
      then final_score query_id ScoreType.error 0 text
      else if f.all_skipped
      then final_score query_id ScoreType.skip 0 ""
      else final_score query_id ScoreType.result
          (elim f.score_found [ none ↦ if f.all_true then 100 else 0 | some v ↦ to_u32 v ]) ""

  -- `score`; the outer `none` is a panic, the inner one is nil.
  unfoldable pub score : ReportingQuery V → Option (Option Score)
  unfolding keys
  score n = elim (note_all n.query_id n.results (lib.sort_strings (keys n.results)) no_findings) [
    | missing ↦ some none
    | panic ↦ none
    | noted f ↦ some (some (conclude n.query_id f))
  ]

  -- `recalculate`: the new state, and the score that is sent on; `none` is a panic.
  unfoldable pub recalculate : ReportingQuery V → Option (ReportingQuery V × Option Score)
  recalculate n =
      if n.invalidated
      then elim (score n) [ none ↦ none | some s ↦ some (record n { invalidated = false }, s) ]
      else some (n, none)
