-- ===== src/Node/ReportingQuery/Verdict.antt =====
-- What each entry point of a query says, and the score that follows from it: an account of
-- `ReportingQueryNodeData.score` that is independent of its loop.
use cnspec.Common.{
  Bool, true, false, not, ◌||◌, List, [], ◌∷◌, Option, none, some, if◌then◌else◌, ℤ, to_u32, ℕ,
}
use cnspec.Score.{ScoreType}
use cnspec.Node.Result.{RawData}
use cnspec.Node.ReportingQuery.{Library}

-- An error because the resource is gone, another error, no value, a score, a truth value, or a value
-- that is neither.
pub data Verdict : Type 0 where
  gone broken nothing passed failed unjudged : Verdict
  scored : ℤ → Verdict

judged : Bool × Bool → Verdict
judged (true, true) = Verdict.passed
judged (false, true) = Verdict.failed
judged (success, false) = Verdict.unjudged

abbrev pub is_gone : Verdict → Bool
is_gone Verdict.gone = true
is_gone _ = false

abbrev pub is_broken : Verdict → Bool
is_broken Verdict.broken = true
is_broken _ = false

abbrev pub is_failed : Verdict → Bool
is_failed Verdict.failed = true
is_failed _ = false

-- What keeps a query from being skipped.
abbrev pub counts : Verdict → Bool
counts Verdict.gone = false
counts Verdict.nothing = false
counts Verdict.unjudged = false
counts _ = true

unfoldable pub any : (Verdict → Bool) → List Verdict → Bool
any p [] = false
any p (v ∷ vs) = p v || any p vs

abbrev pub or_score : Verdict → Option ℤ → Option ℤ
or_score (Verdict.scored v) old = some v
or_score _ old = old

unfoldable pub last_score : List Verdict → Option ℤ → Option ℤ
last_score [] old = old
last_score (v ∷ vs) old = last_score vs (or_score v old)

unfoldable pub type_of : List Verdict → ScoreType
type_of vs =
    if any is_gone vs
    then ScoreType.unscored
    else if any is_broken vs
    then ScoreType.error
    else if any counts vs
    then ScoreType.result
    else ScoreType.skip

-- The value of a result: the last score, or whether no entry point failed.
unfoldable pub result_value : List Verdict → ℕ
result_value vs = elim (last_score vs none) [
  | some v ↦ to_u32 v
  | none ↦ if any is_failed vs then 0 else 100
]

-- Only a result has a value.
unfoldable pub value_of : List Verdict → ℕ
unfolding result_value
value_of vs =
    if any is_gone vs || any is_broken vs || not (any counts vs) then 0 else result_value vs

module _ {V : Type 0} (lib : Library V) where
  unfoldable pub verdict : RawData V → Verdict
  unfolding judged
  verdict d = elim d.error [
    | some e ↦
        if lib.has_prefix e.message "could not find resource" then Verdict.gone else Verdict.broken
    | none ↦ elim d.value [
      | none ↦ Verdict.nothing
      | some v ↦ elim (lib.score_of d) [
        | some s ↦ Verdict.scored s
        | none ↦ judged (lib.is_success d)
      ]
    ]
  ]
