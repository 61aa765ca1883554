-- ===== src/Node/Datapoint.antt =====
-- `DatapointNodeData` of policy/executor/internal/nodes.go. `RawResult.CastResult` followed by
-- `RawResultV2` belongs to the mql library and is a parameter, as are its types `Unset` and `Nil`.
pub mod Upgrades
use mathlib.Core.Option
use cnspec.Node.Result.{
  RunError, RawResult, RawData, result_upgrades, is_placeholder_result, content,
}
use cnspec.Common.{
  ◌∷◌, [], [], suc, ℕ, List, ◌||◌, none, true, false, str_eq, if◌then◌else◌, Bool, some, String,
  Option,
}

pub record Datapoint (V : Type 0) : Type 0 where
  pub expected_type : Option String
  pub is_reported : Bool
  pub invalidated : Bool
  pub dump_datapoints : Bool
  pub res : Option (RawResult V)

-- What the node takes from the mql library.
pub record Casting (V : Type 0) : Type 0 where
  pub unset : String
  pub nil : String
  pub cast : String → RawResult V → RawResult V

has_error : Option RunError → Bool
has_error none = false
has_error (some e) = true

module _ {V : Type 0} (lib : Casting V) where
  keeps_type : String → RawData V → Bool
  unfolding has_error
  keeps_type t d = str_eq d.type lib.nil || str_eq d.type t || has_error d.error

  -- The value that `set` stores, for an expected type; `none` is the panic on a nil `res.Data`.
  typed : String → RawResult V → Option (RawData V) → Option (RawResult V)
  unfolding keeps_type
  typed t res none = none
  typed t res (some d) = some (if keeps_type t d then res else lib.cast t res)

  stored : Option String → RawResult V → Option (RawResult V)
  unfolding typed
  stored none res = some res
  stored (some t) res = if str_eq t lib.unset then some res else typed t res res.payload

  put : Datapoint V → Option (RawResult V) → Option (Datapoint V)
  put n none = none
  put n (some r) = some (record n { invalidated = true; is_reported = true; res = some r })

  -- `set`
  unfoldable pub set : Datapoint V → RawResult V → Option (Datapoint V)
  unfolding stored put
  set n res = put n (stored n.expected_type res)

  -- `initialize`
  initialize_with : Option (RawResult V) → Datapoint V → Option (Datapoint V)
  unfolding set
  initialize_with none n = some n
  initialize_with (some r) n = set n r

  unfoldable pub initialize : Datapoint V → Option (Datapoint V)
  unfolding initialize_with
  initialize n = initialize_with n.res n

  -- `consume` of the result of an envelope; an envelope without a result changes nothing.
  unfoldable pub consume : Datapoint V → Option (RawResult V) → Option (Datapoint V)
  unfolding set
  consume n none = some n
  consume n (some r) =
      if n.is_reported
      then (if result_upgrades n.res (some r) then set n r else some n)
      else set n r

-- `recalculate`: the new state, and the result that is sent on.
unfoldable pub recalculate : {V : Type 0} → Datapoint V → Datapoint V × Option (RawResult V)
recalculate n = if n.invalidated then (record n { invalidated = false }, n.res) else (n, none)

-- What the graph does to a datapoint: it delivers a result, or asks it to recalculate.
pub data Event (V : Type 0) : Type 0 where
  arrive : RawResult V → Event V
  recalc : Event V

module _ {V : Type 0} (lib : Casting V) where
  count_sent : Option (RawResult V) → ℕ → ℕ
  count_sent none sent = sent
  count_sent (some r) sent = suc sent

  -- One event, and the number of results that were sent on so far.
  unfoldable pub handle : Event V → Datapoint V → ℕ → Option (Datapoint V × ℕ)
  unfolding count_sent
  handle (arrive r) n sent = Option.map (λ n'. (n', sent)) (consume lib n (some r))
  handle recalc n sent = let (n', out) = recalculate n in some (n', count_sent out sent)

  -- A sequence of events; `none` is a panic.
  unfoldable pub run : List (Event V) → Datapoint V → ℕ → Option (Datapoint V × ℕ)
  run [] n sent = some (n, sent)
  run (e ∷ es) n sent = elim (handle e n sent) [ none ↦ none | some s ↦ run es s.0 s.1 ]
