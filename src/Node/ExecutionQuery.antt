-- ===== src/Node/ExecutionQuery.antt =====
-- `ExecutionQueryNodeData` of policy/executor/internal/nodes.go. `RawResult.Result` and the type
-- of its value belong to the mql library and are parameters: `P` is the type of `*llx.Result`.
-- The run queue is the list of the items that were sent to it; the lock has no counterpart, since
-- each operation is one step.
pub mod Runs
use cnspec.Node.Result.{RawResult, is_placeholder_result, has_real_data}
use cnspec.Common.{
  none, [], not, ◌||◌, ◌∷◌, ◌&&◌, true, false, map, str_eq, suc, some, if◌then◌else◌, Option, List,
  Bool, ℕ, String,
}

-- `executionQueryProperty`
pub record Property (P : Type 0) : Type 0 where
  pub name : String
  pub checksum : String
  pub value : Option P
  pub resolved : Bool
  pub resolved_nil : Bool
  pub resolved_placeholder : Bool

-- `queryRunState`
pub data RunState : Type 0 where
  not_ready ready executed : RunState

pub record ExecutionQuery (P : Type 0) : Type 0 where
  pub query_id : String
  pub invalidated : Bool
  pub required_properties : List (Property P)
  pub run_state : RunState

-- What the node takes from the mql library: `RawResult.Result` and the test of
-- `isNilResultProto` on its outcome.
pub record Protos (V P : Type 0) : Type 0 where
  pub to_proto : RawResult V → P
  pub is_nil_proto : P → Bool

abbrev pub is_executed : RunState → Bool
is_executed RunState.executed = true
is_executed _ = false

abbrev pub is_ready : RunState → Bool
is_ready RunState.ready = true
is_ready _ = false

-- The loop of `updateRunState`.
unfoldable pub all_resolved : {P : Type 0} → List (Property P) → Bool
all_resolved [] = true
all_resolved (p ∷ ps) = p.resolved && all_resolved ps

update_state : RunState → Bool → RunState
update_state RunState.not_ready runnable = if runnable then RunState.ready else RunState.not_ready
update_state s runnable = s

-- `updateRunState`
unfoldable pub update_run_state : {P : Type 0} → ExecutionQuery P → ExecutionQuery P
unfolding update_state
update_run_state n = record n {
  run_state = update_state n.run_state (all_resolved n.required_properties);
}

-- `initialize`
unfoldable pub initialize : {P : Type 0} → ExecutionQuery P → ExecutionQuery P
unfolding update_run_state
initialize n =
    let n' = update_run_state n in
    if is_ready n'.run_state then record n' { invalidated = true } else n'

module _ {V P : Type 0} (lib : Protos V P) where
  -- The first result of a property, whatever it is.
  resolve : Property P → RawResult V → Property P
  resolve p r =
      let v = lib.to_proto r in
      record p {
        value = some v;
        resolved = true;
        resolved_nil = lib.is_nil_proto v;
        resolved_placeholder = is_placeholder_result (some r);
      }

  -- A later result of a resolved property: an executed result replaces a placeholder, and a real
  -- one replaces a nil.
  upgrade : Property P → RawResult V → Property P
  upgrade p r =
      if p.resolved_placeholder && not (is_placeholder_result (some r))
      then record p {
        value = some (lib.to_proto r);
        resolved_placeholder = false;
        resolved_nil = lib.is_nil_proto (lib.to_proto r);
      }
      else if p.resolved_nil && has_real_data (some r) && not (is_placeholder_result (some r))
      then record p { value = some (lib.to_proto r); resolved_nil = false }
      else p

  -- The body of the loop of `consume`.
  consume_property : RawResult V → Property P → Property P
  unfolding resolve upgrade
  consume_property r p =
      if str_eq p.checksum r.code_id then (if p.resolved then upgrade p r else resolve p r) else p

  -- Whether the body of the loop resolves the property for the first time.
  resolves_now : RawResult V → Property P → Bool
  resolves_now r p = str_eq p.checksum r.code_id && not p.resolved

  consume_all : RawResult V → List (Property P) → List (Property P)
  unfolding consume_property
  consume_all r [] = []
  consume_all r (p ∷ ps) = consume_property r p ∷ consume_all r ps

  any_resolves : RawResult V → List (Property P) → Bool
  unfolding resolves_now
  any_resolves r [] = false
  any_resolves r (p ∷ ps) = resolves_now r p || any_resolves r ps

  consume_result : ExecutionQuery P → Option (RawResult V) → ExecutionQuery P
  unfolding consume_all any_resolves
  consume_result n none = n
  consume_result n (some r) = record n {
    required_properties = consume_all r n.required_properties;
    invalidated =
        n.invalidated || (any_resolves r n.required_properties && not (is_executed n.run_state));
  }

  consume_by : List (Property P) → ExecutionQuery P → Option (RawResult V) → ExecutionQuery P
  unfolding consume_result
  consume_by [] n res = if is_executed n.run_state then n else record n { invalidated = true }
  consume_by (p ∷ ps) n res = consume_result n res

  -- `consume` of an envelope with the result `res`.
  unfoldable pub consume : ExecutionQuery P → Option (RawResult V) → ExecutionQuery P
  unfolding consume_by
  consume n res = consume_by n.required_properties n res

-- `recalculate`: the new state, whether an envelope is sent on, and whether the query is put on
-- the run queue.
unfoldable pub recalculate : {P : Type 0} → ExecutionQuery P → ExecutionQuery P × Bool × Bool
unfolding update_run_state
recalculate n =
    let n' = record (update_run_state n) { invalidated = false } in
    if n.invalidated
    then (if is_ready n'.run_state
        then (record n' { run_state = RunState.executed }, true, true)
        else (n', true, false))
    else (n, false, false)

-- `materializeProps`: the names and values at the time the query is taken off the queue.
unfoldable pub materialize_props : {P : Type 0} → ExecutionQuery P → List (String × Option P)
materialize_props n = map (λ p. (p.name, p.value)) n.required_properties

-- What the graph does to a query: it delivers an envelope, or asks it to recalculate.
pub data Event (V : Type 0) : Type 0 where
  deliver : Option (RawResult V) → Event V
  recalc : Event V

abbrev pub add_run : Bool → ℕ → ℕ
add_run true runs = suc runs
add_run false runs = runs

module _ {V P : Type 0} (lib : Protos V P) where
  -- One event, with the number of times that the query was queued so far.
  unfoldable pub handle : Event V → ExecutionQuery P × ℕ → ExecutionQuery P × ℕ
  handle (deliver res) (n, runs) = (consume lib n res, runs)
  handle recalc (n, runs) = let (n', sent, queued) = recalculate n in (n', add_run queued runs)

  unfoldable pub run : List (Event V) → ExecutionQuery P × ℕ → ExecutionQuery P × ℕ
  run [] s = s
  run (e ∷ es) s = run es (handle e s)
