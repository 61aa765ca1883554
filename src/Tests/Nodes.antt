-- ===== src/Tests/Nodes.antt =====
-- Runs of the nodes of the graph.
use cnspec.Node.Result.{RawResult, RunError, result_upgrades, rank, upgrades_iff}
use cnspec.Node.Datapoint
use cnspec.Node.Datapoint.Upgrades.{ArrivalsFit, CastKeeps, keeps_best, best, level}
use cnspec.Node.ExecutionQuery
use cnspec.Node.ExecutionQuery.Runs.{runs_once}
use cnspec.Node.Finisher
use cnspec.Node.Finisher.Closing.{closes_once, all_reported}
use cnspec.Node.WaitGroup
use cnspec.Node.WaitGroup.Balance.{IsBalanced, new-IsBalanced, run-IsBalanced, finish_twice}
use cnspec.Common.Keys.{insert, delete, contains}
use cnspec.Common.{
  inl, inr, if◌then◌else◌, ◌++◌, ltb, refl, true, Option, none, false, [], ◌≤◌, ◌≡◌, ◌∷◌, some,
  List, ℕ, String,
}

abbrev pub result : String → Option ℕ → Option RunError → RawResult ℕ
result id v e = record {
  code_id = id;
  payload = some (record { type = "int"; value = v; error = e });
}

abbrev failed_query : RunError
failed_query = record { message = "no asset"; origin = some "q" }

-- Every value is cast to the value 1 of the type.
abbrev pub casting : Datapoint.Casting ℕ
casting = record {
  unset = "";
  nil = "nil";
  cast = λ t r. record {
    code_id = r.code_id;
    payload = some (record { type = t; value = some 1; error = none });
  };
}

casting-CastKeeps : CastKeeps casting
unfolding rank
casting-CastKeeps = record { valued = λ t r d v e found clean. ((λ h. cc h), refl) }

abbrev nil_result : RawResult ℕ
nil_result = record {
  code_id = "d";
  payload = some (record { type = "nil"; value = none; error = none });
}

abbrev datapoint : Datapoint.Datapoint ℕ
datapoint = record {
  expected_type = some "bool";
  is_reported = false;
  invalidated = false;
  dump_datapoints = false;
  res = none;
}

abbrev arrivals : List (Datapoint.Event ℕ)
arrivals =
    Datapoint.arrive (result "d" none (some failed_query))
    ∷ Datapoint.recalc
    ∷ Datapoint.arrive (result "d" (some 7) none)
    ∷ Datapoint.arrive nil_result
    ∷ Datapoint.recalc
    ∷ []

upgrades_iff_example :
    let prev = some (result "d" none none) in
    let next = some (result "d" (some 7) none) in
    result_upgrades prev next ≡ ltb (rank prev) (rank next)
upgrades_iff_example =
    upgrades_iff (some (result "d" none none)) (some (result "d" (some 7) none)) (λ e. cc) (λ e. cc)

arrivals-Fit : ArrivalsFit casting (some "bool") arrivals
arrivals-Fit = (
  (_, refl, inr (inl (λ e. cc e))),
  ((_, refl, inl (λ e. cc e)), ((_, refl, inr (inr (inl refl))), tt)),
)

keeps_best_example :
    (s : Datapoint.Datapoint ℕ × ℕ) × (Datapoint.run casting arrivals datapoint 0 ≡ some s)
    × (level s.0 ≡ best arrivals)
    × (s.1 ≤ 3)
keeps_best_example =
    keeps_best casting casting-CastKeeps arrivals datapoint (refl, refl) arrivals-Fit

abbrev protos : ExecutionQuery.Protos ℕ ℕ
protos = record { to_proto = λ r. 0; is_nil_proto = λ p. false }

abbrev query : ExecutionQuery.ExecutionQuery ℕ
query = record {
  query_id = "q";
  invalidated = false;
  required_properties =
      record {
        name = "home";
        checksum = "d";
        value = none;
        resolved = false;
        resolved_nil = false;
        resolved_placeholder = false;
      }
      ∷ [];
  run_state = ExecutionQuery.RunState.not_ready;
}

abbrev envelopes : List (ExecutionQuery.Event ℕ)
envelopes =
    ExecutionQuery.recalc
    ∷ ExecutionQuery.deliver (some (result "d" (some 7) none))
    ∷ ExecutionQuery.recalc
    ∷ []

runs_once_example :
    (let (m, runs) = ExecutionQuery.run protos envelopes (ExecutionQuery.initialize query, 0) in
      (runs ≤ 1) × (runs ≡ 1 → ExecutionQuery.all_resolved m.required_properties ≡ true))
    × (let (m, runs) =
          ExecutionQuery.run protos
            (envelopes ++ ExecutionQuery.recalc ∷ [])
            (ExecutionQuery.initialize query, 0) in
        runs ≡ (if ExecutionQuery.all_resolved m.required_properties then 1 else 0))
runs_once_example = runs_once protos envelopes query refl

run-query : (ExecutionQuery.run protos envelopes (ExecutionQuery.initialize query, 0)).1 ≡ 1
unfolding ExecutionQuery.run ExecutionQuery.handle ExecutionQuery.initialize ExecutionQuery.consume
    ExecutionQuery.recalculate ExecutionQuery.all_resolved
run-query = refl

abbrev finisher : Finisher.Finisher
finisher = record {
  total_datapoints = 2;
  remaining = "a" ∷ "b" ∷ [];
  invalidated = false;
  closed = 0;
  progress = [];
}

abbrev reports : List Finisher.Event
reports =
    Finisher.finished "b" ∷ Finisher.recalc ∷ Finisher.finished "a" ∷ Finisher.finished "a" ∷ []

closes_once_example :
    let m = Finisher.run (Finisher.initialize finisher) reports in
    (m.closed ≤ 1)
    × (m.closed ≡ 1 → all_reported reports finisher.remaining ≡ true)
    × ((Finisher.recalculate m).closed ≡ (if all_reported reports finisher.remaining then 1 else 0))
closes_once_example = closes_once reports finisher (refl, refl)

abbrev calls : List WaitGroup.Call
calls =
    WaitGroup.add_call "a"
    ∷ WaitGroup.add_call "b"
    ∷ WaitGroup.done_call "a"
    ∷ WaitGroup.done_call "a"
    ∷ []

abbrev after_calls : WaitGroup.WaitGroup
after_calls = record {
  active_work_ids = "b" ∷ [];
  seen_work_ids = "b" ∷ "a" ∷ [];
  decommissioned = false;
  num_added = 2;
  num_done = 1;
}

run-calls : WaitGroup.run calls WaitGroup.new_wait_group ≡ some after_calls
unfolding WaitGroup.run WaitGroup.handle WaitGroup.add WaitGroup.finish contains insert delete
run-calls = refl

run-IsBalanced_example : IsBalanced after_calls
run-IsBalanced_example =
    run-IsBalanced calls WaitGroup.new_wait_group after_calls new-IsBalanced run-calls

finish_twice_example :
    (contains "b" after_calls.seen_work_ids ≡ true
      → (v : WaitGroup.WaitGroup) × (WaitGroup.finish "b" after_calls ≡ some v)
        × (contains "b" v.active_work_ids ≡ false)
        × (WaitGroup.finish "b" v ≡ some v))
    × (contains "b" after_calls.seen_work_ids ≡ false → WaitGroup.finish "b" after_calls ≡ none)
finish_twice_example = finish_twice "b" after_calls
