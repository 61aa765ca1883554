-- ===== src/Node/ExecutionQuery/Runs.antt =====
-- A query is put on the run queue exactly once, when all its properties are resolved.
use cnspec.Node.ExecutionQuery
use cnspec.Node.ExecutionQuery.{
  deliver, Event, recalc, ℕ, RawResult, ExecutionQuery, Property, Protos, RunState, all_resolved,
  is_executed, is_ready,
}
use cnspec.Common.{
  refl, ◌≤◌, ◌++◌, [], none, ◌∷◌, some, ◌≢◌, false, ◌||◌, if◌then◌else◌, List, true, Option, ◌≡◌,
  arith, ℕ,
}

-- Between two events, with the number of times that the query was queued.
pub record IsSound {P : Type 0} (n : ExecutionQuery P) (runs : ℕ) : Type 0 where
  pub counted : runs ≡ (if is_executed n.run_state then 1 else 0)
  pub justified : n.run_state ≢ RunState.not_ready → all_resolved n.required_properties ≡ true
  pub awake :
      all_resolved n.required_properties ≡ true
      → is_executed n.run_state ≡ false
      → n.invalidated ≡ true

-- A query as it is built: not run, and not marked.
abbrev pub IsNew : {P : Type 0} → ExecutionQuery P → Type 0
IsNew n = n.run_state ≡ RunState.not_ready

initialize-IsSound :
    {P : Type 0} (n : ExecutionQuery P) → IsNew n → IsSound (ExecutionQuery.initialize n) 0
unfolding ExecutionQuery.initialize
initialize-IsSound n h = ground arith

recalculate-IsSound :
    {P : Type 0} (n : ExecutionQuery P) (runs : ℕ)
    → IsSound n runs
    → let (n', sent, queued) = ExecutionQuery.recalculate n in
      IsSound n' (ExecutionQuery.add_run queued runs)
      × (n'.required_properties ≡ n.required_properties)
      × (all_resolved n.required_properties ≡ true → is_executed n'.run_state ≡ true)
unfolding ExecutionQuery.recalculate
recalculate-IsSound n runs h = ground arith

module _ {V P : Type 0} (lib : Protos V P) where
  resolved-consume_property :
      (r : RawResult V) (p : Property P)
      → (ExecutionQuery.consume_property lib r p).resolved
        ≡ (p.resolved || ExecutionQuery.resolves_now lib r p)
  unfolding ExecutionQuery.consume_property ExecutionQuery.resolves_now
  resolved-consume_property r p = ground arith

  all_resolved-consume :
      (r : RawResult V) (ps : List (Property P))
      → (all_resolved ps ≡ true → all_resolved (ExecutionQuery.consume_all lib r ps) ≡ true)
        × (all_resolved (ExecutionQuery.consume_all lib r ps) ≡ true
            → ExecutionQuery.any_resolves lib r ps ≡ false
            → all_resolved ps ≡ true)
  unfolding all_resolved ExecutionQuery.consume_all ExecutionQuery.any_resolves
  all_resolved-consume r [] = (λ h. h, λ h k. h)
  all_resolved-consume r (p ∷ ps) =
      ground (arith, all_resolved-consume r ps, resolved-consume_property r p)

  consume_result-IsSound :
      (n : ExecutionQuery P) (runs : ℕ) (res : Option (RawResult V))
      → IsSound n runs
      → IsSound (ExecutionQuery.consume_result lib n res) runs
  unfolding ExecutionQuery.consume_result
  consume_result-IsSound n runs none h = h
  consume_result-IsSound n runs (some r) h =
      ground (arith, all_resolved-consume r n.required_properties)

  consume-IsSound :
      (n : ExecutionQuery P) (runs : ℕ) (res : Option (RawResult V))
      → IsSound n runs
      → IsSound (ExecutionQuery.consume lib n res) runs
  unfolding ExecutionQuery.consume
  consume-IsSound n runs res h = ground (arith, consume_result-IsSound n runs res)

  handle-IsSound :
      (e : Event V) (n : ExecutionQuery P) (runs : ℕ)
      → IsSound n runs
      → let (n', runs') = ExecutionQuery.handle lib e (n, runs) in IsSound n' runs'
  unfolding ExecutionQuery.handle
  handle-IsSound (deliver res) n runs h = consume-IsSound n runs res h
  handle-IsSound recalc n runs h = (recalculate-IsSound n runs h).0

  pub run-IsSound :
      (es : List (Event V)) (s : ExecutionQuery P × ℕ)
      → IsSound s.0 s.1
      → IsSound (ExecutionQuery.run lib es s).0 (ExecutionQuery.run lib es s).1
  unfolding ExecutionQuery.run
  run-IsSound [] s h = h
  run-IsSound (e ∷ es) s h =
      run-IsSound es (ExecutionQuery.handle lib e s) (handle-IsSound e s.0 s.1 h)

  run-append :
      (es fs : List (Event V)) (s : ExecutionQuery P × ℕ)
      → ExecutionQuery.run lib (es ++ fs) s
        ≡ ExecutionQuery.run lib fs (ExecutionQuery.run lib es s)
  unfolding ExecutionQuery.run
  run-append [] fs s = refl
  run-append (e ∷ es) fs s = run-append es fs (ExecutionQuery.handle lib e s)

  sound-bounds :
      (m : ExecutionQuery P) (runs : ℕ)
      → IsSound m runs
      → (runs ≤ 1) × (runs ≡ 1 → all_resolved m.required_properties ≡ true)
  sound-bounds m runs h = ground (arith, h.counted, h.justified)

  -- The result of a recalculation of a sound query.
  settled :
      (s : ExecutionQuery P × ℕ)
      → IsSound s.0 s.1
      → let (n, runs) = ExecutionQuery.run lib (recalc ∷ []) s in
        runs ≡ (if all_resolved n.required_properties then 1 else 0)
  unfolding ExecutionQuery.run ExecutionQuery.handle
  settled (n, runs) h =
      let (sound, same, executes) = recalculate-IsSound n runs h in
      let n' = (ExecutionQuery.recalculate n).0 in ground (arith, sound.counted, sound.justified)

  -- After any envelopes and recalculations of a new query, in any order, that end with a
  -- recalculation, the query has been put on the run queue once if all its properties are resolved
  -- and not at all otherwise. At no time has it been put there more than once, or with a property
  -- unresolved.
  pub runs_once :
      (es : List (Event V)) (n : ExecutionQuery P)
      → IsNew n
      → (let (m, runs) = ExecutionQuery.run lib es (ExecutionQuery.initialize n, 0) in
          (runs ≤ 1) × (runs ≡ 1 → all_resolved m.required_properties ≡ true))
        × (let (m, runs) =
              ExecutionQuery.run lib (es ++ recalc ∷ []) (ExecutionQuery.initialize n, 0) in
            runs ≡ (if all_resolved m.required_properties then 1 else 0))
  runs_once es n new =
      let start : ExecutionQuery P × ℕ = (ExecutionQuery.initialize n, 0) in
      let sound = run-IsSound es start (initialize-IsSound n new) in
      (
        sound-bounds (ExecutionQuery.run lib es start).0 (ExecutionQuery.run lib es start).1 sound,
        rw (run-append es (recalc ∷ []) start) (settled (ExecutionQuery.run lib es start) sound),
      )
