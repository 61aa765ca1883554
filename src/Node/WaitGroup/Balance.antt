-- ===== src/Node/WaitGroup/Balance.antt =====
-- What the counters and the two sets of a wait group say about the calls that were made.
use mathlib.Core.Path.{subst}
use mathlib.Core.Option.{some-injective}
use cnspec.Common.Keys.{
  contains, delete, insert, IsDistinct, contains-delete, contains-insert, length-delete,
  IsDistinct-delete,
}
use cnspec.Node.WaitGroup
use cnspec.Node.WaitGroup.{WaitGroup, Call, add_call, done_call, decommission_call}
use cnspec.Common.{
  inr, eq_iff, inl, Bool-cases, [], ◌∷◌, none, Option, arith, false, List, refl, true, length, ◌+◌,
  some, ◌≡◌, String,
}

pub record IsBalanced (w : WaitGroup) : Type 0 where
  pub distinct : IsDistinct w.active_work_ids
  pub balanced : w.num_added ≡ w.num_done + length w.active_work_ids
  pub seen : (k : String) → contains k w.active_work_ids ≡ true → contains k w.seen_work_ids ≡ true

pub new-IsBalanced : IsBalanced WaitGroup.new_wait_group
unfolding contains
new-IsBalanced = record { distinct = tt; balanced = refl; seen = λ k h. h }

add-IsBalanced :
    (id : String) (w v : WaitGroup) → IsBalanced w → WaitGroup.add id w ≡ some v → IsBalanced v
unfolding WaitGroup.add insert
add-IsBalanced id w v h e = record {
  distinct = ground (arith, h.distinct);
  balanced = ground (arith, h.balanced);
  seen = λ k m. ground (
    arith,
    h.seen k,
    contains-insert k id w.active_work_ids,
    contains-insert k id w.seen_work_ids,
  );
}

finish-IsBalanced :
    (id : String) (w v : WaitGroup) → IsBalanced w → WaitGroup.finish id w ≡ some v → IsBalanced v
unfolding WaitGroup.finish
finish-IsBalanced id w v h e = record {
  distinct = ground (arith, h.distinct, IsDistinct-delete id w.active_work_ids h.distinct);
  balanced = ground (arith, h.balanced, length-delete id w.active_work_ids h.distinct);
  seen = λ k m. ground (arith, h.seen k, contains-delete k id w.active_work_ids);
}

handle-IsBalanced :
    (c : Call) (w v : WaitGroup) → IsBalanced w → WaitGroup.handle c w ≡ some v → IsBalanced v
unfolding WaitGroup.handle WaitGroup.decommission
handle-IsBalanced (add_call id) w v h e = add-IsBalanced id w v h e
handle-IsBalanced (done_call id) w v h e = finish-IsBalanced id w v h e
handle-IsBalanced decommission_call w v h e = record {
  distinct = ground (arith, h.distinct);
  balanced = ground (arith, h.balanced);
  seen = λ k m. ground (arith, h.seen k);
}

run_step :
    (o : Option WaitGroup) (k : WaitGroup → Option WaitGroup) (v : WaitGroup)
    → elim o [ none ↦ none | some w ↦ k w ] ≡ some v
    → (w : WaitGroup) × (o ≡ some w) × (k w ≡ some v)
run_step none k v e = cc
run_step (some w) k v e = (w, refl, e)

-- After any calls that did not panic, on a wait group that was balanced: as many ids were added
-- as were done or are still active, no id is active twice, and every active id was added.
pub run-IsBalanced :
    (cs : List Call) (w v : WaitGroup) → IsBalanced w → WaitGroup.run cs w ≡ some v → IsBalanced v
unfolding WaitGroup.run
run-IsBalanced [] w v h e = subst IsBalanced (some-injective _ _ e) h
run-IsBalanced (c ∷ cs) w v h e =
    let (x, first, rest) = run_step (WaitGroup.handle c w) (WaitGroup.run cs) v e in
    run-IsBalanced cs x v (handle-IsBalanced c w x h first) rest

-- `Done` of an id that was added never panics and leaves the id inactive, and a second `Done`
-- changes nothing; of an id that was never added it panics.
pub finish_twice :
    (id : String) (w : WaitGroup)
    → (contains id w.seen_work_ids ≡ true
        → (v : WaitGroup) × (WaitGroup.finish id w ≡ some v)
          × (contains id v.active_work_ids ≡ false)
          × (WaitGroup.finish id v ≡ some v))
      × (contains id w.seen_work_ids ≡ false → WaitGroup.finish id w ≡ none)
unfolding WaitGroup.finish
finish_twice id w = (
  λ known. elim (Bool-cases (contains id w.active_work_ids)) [
    | inl active ↦ (
      record w { active_work_ids = delete id w.active_work_ids; num_done = w.num_done + 1 },
      ground arith,
      ground (arith, contains-delete id id w.active_work_ids, eq_iff id id),
      ground (arith, contains-delete id id w.active_work_ids, eq_iff id id),
    )
    | inr idle ↦ (w, ground arith, idle, ground arith)
  ],
  λ h. ground arith,
)
