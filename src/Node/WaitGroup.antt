-- ===== src/Node/WaitGroup.antt =====
-- policy/executor/internal/waitgroup.go. The mutex makes each method one step; a method that
-- panics returns `none`, and a waiting goroutine is the test that lets it return.
pub mod Balance
use cnspec.Common.Keys.{contains, delete, insert, is_empty}
use cnspec.Common.{
  ◌+◌, ◌∷◌, none, not, ◌||◌, if◌then◌else◌, some, false, true, length, Option, List, Bool, ℕ,
  String, [],
}

pub record WaitGroup : Type 0 where
  pub active_work_ids : List String
  pub seen_work_ids : List String
  pub decommissioned : Bool
  pub num_added : ℕ
  pub num_done : ℕ

-- `NewWaitGroup`
abbrev pub new_wait_group : WaitGroup
new_wait_group = record {
  active_work_ids = [];
  seen_work_ids = [];
  decommissioned = false;
  num_added = 0;
  num_done = 0;
}

-- `Done`
unfoldable pub finish : String → WaitGroup → Option WaitGroup
finish id w =
    if not (contains id w.seen_work_ids)
    then none
    else if contains id w.active_work_ids
    then some
        (record w { active_work_ids = delete id w.active_work_ids; num_done = w.num_done + 1 })
    else some w

-- `Add`
unfoldable pub add : String → WaitGroup → Option WaitGroup
add id w =
    if contains id w.active_work_ids
    then none
    else some (record w {
      seen_work_ids = insert id w.seen_work_ids;
      active_work_ids = insert id w.active_work_ids;
      num_added = w.num_added + 1;
    })

-- `Wait` returns when this holds, and blocks until then.
unfoldable pub may_return : WaitGroup → Bool
may_return w = w.decommissioned || is_empty w.active_work_ids

-- `Decommission`, with the ids that are still active.
unfoldable pub decommission : WaitGroup → WaitGroup × List String
decommission w = (record w { decommissioned = true }, w.active_work_ids)

-- `WaitGroupStats`
pub record Stats : Type 0 where
  pub num_added : ℕ
  pub num_active : ℕ
  pub num_done : ℕ

-- `Stats`
unfoldable pub stats : WaitGroup → Stats
stats w = record {
  num_added = w.num_added;
  num_active = length w.active_work_ids;
  num_done = w.num_done;
}

-- The calls that goroutines make, in the order in which they take the lock.
pub data Call : Type 0 where
  add_call : String → Call
  done_call : String → Call
  decommission_call : Call

unfoldable pub handle : Call → WaitGroup → Option WaitGroup
handle (add_call id) w = add id w
handle (done_call id) w = finish id w
handle decommission_call w = some (decommission w).0

unfoldable pub run : List Call → WaitGroup → Option WaitGroup
run [] w = some w
run (c ∷ cs) w = elim (handle c w) [ none ↦ none | some w' ↦ run cs w' ]
