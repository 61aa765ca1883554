-- ===== src/JobQueue.antt =====
-- The queue of jobs on disk in policy/scan/pdque/queue.go. The directory is an association list that
-- holds the files that the queue makes. Every method runs under the mutex and is one step. What the
-- operating system refuses is an argument, `Disk`, and `encoding/gob` is a parameter. Timestamps have
-- the same number of digits, so that file names are ordered as they are. A size limit that is
-- negative counts as 0, as it does in the source.
pub mod Files
pub mod Enqueuing
pub mod Dequeuing
pub mod Fifo
pub mod Held
pub mod Bounded
use cnspec.Common.{
  ℕ, zero, suc, Bool, true, false, not, ◌&&◌, ◌==◌, ltb, List, [], ◌∷◌, Option, none, some,
  if◌then◌else◌,
}

-- `<timestamp>.job` and `.<timestamp>.tmp`
pub data Name : Type 0 where
  job temp : ℕ → Name

unfoldable pub same : Name → Name → Bool
same (job m) (job n) = m == n
same (temp m) (temp n) = m == n
same _ _ = false

-- The order of the names as strings: a dot comes before every digit.
unfoldable pub before : Name → Name → Bool
before (job m) (job n) = ltb m n
before (temp m) (temp n) = ltb m n
before (temp m) (job n) = true
before (job m) (temp n) = false

unfoldable pub is_job : Name → Bool
is_job (job n) = true
is_job (temp n) = false

module _ {B : Type 0} where
  unfoldable pub read : Name → List (Name × B) → Option B
  read k [] = none
  read k ((j, b) ∷ fs) = if same j k then some b else read k fs

  -- `os.Remove`, `os.WriteFile` and `os.Rename`
  unfoldable pub remove : Name → List (Name × B) → List (Name × B)
  remove k [] = []
  remove k ((j, b) ∷ fs) = let rest = remove k fs in if same j k then rest else (j, b) ∷ rest

  unfoldable pub write : Name → B → List (Name × B) → List (Name × B)
  write k b fs = (k, b) ∷ remove k fs

  unfoldable pub rename : Name → Name → List (Name × B) → List (Name × B)
  rename j k fs = elim (read j fs) [ none ↦ fs | some b ↦ write k b (remove j fs) ]

  -- `sort.Slice` by name
  unfoldable pub insert_file : Name × B → List (Name × B) → List (Name × B)
  insert_file f [] = f ∷ []
  insert_file f (g ∷ fs) =
      let rest = insert_file f fs in if before g.0 f.0 then g ∷ rest else f ∷ g ∷ fs

  unfoldable pub sort_files : List (Name × B) → List (Name × B)
  sort_files [] = []
  sort_files (f ∷ fs) = insert_file f (sort_files fs)

  -- `currentSize`
  unfoldable pub current_size : List (Name × B) → ℕ
  current_size [] = 0
  current_size ((k, b) ∷ fs) = if is_job k then suc (current_size fs) else current_size fs

  -- The file at which the loops of `Dequeue` and `dequeueJob` return.
  unfoldable pub first_job : List (Name × B) → Option (ℕ × B)
  first_job [] = none
  first_job ((job n, b) ∷ fs) = some (n, b)
  first_job ((temp n, b) ∷ fs) = first_job fs

  -- The greatest timestamp in use.
  unfoldable pub latest : List (Name × B) → ℕ
  latest [] = 0
  latest ((job n, b) ∷ fs) = let rest = latest fs in if ltb rest n then n else rest
  latest ((temp n, b) ∷ fs) = latest fs

pub record Queue (B : Type 0) : Type 0 where
  pub files : List (Name × B)
  pub closed : Bool
  pub max_size : ℕ

-- What fails in one call of a method; `left_over` is what a failed write leaves of the file.
pub record Disk (B : Type 0) : Type 0 where
  pub read_dir_fails : Bool
  pub stat_fails : ℕ → Bool
  pub write_fails : Bool
  pub left_over : Option B
  pub rename_fails : Bool
  pub read_fails : Bool
  pub remove_fails : Name → Bool

-- `no_jobs` is `ErrNoJobs`, `no_jobs_text` another error with the same text, and `exhausted`
-- means that the fuel ran out.
pub data Error : Type 0 where
  queue_closed queue_full no_jobs no_jobs_text not_encoded not_decoded io exhausted : Error

pub data Available : Type 0 where
  found : ℕ → Available
  stat_error out_of_fuel : Available

pub data Answer (A : Type 0) : Type 0 where
  got : A → Answer A
  failed : Error → Answer A
  waiting : Answer A

-- `encoding/gob`
pub record Gob (A B : Type 0) : Type 0 where
  pub encode : A → Option B
  pub decode : B → Option A

module _ {B : Type 0} (disk : Disk B) where
  -- The loop of `nextAvailableFilename`.
  unfoldable pub next_available : ℕ → ℕ → List (Name × B) → Available
  next_available zero t fs = out_of_fuel
  next_available (suc fuel) t fs =
      let rest = next_available fuel (suc t) fs in
      if disk.stat_fails t
      then stat_error
      else elim (read (job t) fs) [ none ↦ found t | some b ↦ rest ]

  -- Whether the check of the size lets the method go on.
  unfoldable pub size_check : Queue B → Option Error
  size_check q =
      if ltb 0 q.max_size
      then if disk.read_dir_fails
        then some io
        else if ltb (current_size q.files) q.max_size
        then none
        else some queue_full
      else none

  -- The file that a failed write leaves.
  unfoldable pub write_failed : ℕ → List (Name × B) → List (Name × B)
  write_failed n fs = elim disk.left_over [ none ↦ fs | some b ↦ write (temp n) b fs ]

  -- From the write on; `none` is no error.
  unfoldable pub store : ℕ → B → Queue B → Queue B × Option Error
  store n b q =
      if disk.write_fails
      then (record q { files = write_failed n q.files }, some io)
      else if disk.rename_fails
      then (record q { files = write (temp n) b q.files }, some io)
      else (record q { files = rename (temp n) (job n) (write (temp n) b q.files) }, none)

  -- The removal of temporary files in `Close`.
  unfoldable pub clean : List (Name × B) → List (Name × B) → List (Name × B) × Option Error
  clean [] fs = (fs, none)
  clean ((job n, b) ∷ es) fs = clean es fs
  clean ((temp n, b) ∷ es) fs =
      let rest = clean es (remove (temp n) fs) in
      if disk.remove_fails (temp n) then (fs, some io) else rest

  -- `Close`
  unfoldable pub close : Queue B → Queue B × Option Error
  close q =
      let (fs, e) = clean q.files q.files in
      if q.closed
      then (q, some queue_closed)
      else if disk.read_dir_fails
      then (q, some io)
      else elim e [
        | none ↦ (record q { files = fs; closed = true }, none)
        | some err ↦ (record q { files = fs }, some err)
      ]

module _ {A B : Type 0} (gob : Gob A B) (disk : Disk B) where
  -- From the name on.
  unfoldable pub encode_store : ℕ → A → Queue B → Queue B × Option Error
  encode_store n a q = elim (gob.encode a) [
    | none ↦ (q, some not_encoded)
    | some b ↦ store disk n b q
  ]

  -- `Enqueue`, where the clock reads `now`; the fuel covers every timestamp in use and one more.
  unfoldable pub enqueue : ℕ → A → Queue B → Queue B × Option Error
  enqueue now a q = if q.closed then (q, some queue_closed) else elim (size_check disk q) [
    | some e ↦ (q, some e)
    | none ↦ elim (next_available disk (suc (suc (latest q.files))) now q.files) [
      | found n ↦ encode_store n a q
      | stat_error ↦ (q, some io)
      | out_of_fuel ↦ (q, some exhausted)
    ]
  ]

  -- The body of the loop for the job file at which it returns.
  unfoldable pub take_job : ℕ × B → Queue B → Queue B × Answer A
  take_job (n, b) q = if disk.read_fails then (q, failed io) else elim (gob.decode b) [
    | none ↦ (q, failed not_decoded)
    | some a ↦
        if disk.remove_fails (job n)
        then (q, failed io)
        else (record q { files = remove (job n) q.files }, got a)
  ]

  -- `dequeueJob`, with the error for a queue without jobs.
  unfoldable pub dequeue_job : Error → Queue B → Queue B × Answer A
  dequeue_job absent q =
      if disk.read_dir_fails then (q, failed io) else elim (first_job (sort_files q.files)) [
        | none ↦ (q, failed absent)
        | some f ↦ take_job f q
      ]

  -- `Dequeue`
  unfoldable pub dequeue : Queue B → Queue B × Answer A
  dequeue q = if q.closed then (q, failed queue_closed) else dequeue_job no_jobs_text q

  -- What `DequeueBlock` does with an answer: on `ErrNoJobs` it waits.
  unfoldable pub block : Answer A → Answer A
  block (failed no_jobs) = waiting
  block x = x

  -- `DequeueBlock`, up to its return or its next wait.
  unfoldable pub dequeue_block : Queue B → Queue B × Answer A
  unfolding block
  dequeue_block q =
      if q.closed
      then (q, failed queue_closed)
      else let (r, x) = dequeue_job no_jobs q in (r, block x)
