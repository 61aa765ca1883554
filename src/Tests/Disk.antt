-- ===== src/Tests/Disk.antt =====
-- Calls of the queue of jobs on disk.
use cnspec.Common.{ℕ, true, false, List, [], ◌∷◌, ◌++◌, some, none, ◌≡◌, refl, inr, arith}
use cnspec.JobQueue.{
  Disk, Queue, Gob, job, dequeue_block, before, block, clean, close, current_size, dequeue,
  dequeue_job, encode_store, enqueue, first_job, insert_file, is_job, latest, next_available, read,
  remove, rename, same, size_check, sort_files, store, take_job, write, write_failed,
}
use cnspec.JobQueue.Enqueuing.{Enqueued, enqueue_atomic}
use cnspec.JobQueue.Dequeuing.{Dequeued, dequeue_least}
use cnspec.JobQueue.Fifo.{
  Event, enqueued, dequeued, awaited, closing, handle, run, accepted, returned, IsClocked,
  first_in_first_out,
}
use cnspec.JobQueue.Held.{IsAscending, Holds, contents}
use cnspec.JobQueue.Bounded.{IsWithin, run-IsWithin}

abbrev gob : Gob ℕ ℕ
gob = record { encode = some; decode = some }

-- A disk that refuses nothing, and one that breaks a write off.
abbrev sound : Disk ℕ
sound = record {
  read_dir_fails = false;
  stat_fails = λ n. false;
  write_fails = false;
  left_over = none;
  rename_fails = false;
  read_fails = false;
  remove_fails = λ k. false;
}

abbrev broken : Disk ℕ
broken = record sound { write_fails = true; left_over = some 0 }

abbrev fresh : Queue ℕ
fresh = record { files = []; closed = false; max_size = 2 }

abbrev busy : Queue ℕ
busy = record { files = (job 5, 50) ∷ (job 4, 40) ∷ []; closed = false; max_size = 3 }

abbrev calls : List (Event ℕ ℕ)
calls =
    enqueued sound 1 10
    ∷ enqueued broken 2 20
    ∷ enqueued sound 3 30
    ∷ dequeued sound
    ∷ awaited sound
    ∷ closing sound
    ∷ enqueued sound 4 40
    ∷ []

calls-IsClocked : IsClocked gob calls fresh
unfolding handle dequeue_block before block clean close current_size dequeue dequeue_job
    encode_store enqueue first_job insert_file is_job latest next_available read remove rename same
    size_check sort_files store take_job write write_failed
calls-IsClocked = (
  λ m b e. ground arith,
  (λ m b e. ground arith, (λ m b e. ground arith, (tt, (tt, (tt, (λ m b e. ground arith, tt)))))),
)

enqueue_atomic_example : Enqueued gob sound 4 60 busy (enqueue gob sound 4 60 busy)
enqueue_atomic_example = enqueue_atomic gob sound 4 60 busy

dequeue_least_example :
    Dequeued gob sound busy (dequeue gob sound busy)
    × Dequeued gob sound busy (dequeue_block gob sound busy)
dequeue_least_example = dequeue_least gob sound busy

first_in_first_out_example :
    (ks : List (ℕ × ℕ)) × IsAscending ks
    × Holds gob (run gob calls fresh) ks
    × (accepted gob calls fresh ≡ returned gob calls fresh ++ contents ks)
unfolding read
first_in_first_out_example =
    first_in_first_out gob (λ a b e. ground arith) calls fresh (λ m. refl) calls-IsClocked

run-IsWithin_example : IsWithin (run gob calls fresh)
unfolding current_size
run-IsWithin_example = run-IsWithin gob calls fresh (inr (omega arith))
