-- ===== src/JobQueue/Bounded.antt =====
-- The queue stays within its size.
use cnspec.Common.{
  ◌⊎◌, ℕ, suc, ◌≤◌, ◌<◌, Bool-cases, Option-cases, ltb, List, [], ◌∷◌, Option, none, some, ◌≡◌, inl,
  inr, arith,
}
use cnspec.JobQueue.{
  Name, job, temp, is_job, read, remove, write, rename, current_size, latest, Disk, Queue, Gob,
  Error, Available, found, stat_error, out_of_fuel, size_check, write_failed, store, encode_store,
  enqueue, next_available, take_job, dequeue_job, dequeue, dequeue_block, clean, close, first_job,
  sort_files,
}
use cnspec.JobQueue.Fifo.{Event, enqueued, dequeued, awaited, closing, handle, run}

module _ {B : Type 0} where
  current_size-remove :
      (k : Name) (fs : List (Name × B)) → current_size (remove k fs) ≤ current_size fs
  unfolding current_size remove
  current_size-remove k [] = omega arith
  current_size-remove k ((j, b) ∷ fs) = ground (arith, current_size-remove k fs)

  current_size-write_temp :
      (n : ℕ) (b : B) (fs : List (Name × B)) → current_size (write (temp n) b fs) ≤ current_size fs
  unfolding current_size write is_job
  current_size-write_temp n b fs = current_size-remove (temp n) fs

  current_size-write_job :
      (n : ℕ) (b : B) (fs : List (Name × B))
      → current_size (write (job n) b fs) ≤ suc (current_size fs)
  unfolding current_size write is_job
  current_size-write_job n b fs = ground (arith, current_size-remove (job n) fs)

  current_size-rename :
      (j : Name) (n : ℕ) (fs : List (Name × B))
      → current_size (rename j (job n) fs) ≤ suc (current_size fs)
  unfolding rename
  current_size-rename j n fs = elim (Option-cases (read j fs)) [
    | inl absent ↦ ground arith
    | inr (b, there) ↦
        ground (arith, current_size-write_job n b (remove j fs), current_size-remove j fs)
  ]

  -- A queue holds no more jobs than its limit, if it has one.
  abbrev pub IsWithin : Queue B → Type 0
  IsWithin q = (q.max_size ≡ 0) ⊎ (current_size q.files ≤ q.max_size)

  abbrev IsBounded : Queue B → Type 0
  IsBounded q = 0 < q.max_size → current_size q.files ≤ q.max_size

  size_check-none :
      (disk : Disk B) (q : Queue B)
      → size_check disk q ≡ none
      → 0 < q.max_size
      → current_size q.files < q.max_size
  unfolding size_check
  size_check-none disk q e h = ground arith

  clean-size :
      (disk : Disk B) (es fs : List (Name × B))
      → current_size (clean disk es fs).0 ≤ current_size fs
  unfolding clean
  clean-size disk [] fs = omega arith
  clean-size disk ((job n, b) ∷ es) fs = clean-size disk es fs
  clean-size disk ((temp n, b) ∷ es) fs =
      ground (arith, clean-size disk es (remove (temp n) fs), current_size-remove (temp n) fs)

  close-IsBounded : (disk : Disk B) (q : Queue B) → IsBounded q → IsBounded (close disk q).0
  unfolding close
  close-IsBounded disk q h p = ground (arith, clean-size disk q.files q.files)

  write_failed-size :
      (disk : Disk B) (n : ℕ) (fs : List (Name × B))
      → current_size (write_failed disk n fs) ≤ current_size fs
  unfolding write_failed
  write_failed-size disk n fs = elim (Option-cases disk.left_over) [
    | inl nothing ↦ ground arith
    | inr (c, there) ↦ ground (arith, current_size-write_temp n c fs)
  ]

  -- At most one job is added, and the limit stays.
  abbrev IsGrown : Queue B → Queue B → Type 0
  IsGrown q r = (current_size r.files ≤ suc (current_size q.files)) × (r.max_size ≡ q.max_size)

  store-IsGrown : (disk : Disk B) (n : ℕ) (b : B) (q : Queue B) → IsGrown q (store disk n b q).0
  unfolding store
  store-IsGrown disk n b q = (
    ground (
      arith,
      current_size-write_temp n b q.files,
      current_size-rename (temp n) n (write (temp n) b q.files),
      write_failed-size disk n q.files,
    ),
    ground arith,
  )

module _ {A B : Type 0} (gob : Gob A B) where
  encode_store-IsGrown :
      (disk : Disk B) (n : ℕ) (a : A) (q : Queue B) → IsGrown q (encode_store gob disk n a q).0
  unfolding encode_store
  encode_store-IsGrown disk n a q = elim (Option-cases (gob.encode a)) [
    | inl bad ↦ (ground arith, ground arith)
    | inr (b, e) ↦
        let (grown, limit) = store-IsGrown disk n b q in
        (ground (arith, grown), ground (arith, limit))
  ]

  named-IsBounded :
      (disk : Disk B) (a : A) (q : Queue B)
      → IsBounded q
      → (0 < q.max_size → current_size q.files < q.max_size)
      → (x : Available)
      → IsBounded
          (elim x as (λ y. Queue B × Option Error) [
            | found n ↦ encode_store gob disk n a q
            | stat_error ↦ (q, some Error.io)
            | out_of_fuel ↦ (q, some Error.exhausted)
          ]).0
  named-IsBounded disk a q h room (found n) =
      let (grown, limit) = encode_store-IsGrown disk n a q in
      λ p. ground (arith, grown, limit, room)
  named-IsBounded disk a q h room stat_error = h
  named-IsBounded disk a q h room out_of_fuel = h

  enqueue-IsBounded :
      (disk : Disk B) (now : ℕ) (a : A) (q : Queue B)
      → IsBounded q
      → IsBounded (enqueue gob disk now a q).0
  unfolding enqueue
  enqueue-IsBounded disk now a q h = elim (Bool-cases q.closed) [
    | inl over ↦ simp over h
    | inr alive ↦ elim (Option-cases (size_check disk q)) [
      | inr (e, bad) ↦ simp (alive, bad) h
      | inl fine ↦
          simp (alive, fine)
            (named-IsBounded disk a q h (size_check-none disk q fine)
              (next_available disk (suc (suc (latest q.files))) now q.files))
    ]
  ]

  take_job-IsBounded :
      (disk : Disk B) (n : ℕ) (b : B) (q : Queue B)
      → IsBounded q
      → IsBounded (take_job gob disk (n, b) q).0
  unfolding take_job
  take_job-IsBounded disk n b q h p = ground (arith, h, current_size-remove (job n) q.files)

  dequeue_job-IsBounded :
      (disk : Disk B) (absent : Error) (q : Queue B)
      → IsBounded q
      → IsBounded (dequeue_job gob disk absent q).0
  unfolding dequeue_job
  dequeue_job-IsBounded disk absent q h = elim (Bool-cases disk.read_dir_fails) [
    | inl bad ↦ simp bad h
    | inr good ↦ elim (Option-cases (first_job (sort_files q.files))) [
      | inl empty ↦ simp (good, empty) h
      | inr ((n, b), e) ↦ simp (good, e) (take_job-IsBounded disk n b q h)
    ]
  ]

  dequeue-IsBounded :
      (disk : Disk B) (q : Queue B)
      → IsBounded q
      → IsBounded (dequeue gob disk q).0 × IsBounded (dequeue_block gob disk q).0
  unfolding dequeue dequeue_block
  dequeue-IsBounded disk q h = elim (Bool-cases q.closed) [
    | inl over ↦ simp over (h, h)
    | inr alive ↦ simp alive (
      dequeue_job-IsBounded disk Error.no_jobs_text q h,
      dequeue_job-IsBounded disk Error.no_jobs q h,
    )
  ]

  handle-IsBounded : (e : Event A B) (q : Queue B) → IsBounded q → IsBounded (handle gob e q)
  unfolding handle
  handle-IsBounded (enqueued disk now a) q h = enqueue-IsBounded disk now a q h
  handle-IsBounded (dequeued disk) q h = (dequeue-IsBounded disk q h).0
  handle-IsBounded (awaited disk) q h = (dequeue-IsBounded disk q h).1
  handle-IsBounded (closing disk) q h = close-IsBounded disk q h

  run-IsBounded : (es : List (Event A B)) (q : Queue B) → IsBounded q → IsBounded (run gob es q)
  unfolding run
  run-IsBounded [] q h = h
  run-IsBounded (e ∷ es) q h = run-IsBounded es (handle gob e q) (handle-IsBounded e q h)

  -- Through any calls of `Enqueue`, `Dequeue`, `DequeueBlock` and `Close`, whatever the operating
  -- system refuses in each, a queue with a size limit holds no more jobs than that, if it holds no
  -- more at the start.
  pub run-IsWithin : (es : List (Event A B)) (q : Queue B) → IsWithin q → IsWithin (run gob es q)
  run-IsWithin es q h =
      let after = run-IsBounded es q (λ p. ground arith) in
      elim (Bool-cases (ltb 0 (run gob es q).max_size)) [
        | inl limited ↦ inr (after (ground arith))
        | inr free ↦ inl (ground arith)
      ]
