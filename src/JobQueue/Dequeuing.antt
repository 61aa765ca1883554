-- ===== src/JobQueue/Dequeuing.antt =====
-- `Dequeue` and `DequeueBlock` take the oldest job.
use cnspec.Common.{
  ℕ, ◌≤◌, Bool-cases, Option-cases, ◌==◌, ltb, List, [], ◌∷◌, none, some, if◌then◌else◌, ◌≡◌, inl,
  inr, refl, arith, ◌∙◌, sym, All,
}
use cnspec.JobQueue.{
  dequeue_block, block, Error, Name, job, temp, same, before, read, insert_file, sort_files,
  first_job, Disk, Queue, Gob, Answer, got, failed, waiting, no_jobs, no_jobs_text, take_job,
  dequeue_job, dequeue,
}
use cnspec.JobQueue.Files.{read-remove, read-sort_files}

-- A job of this name has no timestamp below `n`.
abbrev IsFrom : ℕ → Name → Type 0
IsFrom n (job m) = n ≤ m
IsFrom n (temp m) = Unit

module _ {B : Type 0} where
  abbrev IsSorted : List (Name × B) → Type 0
  IsSorted [] = Unit
  IsSorted ((job n, b) ∷ fs) = All (λ (f : Name × B). IsFrom n f.0) fs × IsSorted fs
  IsSorted ((temp n, b) ∷ fs) = IsSorted fs

  insert_file-All :
      (n : ℕ) (f : Name × B) (fs : List (Name × B))
      → IsFrom n f.0
      → All (λ (g : Name × B). IsFrom n g.0) fs
      → All (λ (g : Name × B). IsFrom n g.0) (insert_file f fs)
  unfolding insert_file
  insert_file-All n f [] h hs = (h, tt)
  insert_file-All n f (g ∷ fs) h (i, hs) = elim (Bool-cases (before g.0 f.0)) [
    | inl e ↦ rw e (i, insert_file-All n f fs h hs)
    | inr e ↦ rw e (h, (i, hs))
  ]

  All-lower :
      (m n : ℕ) (fs : List (Name × B))
      → m ≤ n
      → All (λ (g : Name × B). IsFrom n g.0) fs
      → All (λ (g : Name × B). IsFrom m g.0) fs
  All-lower m n [] le h = tt
  All-lower m n ((job k, b) ∷ fs) le (i, h) = (omega arith, All-lower m n fs le h)
  All-lower m n ((temp k, b) ∷ fs) le (i, h) = (tt, All-lower m n fs le h)

  first_job-none : (m : ℕ) (fs : List (Name × B)) → first_job fs ≡ none → read (job m) fs ≡ none
  unfolding first_job read same
  first_job-none m [] e = refl
  first_job-none m ((job n, b) ∷ fs) e = cc
  first_job-none m ((temp n, b) ∷ fs) e = first_job-none m fs e

  read-first_job :
      (n : ℕ) (b : B) (fs : List (Name × B)) → first_job fs ≡ some (n, b) → read (job n) fs ≡ some b
  unfolding first_job read same
  read-first_job n b [] e = cc
  read-first_job n b ((job m, c) ∷ fs) e = ground arith
  read-first_job n b ((temp m, c) ∷ fs) e = read-first_job n b fs e

  read-All :
      (m n : ℕ) (c : B) (fs : List (Name × B))
      → All (λ (g : Name × B). IsFrom n g.0) fs
      → read (job m) fs ≡ some c
      → n ≤ m
  unfolding read same
  read-All m n c [] h e = cc
  read-All m n c ((job k, b) ∷ fs) (i, h) e = elim (Bool-cases (k == m)) [
    | inl is ↦ ground arith
    | inr other ↦ read-All m n c fs h (ground arith)
  ]
  read-All m n c ((temp k, b) ∷ fs) (i, h) e = read-All m n c fs h e

  first_job-least :
      (n m : ℕ) (b c : B) (fs : List (Name × B))
      → IsSorted fs
      → first_job fs ≡ some (n, b)
      → read (job m) fs ≡ some c
      → n ≤ m
  unfolding first_job read same
  first_job-least n m b c [] s e f = cc
  first_job-least n m b c ((job k, d) ∷ fs) (h, s) e f = elim (Bool-cases (k == m)) [
    | inl is ↦ ground arith
    | inr other ↦ ground (arith, read-All m k c fs h)
  ]
  first_job-least n m b c ((temp k, d) ∷ fs) s e f = first_job-least n m b c fs s e f

  insert_file-IsSorted :
      (f : Name × B) (fs : List (Name × B)) → IsSorted fs → IsSorted (insert_file f fs)
  unfolding insert_file before
  insert_file-IsSorted (job n, b) [] s = (tt, tt)
  insert_file-IsSorted (temp n, b) [] s = tt
  insert_file-IsSorted (job n, b) ((job m, c) ∷ fs) (h, s) = elim (Bool-cases (ltb m n)) [
    | inl e ↦
        rw e
          (insert_file-All m (job n, b) fs (ground arith) h, insert_file-IsSorted (job n, b) fs s)
    | inr e ↦ rw e ((ground arith, All-lower n m fs (ground arith) h), (h, s))
  ]
  insert_file-IsSorted (job n, b) ((temp m, c) ∷ fs) s = insert_file-IsSorted (job n, b) fs s
  insert_file-IsSorted (temp n, b) ((job m, c) ∷ fs) s = s
  insert_file-IsSorted (temp n, b) ((temp m, c) ∷ fs) s = elim (Bool-cases (ltb m n)) [
    | inl e ↦ rw e (insert_file-IsSorted (temp n, b) fs s)
    | inr e ↦ rw e s
  ]

  sort_files-IsSorted : (fs : List (Name × B)) → IsSorted (sort_files fs)
  unfolding sort_files
  sort_files-IsSorted [] = tt
  sort_files-IsSorted (f ∷ fs) = insert_file-IsSorted f (sort_files fs) (sort_files-IsSorted fs)

module _ {A B : Type 0} (gob : Gob A B) (disk : Disk B) where
  -- What the result of dequeuing says of the queues before and after.
  abbrev pub Dequeued : Queue B → Queue B × Answer A → Type 0
  Dequeued q (r, got a) =
      (n : ℕ) × (b : B) × (read (job n) q.files ≡ some b)
      × (gob.decode b ≡ some a)
      × ((m : ℕ) (c : B) → read (job m) q.files ≡ some c → n ≤ m)
      × ((m : ℕ) → read (job m) r.files ≡ (if n == m then none else read (job m) q.files))
  Dequeued q (r, failed no_jobs) = (r ≡ q) × ((m : ℕ) → read (job m) q.files ≡ none)
  Dequeued q (r, failed no_jobs_text) = (r ≡ q) × ((m : ℕ) → read (job m) q.files ≡ none)
  Dequeued q (r, failed e) = r ≡ q
  Dequeued q (r, waiting) = (r ≡ q) × ((m : ℕ) → read (job m) q.files ≡ none)

  take_job_lem :
      (n : ℕ) (b : B) (q : Queue B)
      → first_job (sort_files q.files) ≡ some (n, b)
      → Dequeued q (take_job gob disk (n, b) q)
  unfolding take_job same
  take_job_lem n b q e = elim (Bool-cases disk.read_fails) [
    | inl bad ↦ rw bad refl
    | inr good ↦ elim (Option-cases (gob.decode b)) [
      | inl garbled ↦ rw (good, garbled) refl
      | inr (a, decoded) ↦ elim (Bool-cases (disk.remove_fails (job n))) [
        | inl bad ↦ rw (good, decoded, bad) refl
        | inr fine ↦
            rw (good, decoded, fine)
              (
                n,
                b,
                sym (read-sort_files (job n) q.files) ∙ read-first_job n b (sort_files q.files) e,
                decoded,
                λ m c f.
                    first_job-least n m b c (sort_files q.files) (sort_files-IsSorted q.files) e
                      (read-sort_files (job m) q.files ∙ f),
                λ m. read-remove (job m) (job n) q.files,
              )
      ]
    ]
  ]

  no_job_lem :
      (q : Queue B) (m : ℕ) → first_job (sort_files q.files) ≡ none → read (job m) q.files ≡ none
  no_job_lem q m e = sym (read-sort_files (job m) q.files) ∙ first_job-none m (sort_files q.files) e

  dequeue_job_lem :
      (absent : Error) (q : Queue B)
      → (((m : ℕ) → read (job m) q.files ≡ none) → Dequeued q (q, failed absent))
      → Dequeued q (dequeue_job gob disk absent q)
  unfolding dequeue_job
  dequeue_job_lem absent q h = elim (Bool-cases disk.read_dir_fails) [
    | inl bad ↦ simp bad refl
    | inr good ↦ elim (Option-cases (first_job (sort_files q.files))) [
      | inl empty ↦ simp (good, empty) (h (λ m. no_job_lem q m empty))
      | inr ((n, b), e) ↦ simp (good, e) (take_job_lem n b q e)
    ]
  ]

  block_lem : (q r : Queue B) (x : Answer A) → Dequeued q (r, x) → Dequeued q (r, block gob disk x)
  unfolding block
  block_lem q r (failed no_jobs) h = h
  block_lem q r x h = h

  -- `Dequeue` and `DequeueBlock` return the job with the least timestamp, decoded, and remove this
  -- job and no other. Where they return an error or wait, the queue is unchanged. They wait, or return
  -- the error for an empty queue, only if there is no job.
  pub dequeue_least :
      (q : Queue B) → Dequeued q (dequeue gob disk q) × Dequeued q (dequeue_block gob disk q)
  unfolding dequeue dequeue_block
  dequeue_least q = elim (Bool-cases q.closed) [
    | inl over ↦ simp over (refl, refl)
    | inr alive ↦
        let taken = dequeue_job_lem no_jobs q (λ h. (refl, h)) in
        simp alive (
          dequeue_job_lem no_jobs_text q (λ h. (refl, h)),
          block_lem q (dequeue_job gob disk no_jobs q).0 (dequeue_job gob disk no_jobs q).1 taken,
        )
  ]
