-- ===== src/JobQueue/Fifo.antt =====
-- Jobs leave the queue in the order in which they came.
use mathlib.Core.Path.{subst}
use cnspec.Common.{
  ℕ, ◌≤◌, ◌<◌, ◌++◌, List, [], ◌∷◌, Option, none, some, ◌≡◌, refl, arith, ap, ◌∙◌, sym,
}
use cnspec.JobQueue.{
  job, read, Disk, Queue, Gob, Error, Answer, got, failed, waiting, enqueue, dequeue, dequeue_block,
  close,
}
use cnspec.JobQueue.Enqueuing.{Enqueued, enqueue_atomic}
use cnspec.JobQueue.Dequeuing.{Dequeued, dequeue_least}
use cnspec.JobQueue.Held.{
  find, IsAscending, contents, IsStored, Holds, add-IsAscending, All-find, contents-add,
  append_assoc, same-IsStored, added-Holds, taken-Holds, close_lem,
}

-- A call of a method, with what the operating system does in it.
pub data Event (A B : Type 0) : Type 0 where
  enqueued : Disk B → ℕ → A → Event A B
  dequeued : Disk B → Event A B
  awaited : Disk B → Event A B
  closing : Disk B → Event A B

module _ {A B : Type 0} (gob : Gob A B) where
  gave_of : Option Error → A → List A
  gave_of none a = a ∷ []
  gave_of (some e) a = []

  took_of : Answer A → List A
  took_of (got a) = a ∷ []
  took_of _ = []

  -- The queue after a call, the job that the queue accepted in it, and the job that it returned.
  unfoldable pub handle : Event A B → Queue B → Queue B
  handle (enqueued disk now a) q = (enqueue gob disk now a q).0
  handle (dequeued disk) q = (dequeue gob disk q).0
  handle (awaited disk) q = (dequeue_block gob disk q).0
  handle (closing disk) q = (close disk q).0

  gave : Event A B → Queue B → List A
  gave (enqueued disk now a) q = gave_of (enqueue gob disk now a q).1 a
  gave (dequeued disk) q = []
  gave (awaited disk) q = []
  gave (closing disk) q = []

  took : Event A B → Queue B → List A
  took (enqueued disk now a) q = []
  took (dequeued disk) q = took_of (dequeue gob disk q).1
  took (awaited disk) q = took_of (dequeue_block gob disk q).1
  took (closing disk) q = []

  unfoldable pub run : List (Event A B) → Queue B → Queue B
  run [] q = q
  run (e ∷ es) q = run es (handle e q)

  unfoldable pub accepted : List (Event A B) → Queue B → List A
  unfolding gave gave_of
  accepted [] q = []
  accepted (e ∷ es) q = gave e q ++ accepted es (handle e q)

  unfoldable pub returned : List (Event A B) → Queue B → List A
  unfolding took took_of
  returned [] q = []
  returned (e ∷ es) q = took e q ++ returned es (handle e q)

  abbrev pub IsLate : Event A B → Queue B → Type 0
  IsLate (enqueued disk now a) q = (m : ℕ) (b : B) → read (job m) q.files ≡ some b → m < now
  IsLate (dequeued disk) q = Unit
  IsLate (awaited disk) q = Unit
  IsLate (closing disk) q = Unit

  -- At every `Enqueue`, the clock is past the timestamps of the jobs in the queue.
  abbrev pub IsClocked : List (Event A B) → Queue B → Type 0
  IsClocked [] q = Unit
  IsClocked (e ∷ es) q = IsLate e q × IsClocked es (handle e q)

  -- The jobs `ks` are those of `js`, then those that came, less those that left first.
  abbrev Moves : List (ℕ × A) → List A → List A → Queue B → Type 0
  Moves js came left r =
      (ks : List (ℕ × A)) × IsAscending ks
      × Holds gob r ks
      × (contents js ++ came ≡ left ++ contents ks)

  append-nil : (xs : List A) → xs ++ [] ≡ xs
  append-nil [] = refl
  append-nil (x ∷ xs) = ap (λ l. x ∷ l) (append-nil xs)

  stays :
      (q r : Queue B) (js : List (ℕ × A))
      → IsAscending js
      → Holds gob q js
      → ((m : ℕ) → read (job m) r.files ≡ read (job m) q.files)
      → Moves js [] [] r
  stays q r js asc h same_jobs = (
    js,
    asc,
    λ m. subst (IsStored gob (find m js)) (sym (same_jobs m)) (h m),
    append-nil (contents js),
  )

  late_lem :
      (n now m : ℕ) (x : A) (q : Queue B) (js : List (ℕ × A))
      → Holds gob q js
      → ((m : ℕ) (b : B) → read (job m) q.files ≡ some b → m < now)
      → now ≤ n
      → find m js ≡ some x
      → m < n
  late_lem n now m x q js h late le e =
      let (b, there, _) =
        same-IsStored gob (find m js) (some x) (read (job m) q.files) (read (job m) q.files) (sym e)
          refl (h m) in
      omega (arith, late m b there)

  -- What `encoding/gob` documents: what was encoded is decoded.
  abbrev pub GobLaw : Type 0
  GobLaw = (a : A) (b : B) → gob.encode a ≡ some b → gob.decode b ≡ some a

  enqueue-Moves :
      (law : GobLaw) (disk : Disk B) (now : ℕ) (a : A) (q : Queue B) (js : List (ℕ × A))
      → IsAscending js
      → Holds gob q js
      → ((m : ℕ) (b : B) → read (job m) q.files ≡ some b → m < now)
      → (p : Queue B × Option Error) → Enqueued gob disk now a q p
      → Moves js (gave_of p.1 a) [] p.0
  unfolding gave_of
  enqueue-Moves law disk now a q js asc h late (r, none) (n, b, le, free, enc, upd) = (
    js ++ ((n, a) ∷ []),
    add-IsAscending n a js (All-find n js asc (λ m x e. late_lem n now m x q js h late le e)) asc,
    added-Holds gob q r js n a b h free (law a b enc) upd,
    sym (contents-add n a js),
  )
  enqueue-Moves law disk now a q js asc h late (r, some Error.exhausted) bad = absurd bad
  enqueue-Moves law disk now a q js asc h late (r, some e) kept = stays q r js asc h kept

  unchanged-Moves :
      (q r : Queue B) (js : List (ℕ × A))
      → IsAscending js
      → Holds gob q js
      → r ≡ q
      → Moves js [] [] r
  unchanged-Moves q r js asc h e = stays q r js asc h (λ m. ap (λ x. read (job m) x.files) e)

  dequeue-Moves :
      (disk : Disk B) (q : Queue B) (js : List (ℕ × A))
      → IsAscending js
      → Holds gob q js
      → (p : Queue B × Answer A) → Dequeued gob disk q p
      → Moves js [] (took_of p.1) p.0
  unfolding took_of
  dequeue-Moves disk q js asc h (r, got a) (n, b, there, dec, least, upd) =
      let (ks, same_jobs, held) = taken-Holds gob q r js n a b h asc there dec least upd in
      (
        ks,
        (subst IsAscending same_jobs asc).1,
        held,
        append-nil (contents js) ∙ ap contents same_jobs,
      )
  dequeue-Moves disk q js asc h (r, failed Error.no_jobs) (e, _) = unchanged-Moves q r js asc h e
  dequeue-Moves disk q js asc h (r, failed Error.no_jobs_text) (e, _) =
      unchanged-Moves q r js asc h e
  dequeue-Moves disk q js asc h (r, failed _) e = unchanged-Moves q r js asc h e
  dequeue-Moves disk q js asc h (r, waiting) (e, _) = unchanged-Moves q r js asc h e

  handle-Moves :
      (law : GobLaw) (e : Event A B) (q : Queue B) (js : List (ℕ × A))
      → IsAscending js
      → Holds gob q js
      → IsLate e q
      → Moves js (gave e q) (took e q) (handle e q)
  unfolding handle gave took
  handle-Moves law (enqueued disk now a) q js asc h late =
      enqueue-Moves law disk now a q js asc h late (enqueue gob disk now a q)
        (enqueue_atomic gob disk now a q)
  handle-Moves law (dequeued disk) q js asc h late =
      dequeue-Moves disk q js asc h (dequeue gob disk q) (dequeue_least gob disk q).0
  handle-Moves law (awaited disk) q js asc h late =
      dequeue-Moves disk q js asc h (dequeue_block gob disk q) (dequeue_least gob disk q).1
  handle-Moves law (closing disk) q js asc h late =
      stays q (close disk q).0 js asc h (close_lem gob disk q)

  run-Moves :
      (law : GobLaw) (es : List (Event A B)) (q : Queue B) (js : List (ℕ × A))
      → IsAscending js
      → Holds gob q js
      → IsClocked es q
      → Moves js (accepted es q) (returned es q) (run es q)
  unfolding run accepted returned
  run-Moves law [] q js asc h late = stays q q js asc h (λ m. refl)
  run-Moves law (e ∷ es) q js asc h (late, rest) =
      let (ks, asc', h', moved) = handle-Moves law e q js asc h late in
      let (ls, asc'', h'', ran) = run-Moves law es (handle e q) ks asc' h' rest in
      (
        ls,
        asc'',
        h'',
        sym (append_assoc (contents js) (gave e q) (accepted es (handle e q)))
            ∙ ap (λ l. l ++ accepted es (handle e q)) moved
            ∙ append_assoc (took e q) (contents ks) (accepted es (handle e q))
            ∙ ap (λ l. took e q ++ l) ran
            ∙ sym (append_assoc (took e q) (returned es (handle e q)) (contents ls)),
      )

  -- Through calls of `Enqueue`, `Dequeue`, `DequeueBlock` and `Close`, whatever the operating system
  -- refuses in each, the queue returns the jobs that it accepted, in the order in which it accepted them, each one once, and holds the rest, under ascending
  -- timestamps. This is for a queue that starts without jobs, if at every `Enqueue` the clock
  -- is past the timestamps in the queue, and a job that was encoded is decoded again.
  pub first_in_first_out :
      (law : GobLaw) (es : List (Event A B)) (q : Queue B)
      → ((m : ℕ) → read (job m) q.files ≡ none)
      → IsClocked es q
      → (ks : List (ℕ × A)) × IsAscending ks
        × Holds gob (run es q) ks
        × (accepted es q ≡ returned es q ++ contents ks)
  unfolding find
  first_in_first_out law es q empty late = run-Moves law es q [] tt empty late
