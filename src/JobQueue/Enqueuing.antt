-- ===== src/JobQueue/Enqueuing.antt =====
-- `Enqueue` adds one job or none.
use cnspec.Common.{
  ℕ, zero, suc, ◌<◌, ◌≤◌, ◌+◌, Bool-cases, Option-cases, ◌==◌, List, [], ◌∷◌, Option, none, some,
  if◌then◌else◌, ◌≡◌, ◌≢◌, inl, inr, refl, arith, ap, ◌∙◌, sym,
}
use mathlib.Core.Path.{subst}
use cnspec.JobQueue.{
  Name, job, temp, same, read, write, latest, Disk, Queue, Gob, Error, Available, next_available,
  out_of_fuel, found, stat_error, size_check, write_failed, store, encode_store, enqueue,
}
use cnspec.JobQueue.Files.{read-write, read-rename}

module _ {B : Type 0} (disk : Disk B) where
  read-latest : (n : ℕ) (b : B) (fs : List (Name × B)) → read (job n) fs ≡ some b → n ≤ latest fs
  unfolding read latest same
  read-latest n b [] e = cc
  read-latest n b ((job m, c) ∷ fs) e = elim (Bool-cases (m == n)) [
    | inl is ↦ ground arith
    | inr other ↦ ground (arith, read-latest n b fs)
  ]
  read-latest n b ((temp m, c) ∷ fs) e = read-latest n b fs e

  -- The loop ends within its fuel.
  next_available-ne-out_of_fuel :
      (fuel t : ℕ) (fs : List (Name × B))
      → latest fs < t + fuel
      → next_available disk (suc fuel) t fs ≢ out_of_fuel
  unfolding next_available
  next_available-ne-out_of_fuel zero t fs h = elim (Option-cases (read (job t) fs)) [
    | inl free ↦ ground arith
    | inr (b, taken) ↦ absurd (omega (arith, read-latest t b fs taken))
  ]
  next_available-ne-out_of_fuel (suc fuel) t fs h =
      let rest : next_available disk (suc fuel) (suc t) fs ≢ out_of_fuel =
        next_available-ne-out_of_fuel fuel (suc t) fs (omega arith) in
      ground arith

  pub next_available-free :
      (fuel t n : ℕ) (fs : List (Name × B))
      → next_available disk fuel t fs ≡ found n
      → (t ≤ n) × (read (job n) fs ≡ none)
  unfolding next_available
  next_available-free zero t n fs e = cc
  next_available-free (suc fuel) t n fs e = elim (Option-cases (read (job t) fs)) [
    | inl free ↦ ground arith
    | inr (b, taken) ↦ ground (arith, next_available-free fuel (suc t) n fs)
  ]

module _ {A B : Type 0} (gob : Gob A B) (disk : Disk B) where
  -- The jobs that can be read stay the same.
  abbrev pub IsKept : Queue B → Queue B → Type 0
  IsKept q r = (m : ℕ) → read (job m) r.files ≡ read (job m) q.files

  -- What the result of `Enqueue` says of the queues before and after.
  abbrev pub Enqueued : ℕ → A → Queue B → Queue B × Option Error → Type 0
  Enqueued now a q (r, some Error.exhausted) = ⊥
  Enqueued now a q (r, some e) = IsKept q r
  Enqueued now a q (r, none) =
      (n : ℕ) × (b : B) × (now ≤ n)
      × (read (job n) q.files ≡ none)
      × (gob.encode a ≡ some b)
      × ((m : ℕ) → read (job m) r.files ≡ (if n == m then some b else read (job m) q.files))

  read-write_temp :
      (m n : ℕ) (b : B) (q : Queue B)
      → read (job m) (write (temp n) b q.files) ≡ read (job m) q.files
  unfolding same
  read-write_temp m n b q = read-write (job m) (temp n) b q.files

  store_lem :
      (now n : ℕ) (a : A) (b : B) (q : Queue B)
      → now ≤ n
      → read (job n) q.files ≡ none
      → gob.encode a ≡ some b
      → Enqueued now a q (store disk n b q)
  unfolding store write_failed same
  store_lem now n a b q le free e = elim (Bool-cases disk.write_fails) [
    | inl bad ↦ rw bad (λ m. elim (Option-cases disk.left_over) [
      | inl nothing ↦ rw nothing refl
      | inr (c, some_left) ↦ rw some_left (read-write_temp m n c q)
    ])
    | inr good ↦ elim (Bool-cases disk.rename_fails) [
      | inl bad ↦ rw (good, bad) (λ m. read-write_temp m n b q)
      | inr fine ↦
          rw (good, fine)
            (
              n,
              b,
              le,
              free,
              e,
              λ m.
                  read-rename (job m) (temp n) (job n) b (write (temp n) b q.files)
                    (ground (arith, read-write (temp n) (temp n) b q.files))
                  ∙ ap (λ o. if n == m then some b else o) (read-write_temp m n b q),
            )
    ]
  ]

  encode_store_lem :
      (now n : ℕ) (a : A) (q : Queue B)
      → now ≤ n
      → read (job n) q.files ≡ none
      → Enqueued now a q (encode_store gob disk n a q)
  unfolding encode_store
  encode_store_lem now n a q le free =
      let stored : Option B → Queue B × Option Error =
        λ o. elim o [ none ↦ (q, some Error.not_encoded) | some b ↦ store disk n b q ] in
      elim (Option-cases (gob.encode a)) [
        | inl bad ↦ subst (λ o. Enqueued now a q (stored o)) (sym bad) (λ m. refl)
        | inr (b, e) ↦
            subst (λ o. Enqueued now a q (stored o)) (sym e) (store_lem now n a b q le free e)
      ]

  named_lem :
      (now : ℕ) (a : A) (q : Queue B) (x : Available)
      → next_available disk (suc (suc (latest q.files))) now q.files ≡ x
      → Enqueued now a q (elim x [
        | found n ↦ encode_store gob disk n a q
        | stat_error ↦ (q, some Error.io)
        | out_of_fuel ↦ (q, some Error.exhausted)
      ])
  named_lem now a q (found n) e =
      let (le, free) = next_available-free disk (suc (suc (latest q.files))) now n q.files e in
      encode_store_lem now n a q le free
  named_lem now a q stat_error e = λ m. refl
  named_lem now a q out_of_fuel e =
      next_available-ne-out_of_fuel disk (suc (latest q.files)) now q.files (omega arith) e

  refused_lem :
      (now : ℕ) (a : A) (q : Queue B) (e : Error)
      → size_check disk q ≡ some e
      → Enqueued now a q (q, some e)
  unfolding size_check
  refused_lem now a q Error.exhausted h = ground arith
  refused_lem now a q Error.queue_closed h = λ m. refl
  refused_lem now a q Error.queue_full h = λ m. refl
  refused_lem now a q Error.no_jobs h = λ m. refl
  refused_lem now a q Error.no_jobs_text h = λ m. refl
  refused_lem now a q Error.not_encoded h = λ m. refl
  refused_lem now a q Error.not_decoded h = λ m. refl
  refused_lem now a q Error.io h = λ m. refl

  -- Whatever the operating system refuses, an `Enqueue` that returns no error has added one
  -- job, under a timestamp that was free and is not below the clock, and one that returns an error has
  -- changed no job. In both cases every other job stays as it was. The search for a free timestamp ends.
  pub enqueue_atomic : (now : ℕ) (a : A) (q : Queue B) → Enqueued now a q (enqueue gob disk now a q)
  unfolding enqueue
  enqueue_atomic now a q = elim (Bool-cases q.closed) [
    | inl over ↦ rw over (λ m. refl)
    | inr alive ↦ elim (Option-cases (size_check disk q)) [
      | inr (e, bad) ↦ simp (alive, bad) (refused_lem now a q e bad)
      | inl fine ↦
          simp (alive, fine)
            (named_lem now a q (next_available disk (suc (suc (latest q.files))) now q.files) refl)
    ]
  ]
