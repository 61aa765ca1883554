-- ===== src/JobQueue/Held.antt =====
-- The jobs that a queue holds, by their timestamps, and what adding and taking a job does to them.
use mathlib.Core.Path.{subst}
use cnspec.Common.{
  ℕ, ◌≤◌, ◌<◌, Bool-cases, ◌==◌, ◌++◌, map, List, [], ◌∷◌, Option, none, some, if◌then◌else◌, ◌≡◌,
  inl, inr, refl, arith, ap, ◌∙◌, sym, All,
}
use cnspec.JobQueue.{Name, job, temp, same, read, remove, Disk, Queue, Gob, clean, close}
use cnspec.JobQueue.Files.{read-remove}

module _ {A : Type 0} where
  unfoldable pub find : ℕ → List (ℕ × A) → Option A
  find m [] = none
  find m ((n, a) ∷ js) = if n == m then some a else find m js

  abbrev pub IsAscending : List (ℕ × A) → Type 0
  IsAscending [] = Unit
  IsAscending ((n, a) ∷ js) = All (λ (j : ℕ × A). n < j.0) js × IsAscending js

  abbrev pub contents : List (ℕ × A) → List A
  contents js = map (λ (j : ℕ × A). j.1) js

  find-All :
      (n m : ℕ) (js : List (ℕ × A)) → All (λ (j : ℕ × A). n < j.0) js → m ≤ n → find m js ≡ none
  unfolding find
  find-All n m [] h le = refl
  find-All n m ((k, a) ∷ js) (l, h) le = ground (arith, find-All n m js h le)

  pub All-find :
      (n : ℕ) (js : List (ℕ × A))
      → IsAscending js
      → ((m : ℕ) (a : A) → find m js ≡ some a → m < n)
      → All (λ (j : ℕ × A). j.0 < n) js
  unfolding find
  All-find n [] asc h = tt
  All-find n ((k, a) ∷ js) (up, asc) h = (
    h k a (ground arith),
    All-find n js asc (λ m b e. elim (Bool-cases (k == m)) [
      | inl is ↦ ground (arith, find-All k m js up)
      | inr other ↦ h m b (ground arith)
    ]),
  )

  add-All :
      (k n : ℕ) (a : A) (js : List (ℕ × A))
      → k < n
      → All (λ (j : ℕ × A). k < j.0) js
      → All (λ (j : ℕ × A). k < j.0) (js ++ ((n, a) ∷ []))
  add-All k n a [] lt h = (lt, tt)
  add-All k n a (j ∷ js) lt (l, h) = (l, add-All k n a js lt h)

  pub add-IsAscending :
      (n : ℕ) (a : A) (js : List (ℕ × A))
      → All (λ (j : ℕ × A). j.0 < n) js
      → IsAscending js
      → IsAscending (js ++ ((n, a) ∷ []))
  add-IsAscending n a [] h asc = (tt, tt)
  add-IsAscending n a ((k, b) ∷ js) (lt, h) (up, asc) =
      (add-All k n a js lt up, add-IsAscending n a js h asc)

  -- The first entry for the number counts.
  or_else : Option A → Option A → Option A
  or_else none o = o
  or_else (some a) o = some a

  find-add :
      (m n : ℕ) (a : A) (js : List (ℕ × A))
      → find m (js ++ ((n, a) ∷ [])) ≡ or_else (find m js) (if n == m then some a else none)
  unfolding find or_else
  find-add m n a [] = ground arith
  find-add m n a ((k, b) ∷ js) = ground (arith, find-add m n a js)

  pub contents-add :
      (n : ℕ) (a : A) (js : List (ℕ × A)) → contents (js ++ ((n, a) ∷ [])) ≡ contents js ++ (a ∷ [])
  contents-add n a [] = refl
  contents-add n a (j ∷ js) = ap (λ l. j.1 ∷ l) (contents-add n a js)

  pub append_assoc : (xs ys zs : List A) → (xs ++ ys) ++ zs ≡ xs ++ (ys ++ zs)
  append_assoc [] ys zs = refl
  append_assoc (x ∷ xs) ys zs = ap (λ l. x ∷ l) (append_assoc xs ys zs)

module _ {A B : Type 0} (gob : Gob A B) where
  abbrev pub IsStored : Option A → Option B → Type 0
  IsStored none o = o ≡ none
  IsStored (some a) o = (b : B) × (o ≡ some b) × (gob.decode b ≡ some a)

  -- The jobs of the queue, by their timestamps.
  abbrev pub Holds : Queue B → List (ℕ × A) → Type 0
  Holds q js = (m : ℕ) → IsStored (find m js) (read (job m) q.files)

  clean_lem :
      (disk : Disk B) (m : ℕ) (es fs : List (Name × B))
      → read (job m) (clean disk es fs).0 ≡ read (job m) fs
  unfolding clean same
  clean_lem disk m [] fs = refl
  clean_lem disk m ((job n, b) ∷ es) fs = clean_lem disk m es fs
  clean_lem disk m ((temp n, b) ∷ es) fs = elim (Bool-cases (disk.remove_fails (temp n))) [
    | inl bad ↦ rw bad refl
    | inr fine ↦
        rw fine (clean_lem disk m es (remove (temp n) fs) ∙ read-remove (job m) (temp n) fs)
  ]

  pub close_lem :
      (disk : Disk B) (q : Queue B) (m : ℕ)
      → read (job m) (close disk q).0.files ≡ read (job m) q.files
  unfolding close
  close_lem disk q m = ground (arith, clean_lem disk m q.files q.files)

  pub same-IsStored :
      (o o' : Option A) (p p' : Option B) → o' ≡ o → p' ≡ p → IsStored o p → IsStored o' p'
  same-IsStored o o' p p' e f h =
      subst (λ x. IsStored x p') (sym e) (subst (λ y. IsStored o y) (sym f) h)

  absent_lem : (o : Option A) (p : Option B) → IsStored o p → p ≡ none → o ≡ none
  absent_lem none p h e = refl
  absent_lem (some a) p (b, there, _) e = cc

  present_lem :
      (o : Option A) (p : Option B) (b : B)
      → IsStored o p
      → p ≡ some b
      → (a : A) × (o ≡ some a) × (gob.decode b ≡ some a)
  present_lem none p b h e = cc
  present_lem (some a) p b (c, there, dec) e = (a, refl, ground arith)

  -- The queue holds the jobs that it held, and then the one that was added.
  pub added-Holds :
      (q r : Queue B) (js : List (ℕ × A)) (n : ℕ) (a : A) (b : B)
      → Holds q js
      → read (job n) q.files ≡ none
      → gob.decode b ≡ some a
      → ((m : ℕ) → read (job m) r.files ≡ (if n == m then some b else read (job m) q.files))
      → Holds r (js ++ ((n, a) ∷ []))
  unfolding or_else
  added-Holds q r js n a b h free dec upd m = elim (Bool-cases (n == m)) [
    | inl is ↦
        let gone = absent_lem (find n js) (read (job n) q.files) (h n) free in
        same-IsStored (some a) (find m (js ++ ((n, a) ∷ []))) (some b) (read (job m) r.files)
          (ground (arith, gone, find-add m n a js)) (ground (arith, upd m)) (b, refl, dec)
    | inr other ↦
        same-IsStored (find m js) (find m (js ++ ((n, a) ∷ []))) (read (job m) q.files)
          (read (job m) r.files) (ground (arith, find-add m n a js)) (ground (arith, upd m)) (h m)
  ]

  -- What is taken is the first job, and the others stay.
  pub taken-Holds :
      (q r : Queue B) (js : List (ℕ × A)) (n : ℕ) (a : A) (b : B)
      → Holds q js
      → IsAscending js
      → read (job n) q.files ≡ some b
      → gob.decode b ≡ some a
      → ((m : ℕ) (c : B) → read (job m) q.files ≡ some c → n ≤ m)
      → ((m : ℕ) → read (job m) r.files ≡ (if n == m then none else read (job m) q.files))
      → (ks : List (ℕ × A)) × (js ≡ (n, a) ∷ ks) × Holds r ks
  unfolding find
  taken-Holds q r [] n a b h asc there dec least upd = absurd (ground (arith, h n))
  taken-Holds q r ((k, c) ∷ ks) n a b h (up, asc) there dec least upd =
      let (d, kept, dec') =
        same-IsStored (find k ((k, c) ∷ ks)) (some c) (read (job k) q.files) (read (job k) q.files)
          (ground arith) refl (h k) in
      let (x, found, dec'') =
        present_lem (find n ((k, c) ∷ ks)) (read (job n) q.files) b (h n) there in
      let is : n ≡ k = elim (Bool-cases (k == n)) [
        | inl is ↦ ground arith
        | inr other ↦ absurd (ground (arith, find-All k n ks up, least k d kept, found))
      ] in
      (
        ks,
        (let alike : c ≡ a = ground (arith, is, found, dec, dec'') in cc),
        λ m. elim (Bool-cases (n == m)) [
          | inl same_name ↦
              same-IsStored none (find m ks) none (read (job m) r.files)
                (find-All k m ks up (ground arith)) (ground (arith, upd m)) refl
          | inr other ↦
              same-IsStored (find m ((k, c) ∷ ks)) (find m ks) (read (job m) q.files)
                (read (job m) r.files) (ground arith) (ground (arith, upd m)) (h m)
        ],
      )
