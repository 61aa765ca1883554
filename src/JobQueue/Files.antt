-- ===== src/JobQueue/Files.antt =====
-- What the file operations do to the files that can be read.
use cnspec.Common.{
  true, false, Bool-cases, List, [], ◌∷◌, none, some, if◌then◌else◌, ◌≡◌, inl, inr, refl, arith,
}
use cnspec.JobQueue.{
  Name, job, temp, same, before, read, remove, write, rename, insert_file, sort_files,
}

same_trans : (i j k : Name) → same i j ≡ true → same i k ≡ same j k
unfolding same
same_trans (job l) (job m) (job n) e = ground arith
same_trans (temp l) (temp m) (temp n) e = ground arith
same_trans (job l) (temp m) k e = cc
same_trans (temp l) (job m) k e = cc
same_trans (job l) (job m) (temp n) e = refl
same_trans (temp l) (temp m) (job n) e = refl

same_sym : (i j : Name) → same i j ≡ same j i
unfolding same
same_sym (job m) (job n) = ground arith
same_sym (temp m) (temp n) = ground arith
same_sym (job m) (temp n) = refl
same_sym (temp m) (job n) = refl

before-same : (i j : Name) → before i j ≡ true → same i j ≡ false
unfolding same before
before-same (job m) (job n) e = ground arith
before-same (temp m) (temp n) e = ground arith
before-same (job m) (temp n) e = refl
before-same (temp m) (job n) e = refl

module _ {B : Type 0} where
  pub read-remove :
      (k j : Name) (fs : List (Name × B))
      → read k (remove j fs) ≡ (if same j k then none else read k fs)
  unfolding read remove
  read-remove k j [] = ground arith
  read-remove k j ((i, b) ∷ fs) = elim (Bool-cases (same i j)) [
    | inl e ↦ ground (arith, read-remove k j fs, same_trans i j k e)
    | inr e ↦ ground (arith, read-remove k j fs, same_trans i k j, same_sym j k)
  ]

  pub read-write :
      (k j : Name) (b : B) (fs : List (Name × B))
      → read k (write j b fs) ≡ (if same j k then some b else read k fs)
  unfolding read write
  read-write k j b fs = ground (arith, read-remove k j fs)

  pub read-rename :
      (k i j : Name) (b : B) (fs : List (Name × B))
      → read i fs ≡ some b
      → read k (rename i j fs) ≡ (if same j k then some b else if same i k then none else read k fs)
  unfolding rename
  read-rename k i j b fs e = ground (arith, e, read-write k j b (remove i fs), read-remove k i fs)

  read-insert_file :
      (k : Name) (f : Name × B) (fs : List (Name × B)) → read k (insert_file f fs) ≡ read k (f ∷ fs)
  unfolding read insert_file
  read-insert_file k f [] = refl
  read-insert_file k (i, b) ((j, c) ∷ fs) = elim (Bool-cases (before j i)) [
    | inl e ↦
        ground
          (arith, read-insert_file k (i, b) fs, before-same j i e, same_trans j k i, same_sym i k)
    | inr e ↦ ground arith
  ]

  pub read-sort_files : (k : Name) (fs : List (Name × B)) → read k (sort_files fs) ≡ read k fs
  unfolding read sort_files
  read-sort_files k [] = refl
  read-sort_files k ((j, b) ∷ fs) =
      ground (arith, read-insert_file k (j, b) (sort_files fs), read-sort_files k fs)
