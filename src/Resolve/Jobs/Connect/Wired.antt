-- ===== src/Resolve/Jobs/Connect/Wired.antt =====
-- A resolved policy is wired as its graph is.
use cnspec.Common.{
  ◌<◌, length, ℕ, Option, ◌⊎◌, Bool, true, Option-cases, String, List, [], some, ◌≡◌, refl, ◌∙◌,
  inl, inr, eq_iff, arith,
}
use cnspec.Common.Dict.{lookup}
use cnspec.Common.Keys.{contains, IsDistinct}
use cnspec.Resolve.{Mquery, Builder}
use cnspec.Resolve.Edges.{is_some}
use cnspec.Resolve.Jobs.{build, ReportingJob, Resolved}
use cnspec.Resolve.Jobs.Connect.{
  failed, done, State, resolve, new_resolved, built, Outcome, finish, Jobs, change, connect_all,
  by_qr_id, validate, as_root, Resolution, resolved, build_error, duplicate_qr_id,
  no_matching_policy, unfinished, finish_with,
}
use cnspec.Resolve.Jobs.Connect.Fresh.{builds-IsFresh, IsFresh}
use cnspec.Resolve.Jobs.Connect.Index.{
  qr_ids, IsNamed, IsIndexed, by_qr_id-IsIndexed, by_qr_id-none,
}
use cnspec.Resolve.Jobs.Connect.Tables.{keys, IsTable, validate_closed}
use cnspec.Resolve.Jobs.Connect.Changes.{
  is_notified, is_child, is_linked, IsIndex, change-IsTable, lookup-change, changed,
}
use cnspec.Resolve.Jobs.Connect.Links.{Links, connect_all-Links}
use cnspec.Resolve.Walk.Reached.{walk_reaches, Ended}

-- The keys in the index are those of jobs.
IsIndexed-IsIndex : (ids : List (String × String)) (js : Jobs) → IsIndexed js ids → IsIndex ids js
unfolding is_some
IsIndexed-IsIndex ids js h q u found = let (j, at, _) = (h q u).0 found in ground (arith, at)

-- Both kinds of links are those for which the test holds.
pub record IsLinked (test : String → String → Bool) (js : Jobs) : Type 0 where
  pub notifies : (c p : String) → is_notified js c p ≡ test c p
  pub children : (c p : String) → is_child js c p ≡ test c p
  pub table : IsTable js

linked_validates :
    (test : String → String → Bool) (js : Jobs) → IsLinked test js → validate js ≡ true
unfolding is_notified is_child is_some
linked_validates test js h = validate_closed js h.table (λ k j found. (
  λ c i. ground (arith, h.notifies c k, h.children c k, found, i),
  λ p i. ground (arith, h.notifies k p, h.children k p, found, i),
))

fresh-IsLinked :
    {X : Type 0} (test : String → String → Bool) (r : Resolved X) (ks : Jobs)
    → IsFresh r
    → Links test r.reporting_jobs ks
    → IsLinked test ks
unfolding is_notified is_child is_some lookup contains
fresh-IsLinked test r ks h l = record {
  notifies = λ c p. elim (Option-cases (lookup c r.reporting_jobs)) [
    | inl absent ↦ ground (arith, l.notifies c p, absent)
    | inr (j, found) ↦ ground (arith, l.notifies c p, found, (h.fresh c j found).0)
  ];
  children = λ c p. elim (Option-cases (lookup p r.reporting_jobs)) [
    | inl absent ↦ ground (arith, l.children c p, absent)
    | inr (j, found) ↦ ground (arith, l.children c p, found, (h.fresh p j found).1)
  ];
  table = l.table h.table;
}

as_root-IsLinked :
    (u : String) (test : String → String → Bool) (js : Jobs)
    → IsLinked test js
    → IsLinked test (change u as_root js)
unfolding is_notified is_child as_root changed is_some
as_root-IsLinked u test js h = record {
  notifies = λ c p. elim (Option-cases (lookup c js)) [
    | inl absent ↦ ground (arith, h.notifies c p, absent, lookup-change c u as_root js)
    | inr (j, found) ↦ ground (arith, h.notifies c p, found, lookup-change c u as_root js)
  ];
  children = λ c p. elim (Option-cases (lookup p js)) [
    | inl absent ↦ ground (arith, h.children c p, absent, lookup-change p u as_root js)
    | inr (j, found) ↦ ground (arith, h.children c p, found, lookup-change p u as_root js)
  ];
  table = change-IsTable u as_root js h.table;
}

-- The job that stands for the root.
abbrev pub IsRoot : Jobs → String → Type 0
IsRoot js u = (j : ReportingJob) × (lookup u js ≡ some j) × (j.qr_id ≡ "root")

as_root-IsRoot :
    (u : String) (js : Jobs) → is_some (lookup u js) ≡ true → IsRoot (change u as_root js) u
unfolding as_root changed is_some
as_root-IsRoot u js h = elim (Option-cases (lookup u js)) [
  | inl absent ↦ absurd (ground (arith, absent, h))
  | inr (j, found) ↦
      (as_root j, ground (arith, found, lookup-change u u as_root js, eq_iff u u), refl)
]

module _ (bundle_mrn : String) (b : Builder) where
  -- The resolved policy: the qr ids of its jobs, its root, its links, and what `Validate` says.
  abbrev pub IsWired : Jobs → Resolution → Type 0
  IsWired js (resolved ks root) =
      IsDistinct (qr_ids js)
      × IsNamed js bundle_mrn root
      × ((ids : List (String × String)) × IsIndexed js ids
          × IsLinked (is_linked ids b.reports_from) ks)
      × IsRoot ks root
      × (validate ks ≡ true)
  IsWired js duplicate_qr_id = ¬ (IsDistinct (qr_ids js))
  IsWired js no_matching_policy =
      IsDistinct (qr_ids js) × ((u : String) → ¬ (IsNamed js bundle_mrn u))
  IsWired js build_error = ⊥
  IsWired js unfinished = ⊥

  finish_with-IsWired :
      {X : Type 0} (r : Resolved X)
      → IsFresh r
      → IsWired r.reporting_jobs
          (finish_with bundle_mrn b r.reporting_jobs (by_qr_id r.reporting_jobs []))
  unfolding finish_with lookup is_some
  finish_with-IsWired r h =
      let js = r.reporting_jobs in
      elim (Option-cases (by_qr_id js [])) [
        | inl twice ↦ rw (finish_with, twice) (by_qr_id-none js twice)
        | inr (ids, once) ↦
            let (distinct, named) = by_qr_id-IsIndexed js ids h.table once in
            let index : IsIndex ids js = IsIndexed-IsIndex ids js named in
            let l = connect_all-Links ids b.reports_from js index in
            elim (Option-cases (lookup bundle_mrn ids)) [
              | inl absent ↦
                  rw (finish_with, once, absent)
                    (distinct, λ u at. cc (absent, (named bundle_mrn u).1 at))
              | inr (u, found) ↦
                  let ks = connect_all ids b.reports_from js in
                  let test = is_linked ids b.reports_from in
                  let k : IsLinked test (change u as_root ks) =
                    as_root-IsLinked u test ks (fresh-IsLinked test r ks h l) in
                  let root : IsRoot (change u as_root ks) u =
                    as_root-IsRoot u ks (l.known u ∙ index bundle_mrn u found) in
                  rw (finish_with, once, found)
                    (
                      distinct,
                      (named bundle_mrn u).0 found,
                      (ids, named, k),
                      root,
                      linked_validates test (change u as_root ks) k,
                    )
            ]
      ]

module _ {X : Type 0} (compile : Mquery → X → Option X) (checksum : String → String) (root : String)
    (is_space : String → Bool) where
  abbrev pub IsResolved : String → Builder → Outcome (Resolved X) → Resolution → Type 0
  IsResolved mrn b o r =
      ((t : State (Resolved X)) × (o ≡ done t) × IsWired mrn b t.job.reporting_jobs r)
      ⊎ ((o ≡ failed) × (r ≡ build_error))

  new-IsFresh : (x : X) → IsFresh (new_resolved x)
  unfolding lookup keys
  new-IsFresh x = record { table = tt; fresh = λ k j e. cc }

  finish_lem :
      (mrn : String) (b : Builder) (x : X) (o : Outcome (Resolved X))
      → Ended (build compile checksum root) b is_space (new_resolved x) o
      → IsResolved mrn b o (finish mrn b o)
  unfolding finish
  finish_lem mrn b x (done t) (_, _, made) = inl (
    t,
    refl,
    finish_with-IsWired mrn b t.job (
        builds-IsFresh compile checksum root b t.visited (new_resolved x) t.job made
          (new-IsFresh x)),
  )
  finish_lem mrn b x failed h = inr (refl, refl)
  finish_lem mrn b x cnspec.Resolve.Walk.out_of_fuel h = absurd h

  -- With more fuel than nodes, resolving ends, with an error if a node does not build. Else the
  -- result is an error exactly if two of the jobs that were built have one qr id, or none has
  -- that of the bundle, and otherwise the jobs with a root: the root is the job of the bundle
  -- and has the qr id "root", a job notifies another, and is its child, exactly if the graph
  -- has an edge between the qr ids of the two, and `Validate` passes.
  pub resolve-IsWired :
      (fuel : ℕ) (mrn : String) (x : X) (b : Builder)
      → length b.nodes < fuel
      → IsResolved mrn b
          (built compile checksum root is_space fuel x b)
          (resolve compile checksum root is_space fuel mrn x b)
  unfolding built resolve
  resolve-IsWired fuel mrn x b room =
      finish_lem mrn b x (built compile checksum root is_space fuel x b)
        (walk_reaches (build compile checksum root) b is_space fuel (new_resolved x) room)
