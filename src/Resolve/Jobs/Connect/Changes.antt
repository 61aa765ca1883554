-- ===== src/Resolve/Jobs/Connect/Changes.antt =====
-- The links between reporting jobs, and what changing one job does to a table.
use cnspec.Common.{
  Bool, true, false, ◌&&◌, ◌||◌, Option-cases, String, str_eq, eq_iff, List, [], ◌∷◌, Option, none,
  some, ◌≡◌, inl, inr, arith,
}
use cnspec.Common.Dict.{lookup, lookup-update}
use cnspec.Common.Keys.{contains}
use cnspec.Resolve.{EdgeImpact}
use cnspec.Resolve.Edges.{is_some}
use cnspec.Resolve.Jobs.{ReportingJob}
use cnspec.Resolve.Jobs.Connect.{Jobs, change}
use cnspec.Resolve.Jobs.Connect.Tables.{IsTable, update-IsTable}

-- Whether the job `child` notifies the job `parent`, and whether it is one of its child jobs.
unfoldable pub is_notified : Jobs → String → String → Bool
is_notified js child parent = elim (lookup child js) [
  | none ↦ false
  | some j ↦ contains parent j.notify
]

unfoldable pub is_child : Jobs → String → String → Bool
is_child js child parent = elim (lookup parent js) [
  | none ↦ false
  | some j ↦ is_some (lookup child j.child_jobs)
]

-- Whether the edge is one between the jobs, and whether some edge is.
unfoldable pub is_uuid : Option String → String → Bool
is_uuid none k = false
is_uuid (some u) k = str_eq u k

unfoldable pub is_between : List (String × String) → String → EdgeImpact → String → String → Bool
is_between ids to e child parent =
    is_uuid (lookup to ids) parent && is_uuid (lookup e.edge ids) child

unfoldable pub is_source :
    List (String × String) → String → List EdgeImpact → String → String → Bool
is_source ids to [] child parent = false
is_source ids to (e ∷ es) child parent =
    is_between ids to e child parent || is_source ids to es child parent

unfoldable pub is_linked :
    List (String × String) → List (String × List EdgeImpact) → String → String → Bool
is_linked ids [] child parent = false
is_linked ids ((to, es) ∷ rest) child parent =
    is_source ids to es child parent || is_linked ids rest child parent

-- The keys in the index are those of jobs.
abbrev pub IsIndex : List (String × String) → Jobs → Type 0
IsIndex ids js =
    (qr_id uuid : String) → lookup qr_id ids ≡ some uuid → is_some (lookup uuid js) ≡ true

pub change-IsTable :
    (u : String) (f : ReportingJob → ReportingJob) (js : Jobs)
    → IsTable js
    → IsTable (change u f js)
unfolding change
change-IsTable u f js d = elim (Option-cases (lookup u js)) [
  | inl e ↦ rw (change, e) d
  | inr (j, e) ↦ rw (change, e) (update-IsTable u (f j) js d)
]

unfoldable pub changed :
    Bool → (ReportingJob → ReportingJob) → Option ReportingJob → Option ReportingJob
changed false f o = o
changed true f none = none
changed true f (some j) = some (f j)

pub lookup-change :
    (k u : String) (f : ReportingJob → ReportingJob) (js : Jobs)
    → lookup k (change u f js) ≡ changed (str_eq u k) f (lookup k js)
unfolding change changed
lookup-change k u f js = elim (Option-cases (lookup u js)) [
  | inl e ↦ ground (arith, e, eq_iff u k)
  | inr (j, e) ↦ ground (arith, e, lookup-update k u (f j) js, eq_iff u k)
]

pub is_some-change :
    (k u : String) (f : ReportingJob → ReportingJob) (js : Jobs)
    → is_some (lookup k (change u f js)) ≡ is_some (lookup k js)
unfolding changed is_some
is_some-change k u f js = ground (arith, lookup-change k u f js)
