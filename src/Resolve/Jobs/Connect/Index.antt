-- ===== src/Resolve/Jobs/Connect/Index.antt =====
-- The index of the reporting jobs by their qr ids that `buildResolvedPolicy` of
-- policy/resolved_policy_builder.go makes, against the jobs themselves.
use cnspec.Common.{
  ◌↔◌, true, false, Bool-cases, Option-cases, String, str_eq, eq_iff, List, [], ◌∷◌, All, none,
  some, ◌≡◌, ◌≢◌, refl, inl, inr, arith,
}
use cnspec.Common.Dict.{lookup, update, lookup-update, lookup-update_self, lookup-All}
use cnspec.Common.Keys.{contains, IsDistinct}
use cnspec.Resolve.Edges.{is_some}
use cnspec.Resolve.Jobs.{ReportingJob}
use cnspec.Resolve.Jobs.Connect.{Jobs, by_qr_id}
use cnspec.Resolve.Jobs.Connect.Tables.{IsTable, entries}
use mathlib.Core.Path.{subst}

pub qr_ids : Jobs → List String
qr_ids [] = []
qr_ids ((k, j) ∷ js) = j.qr_id ∷ qr_ids js

-- The job under the key has the qr id.
abbrev pub IsNamed : Jobs → String → String → Type 0
IsNamed js q u = (j : ReportingJob) × (lookup u js ≡ some j) × (j.qr_id ≡ q)

-- The index leads from the qr ids to the keys of their jobs, and has no other entry.
abbrev pub IsIndexed : Jobs → List (String × String) → Type 0
IsIndexed js ids = (q u : String) → (lookup q ids ≡ some u) ↔ IsNamed js q u

by_qr_id-cons :
    (k : String) (j : ReportingJob) (js : Jobs) (ids out : List (String × String))
    → by_qr_id ((k, j) ∷ js) ids ≡ some out
    → (lookup j.qr_id ids ≡ none) × (by_qr_id js (update j.qr_id k ids) ≡ some out)
unfolding by_qr_id
by_qr_id-cons k j js ids out e = elim (Option-cases (lookup j.qr_id ids)) [
  | inl fresh ↦ (fresh, ground (arith, e, fresh))
  | inr (other, twice) ↦ absurd (ground (arith, e, twice))
]

-- No job has a qr id that is in the index before.
free :
    (js : Jobs) (ids out : List (String × String)) (q : String)
    → by_qr_id js ids ≡ some out
    → is_some (lookup q ids) ≡ true
    → contains q (qr_ids js) ≡ false
unfolding contains qr_ids is_some
free [] ids out q e h = refl
free ((k, j) ∷ js) ids out q e h =
    let (fresh, rest) = by_qr_id-cons k j js ids out e in
    elim (Bool-cases (str_eq j.qr_id q)) [
      | inl is ↦ absurd (ground (arith, fresh, h, is, eq_iff j.qr_id q))
      | inr other ↦ ground (
        arith,
        other,
        free js (update j.qr_id k ids) out q rest
            (ground (arith, h, other, lookup-update q j.qr_id k ids)),
      )
    ]

by_qr_id-IsDistinct :
    (js : Jobs) (ids out : List (String × String))
    → by_qr_id js ids ≡ some out
    → IsDistinct (qr_ids js)
unfolding qr_ids is_some
by_qr_id-IsDistinct [] ids out e = tt
by_qr_id-IsDistinct ((k, j) ∷ js) ids out e =
    let (fresh, rest) = by_qr_id-cons k j js ids out e in
    (
      free js (update j.qr_id k ids) out j.qr_id rest
          (ground (arith, lookup-update_self j.qr_id k ids)),
      by_qr_id-IsDistinct js (update j.qr_id k ids) out rest,
    )

-- Jobs with distinct qr ids have an index.
by_qr_id-total :
    (js : Jobs) (ids : List (String × String))
    → IsDistinct (qr_ids js)
    → ((q : String) → contains q (qr_ids js) ≡ true → lookup q ids ≡ none)
    → by_qr_id js ids ≢ none
unfolding by_qr_id contains qr_ids
by_qr_id-total [] ids d h = λ e. cc e
by_qr_id-total ((k, j) ∷ js) ids (new, d) h =
    let fresh : lookup j.qr_id ids ≡ none = h j.qr_id (ground (arith, eq_iff j.qr_id j.qr_id)) in
    rw (by_qr_id, fresh)
      (by_qr_id-total js (update j.qr_id k ids) d (λ q m. elim (Bool-cases (str_eq j.qr_id q)) [
        | inl is ↦ absurd (ground (arith, new, m, is, eq_iff j.qr_id q))
        | inr other ↦
            ground (arith, other, lookup-update q j.qr_id k ids, h q (ground (arith, m, other)))
      ]))

-- The index keeps its entries, and gets one for every job.
kept :
    (js : Jobs) (ids out : List (String × String)) (q u : String)
    → by_qr_id js ids ≡ some out
    → lookup q ids ≡ some u
    → lookup q out ≡ some u
unfolding by_qr_id
kept [] ids out q u e h = ground (arith, e, h)
kept ((k, j) ∷ js) ids out q u e h =
    let (fresh, rest) = by_qr_id-cons k j js ids out e in
    kept js (update j.qr_id k ids) out q u rest
      (ground (arith, h, fresh, lookup-update q j.qr_id k ids, eq_iff j.qr_id q))

by_qr_id-All :
    (js : Jobs) (ids out : List (String × String))
    → by_qr_id js ids ≡ some out
    → All (λ e. lookup e.1.qr_id out ≡ some e.0) js
by_qr_id-All [] ids out e = tt
by_qr_id-All ((k, j) ∷ js) ids out e =
    let (fresh, rest) = by_qr_id-cons k j js ids out e in
    (
      kept js (update j.qr_id k ids) out j.qr_id k rest (lookup-update_self j.qr_id k ids),
      by_qr_id-All js (update j.qr_id k ids) out rest,
    )

-- Every entry of the index is that of a job.
by_qr_id-IsNamed :
    (all js : Jobs) (ids out : List (String × String))
    → All (λ e. lookup e.0 all ≡ some e.1) js
    → by_qr_id js ids ≡ some out
    → ((q u : String) → lookup q ids ≡ some u → IsNamed all q u)
    → (q u : String) → lookup q out ≡ some u
    → IsNamed all q u
unfolding by_qr_id
by_qr_id-IsNamed all [] ids out h e named q u found = named q u (ground (arith, e, found))
by_qr_id-IsNamed all ((k, j) ∷ js) ids out (here, h) e named q u found =
    let (fresh, rest) = by_qr_id-cons k j js ids out e in
    by_qr_id-IsNamed all js (update j.qr_id k ids) out h rest
      (λ v w at. elim (Bool-cases (str_eq j.qr_id v)) [
        | inl is ↦
            let key : k ≡ w = ground (arith, at, is, lookup-update v j.qr_id k ids) in
            (j, subst (λ i. lookup i all ≡ some j) key here, (eq_iff j.qr_id v).0 is)
        | inr other ↦ named v w (ground (arith, at, other, lookup-update v j.qr_id k ids))
      ])
      q u found

pub by_qr_id-IsIndexed :
    (js : Jobs) (ids : List (String × String))
    → IsTable js
    → by_qr_id js [] ≡ some ids
    → IsDistinct (qr_ids js) × IsIndexed js ids
unfolding lookup
by_qr_id-IsIndexed js ids d e = (
  by_qr_id-IsDistinct js [] ids e,
  λ q u. (
    by_qr_id-IsNamed js js [] ids (entries js d) e (λ v w at. cc at) q u,
    λ (j, found, is).
        subst (λ i. lookup i ids ≡ some u) is
          (lookup-All (λ i v. lookup v.qr_id ids ≡ some i) u j js (by_qr_id-All js [] ids e) found),
  ),
)

pub by_qr_id-none : (js : Jobs) → by_qr_id js [] ≡ none → ¬ (IsDistinct (qr_ids js))
unfolding lookup
by_qr_id-none js e d = by_qr_id-total js [] d (λ q m. refl) e
