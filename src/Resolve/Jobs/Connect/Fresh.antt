-- ===== src/Resolve/Jobs/Connect/Fresh.antt =====
-- The jobs that the nodes build are not linked yet.
use cnspec.Common.{
  true, false, Bool-cases, Option-cases, String, str_eq, List, [], ◌∷◌, Option, some, ◌≡◌, refl,
  sym, ap, ◌∙◌, inl, inr, arith,
}
use mathlib.Core.Path.{subst}
use cnspec.Common.Dict.{lookup, update, lookup-update}
use cnspec.Impact.{ScoringSystem}
use cnspec.Node.ReportingJob.{JobType}
use cnspec.Resolve.{
  Mquery, Builder, Node, QueryType, policy_node, query_node, execution_node, framework_node,
  control_node, risk_factor_node,
}
use cnspec.Resolve.Jobs.{
  ReportingJob, Resolved, add_reporting_job, set_scoring, add_reporting_query, add_risk_mrns,
  add_execution, build, new_job,
}
use cnspec.Resolve.Jobs.Connect.Tables.{IsTable, update-IsTable}
use cnspec.Resolve.Walk.Walked.{builds}

abbrev pub IsFreshJob : ReportingJob → Type 0
IsFreshJob j = (j.notify ≡ []) × (j.child_jobs ≡ [])

module _ {X : Type 0} where
  pub record IsFresh (r : Resolved X) : Type 0 where
    pub table : IsTable r.reporting_jobs
    pub fresh : (k : String) (j : ReportingJob) → lookup k r.reporting_jobs ≡ some j → IsFreshJob j

  update-IsFresh :
      (uuid : String) (j : ReportingJob) (r : Resolved X)
      → IsFreshJob j
      → IsFresh r
      → IsFresh (record r { reporting_jobs = update uuid j r.reporting_jobs })
  update-IsFresh uuid j r new h = record {
    table = update-IsTable uuid j r.reporting_jobs h.table;
    fresh = λ k i found. elim (Bool-cases (str_eq uuid k)) [
      | inl is ↦ ground (arith, lookup-update k uuid j r.reporting_jobs, new, found, is)
      | inr other ↦
          h.fresh k i (ground (arith, lookup-update k uuid j r.reporting_jobs, other, found))
    ];
  }

  add_reporting_job-IsFresh :
      (qr_id uuid : String) (type : JobType) (mrns : List String) (r : Resolved X)
      → IsFresh r
      → IsFresh (add_reporting_job qr_id uuid type mrns r)
  unfolding add_reporting_job new_job
  add_reporting_job-IsFresh qr_id uuid type mrns r h =
      elim (Option-cases (lookup uuid r.reporting_jobs)) [
        | inl absent ↦
            rw (add_reporting_job, absent)
              (update-IsFresh uuid (new_job qr_id uuid type mrns) r (refl, refl) h)
        | inr (j, found) ↦ rw (add_reporting_job, found) h
      ]

  set_scoring-IsFresh :
      (uuid : String) (scoring : ScoringSystem) (r : Resolved X)
      → IsFresh r
      → IsFresh (set_scoring uuid scoring r)
  unfolding set_scoring
  set_scoring-IsFresh uuid scoring r h = elim (Option-cases (lookup uuid r.reporting_jobs)) [
    | inl absent ↦ rw (set_scoring, absent) h
    | inr (j, found) ↦
        rw (set_scoring, found)
          (update-IsFresh uuid (record j { scoring_system = scoring }) r (h.fresh uuid j found) h)
  ]

  carry : {u : Resolved X} (t : Resolved X) → IsFresh u → some u ≡ some t → IsFresh t
  carry {u} t h e = let same : u ≡ t = ground (arith, e) in subst IsFresh same h

  -- Changes of the other maps.
  others-IsFresh : (r t : Resolved X) → t.reporting_jobs ≡ r.reporting_jobs → IsFresh r → IsFresh t
  others-IsFresh r t same h = record {
    table = rw same h.table;
    fresh = λ k j found. h.fresh k j (ap (lookup k) (sym same) ∙ found);
  }

  add_risk_mrns-jobs :
      (checksum : String → String) (mrn : String) (codes : List String) (r : Resolved X)
      → (add_risk_mrns checksum mrn codes r).reporting_jobs ≡ r.reporting_jobs
  unfolding add_risk_mrns
  add_risk_mrns-jobs checksum mrn [] r = refl
  add_risk_mrns-jobs checksum mrn (c ∷ cs) r = add_risk_mrns-jobs checksum mrn cs _

  add_reporting_query-jobs :
      (type : QueryType) (code uuid : String) (r : Resolved X)
      → (add_reporting_query type code uuid r).reporting_jobs ≡ r.reporting_jobs
  unfolding add_reporting_query
  add_reporting_query-jobs type code uuid r = ground arith

module _ {X : Type 0} (compile : Mquery → X → Option X) (checksum : String → String)
    (root : String) where
  build-IsFresh :
      (id : String) (n : Node) (r t : Resolved X)
      → build compile checksum root id n r ≡ some t
      → IsFresh r
      → IsFresh t
  unfolding build add_execution
  build-IsFresh id (policy_node scoring true) r t e h =
      carry t (add_reporting_job-IsFresh id root _ [] r h) e
  build-IsFresh id (policy_node scoring false) r t e h =
      carry t (set_scoring-IsFresh (checksum id) scoring _ (add_reporting_job-IsFresh id _ _ _ r h))
        e
  build-IsFresh id (query_node type code) r t e h =
      carry t
        (others-IsFresh _ _ (add_reporting_query-jobs type code (checksum code) _)
          (add_reporting_job-IsFresh id _ _ _ r h))
        e
  build-IsFresh id (execution_node q) r t e h = elim (Option-cases (compile q r.execution)) [
    | inl bad ↦ absurd (ground (arith, e, bad))
    | inr (x, good) ↦
        carry t
          (add_reporting_job-IsFresh q.code_id (checksum q.code_id) JobType.execution_query []
            (record r { execution = x }) (others-IsFresh r _ refl h))
          (ground (arith, e, good))
  ]
  build-IsFresh id framework_node r t e h = carry t (add_reporting_job-IsFresh id _ _ _ r h) e
  build-IsFresh id control_node r t e h = carry t (add_reporting_job-IsFresh id _ _ _ r h) e
  build-IsFresh id (risk_factor_node codes) r t e h =
      carry t
        (others-IsFresh _ _ (add_risk_mrns-jobs checksum id codes _)
          (add_reporting_job-IsFresh id _ _ _ r h))
        e

  pub builds-IsFresh :
      (b : Builder) (vs : List String) (r t : Resolved X)
      → builds (build compile checksum root) b vs r ≡ some t
      → IsFresh r
      → IsFresh t
  unfolding builds
  builds-IsFresh b [] r t e h = carry t h e
  builds-IsFresh b (v ∷ vs) r t e h =
      elim (Option-cases (builds (build compile checksum root) b vs r)) [
        | inl bad ↦ absurd (ground (arith, e, bad))
        | inr (u, good) ↦ elim (Option-cases (lookup v b.nodes)) [
          | inl absent ↦ absurd (ground (arith, e, good, absent))
          | inr (n, found) ↦
              build-IsFresh v n u t (ground (arith, e, good, found))
                (builds-IsFresh b vs r u good h)
        ]
      ]
