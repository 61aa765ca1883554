-- ===== src/Resolve/Policies/RiskKept.antt =====
-- Adding risk factors loses nothing.
use cnspec.Common.{
  List-cases, Bool, false, Bool-cases, ◌&&◌, String, List, [], ◌∷◌, All, Option, none, some, ◌≡◌,
  inl, inr,
}
use cnspec.Resolve.{
  Mquery, RiskFactor, Builder, Settings, risk_factor_node, RiskDataQueryRef, execution_node,
}
use cnspec.Resolve.Edges.{targets, sources, add_edge, add_node}
use cnspec.Resolve.Groups.{can_run, action_of, any_filter_matches, ignoring}
use cnspec.Resolve.Risks.{
  after_risk, RiskResult, risk_added, unmatched, variants_error, some_variants, add_risk_checks,
  add_risk_queries, set_data_queries, finish_risk, after_queries, after_checks, add_risk_factor,
  add_risk_factors,
}
use cnspec.Resolve.Queries.Sound.{
  IsSound, Kept, Kept-self, Kept-trans, edge-Kept, execution-Kept, other-Kept,
}

module _ (s : Settings) (is_code : String → Bool) where
  risk_checks-Kept :
      (mrn : String) (cs : List Mquery) (b : Builder)
      → IsSound is_code b
      → Kept is_code b (add_risk_checks s mrn cs b).0
  unfolding add_risk_checks
  risk_checks-Kept mrn [] b h = Kept-self is_code b h
  risk_checks-Kept mrn (c ∷ cs) b h = elim (Bool-cases (some_variants s c.variants)) [
    | inl variants ↦ rw (add_risk_checks, variants) (Kept-self is_code b h)
    | inr plain ↦ elim (Bool-cases (any_filter_matches s c.filters)) [
      | inr other ↦ rw (add_risk_checks, plain, other) (risk_checks-Kept mrn cs b h)
      | inl matches ↦
          let d = add_node c.code_id (execution_node c) b in
          let k = execution-Kept is_code c.code_id c b h in
          let l = edge-Kept is_code c.code_id mrn (some ignoring) d k.sound in
          let e = add_edge c.code_id mrn (some ignoring) d in
          rw (add_risk_checks, plain, matches)
            (Kept-trans is_code b e _ (Kept-trans is_code b d e k l)
              (risk_checks-Kept mrn cs e l.sound))
    ]
  ]

  risk_queries-Kept :
      (qs : List Mquery) (b : Builder)
      → IsSound is_code b
      → Kept is_code b (add_risk_queries s qs b).0
  unfolding add_risk_queries
  risk_queries-Kept [] b h = Kept-self is_code b h
  risk_queries-Kept (q ∷ qs) b h = elim (Bool-cases (some_variants s q.variants)) [
    | inl variants ↦ rw (add_risk_queries, variants) (Kept-self is_code b h)
    | inr plain ↦ elim (Bool-cases (any_filter_matches s q.filters)) [
      | inr other ↦ rw (add_risk_queries, plain, other) (risk_queries-Kept qs b h)
      | inl matches ↦
          let d = add_node q.code_id (execution_node q) b in
          let k = execution-Kept is_code q.code_id q b h in
          rw (add_risk_queries, plain, matches)
            (Kept-trans is_code b d _ k (risk_queries-Kept qs d k.sound))
    ]
  ]

  data_queries-Kept :
      (mrn : String) (refs : List RiskDataQueryRef) (b : Builder)
      → IsSound is_code b
      → Kept is_code b (set_data_queries s mrn refs b)
  unfolding set_data_queries targets sources
  data_queries-Kept mrn [] b h = Kept-self is_code b h
  data_queries-Kept mrn (r ∷ refs) b h = record {
    grown = record { nodes = λ k n. n; edges = λ u v e. e };
    sound = record {
      running = h.running;
      in_sync = record {
        same = h.in_sync.same;
        once_to = h.in_sync.once_to;
        once_from = h.in_sync.once_from;
      };
    };
  }

  finish_risk-Kept :
      (mrn : String) (b : Builder) (ids : List String) (refs : List RiskDataQueryRef)
      → is_code mrn ≡ false
      → IsSound is_code b
      → Kept is_code b (finish_risk s mrn b ids refs).0
  unfolding finish_risk set_data_queries
  finish_risk-Kept mrn b [] [] plain h = Kept-self is_code b h
  finish_risk-Kept mrn b [] (r ∷ refs) plain h =
      let k = data_queries-Kept mrn (r ∷ refs) b h in
      Kept-trans is_code b _ _ k (other-Kept is_code mrn (risk_factor_node []) _ plain k.sound)
  finish_risk-Kept mrn b (i ∷ ids) refs plain h =
      let k = data_queries-Kept mrn refs b h in
      Kept-trans is_code b _ _ k
        (other-Kept is_code mrn (risk_factor_node (i ∷ ids)) _ plain k.sound)

  after_queries-Kept :
      (mrn : String) (ids : List String) (b : Builder)
      (r : Builder × Option (List RiskDataQueryRef))
      → is_code mrn ≡ false
      → Kept is_code b r.0
      → Kept is_code b (after_queries s mrn ids r).0
  unfolding after_queries
  after_queries-Kept mrn ids b (d, none) plain k = k
  after_queries-Kept mrn ids b (d, some refs) plain k =
      Kept-trans is_code b d _ k (finish_risk-Kept mrn d ids refs plain k.sound)

  after_checks-Kept :
      (r : RiskFactor) (b : Builder) (o : Builder × Option (List String))
      → is_code r.mrn ≡ false
      → Kept is_code b o.0
      → Kept is_code b (after_checks s r o).0
  unfolding after_checks
  after_checks-Kept r b (c, none) plain k = k
  after_checks-Kept r b (c, some ids) plain k =
      after_queries-Kept r.mrn ids b (add_risk_queries s r.queries c) plain
        (Kept-trans is_code b c _ k (risk_queries-Kept r.queries c k.sound))

  risk_factor-Kept :
      (r : RiskFactor) (b : Builder)
      → is_code r.mrn ≡ false
      → IsSound is_code b
      → Kept is_code b (add_risk_factor s r b).0
  unfolding add_risk_factor
  risk_factor-Kept r b plain h =
      elim (Bool-cases (can_run (action_of s r.mrn) && any_filter_matches s r.filters)) [
        | inl runs ↦
            rw (add_risk_factor, runs)
              (after_checks-Kept r b (add_risk_checks s r.mrn r.checks b) plain
                (risk_checks-Kept r.mrn r.checks b h))
        | inr stopped ↦ rw (add_risk_factor, stopped) (Kept-self is_code b h)
      ]

  after_risk-Kept :
      (mrn : String) (r : RiskFactor) (rest : Builder → Builder × Bool) (b : Builder)
      (o : Builder × RiskResult)
      → ((d : Builder) → IsSound is_code d → Kept is_code d (rest d).0)
      → Kept is_code b o.0
      → Kept is_code b (after_risk s mrn r rest o).0
  unfolding after_risk
  after_risk-Kept mrn r rest b (d, risk_added) h k =
      let l = edge-Kept is_code r.mrn mrn (some ignoring) d k.sound in
      let e = add_edge r.mrn mrn (some ignoring) d in
      Kept-trans is_code b e _ (Kept-trans is_code b d e k l) (h e l.sound)
  after_risk-Kept mrn r rest b (d, unmatched) h k = Kept-trans is_code b d _ k (h d k.sound)
  after_risk-Kept mrn r rest b (d, variants_error) h k = Kept-trans is_code b d _ k (h d k.sound)

  pub risk_factors-Kept :
      (mrn : String) (rs : List RiskFactor) (b : Builder)
      → All (λ r. is_code r.mrn ≡ false) rs
      → IsSound is_code b
      → Kept is_code b (add_risk_factors s mrn rs b).0
  unfolding add_risk_factors
  risk_factors-Kept mrn [] b plain h = Kept-self is_code b h
  risk_factors-Kept mrn (r ∷ rs) b (plain, more) h = elim (List-cases r.checks) [
    | inl unused ↦ rw (add_risk_factors, unused) (risk_factors-Kept mrn rs b more h)
    | inr (c, cs, used) ↦
        rw (add_risk_factors, used)
          (after_risk-Kept mrn r (add_risk_factors s mrn rs) b (add_risk_factor s r b)
            (λ d k. risk_factors-Kept mrn rs d more k) (risk_factor-Kept r b plain h))
  ]
