-- ===== src/Resolve/Risks.antt =====
-- `addRiskFactor` of policy/resolved_policy_builder.go, and the loop over the risk factors of a policy.
use cnspec.Common.{
  Bool, true, false, ◌&&◌, ◌&&◌, String, List, [], ◌∷◌, Option, none, some, if◌then◌else◌,
}
use cnspec.Common.Dict.{update}
use cnspec.Resolve.{
  Mquery, RiskFactor, Builder, Settings, risk_factor_node, execution_node, RiskDataQueryRef,
}
use cnspec.Resolve.Edges.{add_edge, add_node}
use cnspec.Resolve.Groups.{can_run, action_of, any_filter_matches, ignoring}

-- The result of `addRiskFactor`.
pub data RiskResult : Type 0 where
  risk_added unmatched variants_error : RiskResult

module _ (s : Settings) where
  unfoldable pub some_variants : List String → Bool
  some_variants [] = false
  some_variants (v ∷ vs) = true

  -- The loop over the checks of a risk factor, with the code ids; `none` is the error.
  unfoldable pub add_risk_checks : String → List Mquery → Builder → Builder × Option (List String)
  unfolding some_variants
  add_risk_checks mrn [] b = (b, some [])
  add_risk_checks mrn (c ∷ cs) b =
      let skipped = add_risk_checks mrn cs b in
      let rest =
        add_risk_checks mrn cs
          (add_edge c.code_id mrn (some ignoring) (add_node c.code_id (execution_node c) b)) in
      if some_variants c.variants
      then (b, none)
      else if any_filter_matches s c.filters
      then (rest.0, elim rest.1 [ none ↦ none | some ids ↦ some (c.code_id ∷ ids) ])
      else skipped

  -- The loop over its data queries.
  unfoldable pub add_risk_queries : List Mquery → Builder → Builder × Option (List RiskDataQueryRef)
  unfolding some_variants
  add_risk_queries [] b = (b, some [])
  add_risk_queries (q ∷ qs) b =
      let skipped = add_risk_queries qs b in
      let rest = add_risk_queries qs (add_node q.code_id (execution_node q) b) in
      if some_variants q.variants
      then (b, none)
      else if any_filter_matches s q.filters
      then (
        rest.0,
        elim rest.1 [
          | none ↦ none
          | some refs ↦ some (record { code_id = q.code_id; query_mrn = q.mrn } ∷ refs)
        ],
      )
      else skipped

  unfoldable pub set_data_queries : String → List RiskDataQueryRef → Builder → Builder
  set_data_queries mrn [] b = b
  set_data_queries mrn (r ∷ refs) b = record b {
    risk_data_query_infos = update mrn (r ∷ refs) b.risk_data_query_infos;
  }

  -- What follows the two loops.
  unfoldable pub finish_risk :
      String → Builder → List String → List RiskDataQueryRef → Builder × RiskResult
  unfolding set_data_queries
  finish_risk mrn b [] [] = (b, unmatched)
  finish_risk mrn b ids refs =
      (add_node mrn (risk_factor_node ids) (set_data_queries mrn refs b), risk_added)

  unfoldable pub after_queries :
      String → List String → Builder × Option (List RiskDataQueryRef) → Builder × RiskResult
  after_queries mrn ids (d, none) = (d, variants_error)
  after_queries mrn ids (d, some refs) = finish_risk mrn d ids refs

  unfoldable pub after_checks : RiskFactor → Builder × Option (List String) → Builder × RiskResult
  after_checks r (c, none) = (c, variants_error)
  after_checks r (c, some ids) = after_queries r.mrn ids (add_risk_queries r.queries c)

  -- `addRiskFactor`
  unfoldable pub add_risk_factor : RiskFactor → Builder → Builder × RiskResult
  add_risk_factor r b =
      if can_run (action_of s r.mrn) && any_filter_matches s r.filters
      then after_checks r (add_risk_checks r.mrn r.checks b)
      else (b, unmatched)

  -- What follows `addRiskFactor`; `rest` is the rest of the loop.
  unfoldable pub after_risk :
      String → RiskFactor → (Builder → Builder × Bool) → Builder × RiskResult → Builder × Bool
  after_risk mrn r rest (d, risk_added) = ((rest (add_edge r.mrn mrn (some ignoring) d)).0, true)
  after_risk mrn r rest (d, unmatched) = rest d
  after_risk mrn r rest (d, variants_error) = rest d

  -- The loop over the risk factors of a policy, and whether one was added.
  unfoldable pub add_risk_factors : String → List RiskFactor → Builder → Builder × Bool
  add_risk_factors mrn [] b = (b, false)
  add_risk_factors mrn (r ∷ rs) b = elim r.checks [
    | [] ↦ add_risk_factors mrn rs b
    | c ∷ cs ↦ after_risk mrn r (add_risk_factors mrn rs) (add_risk_factor r b)
  ]
