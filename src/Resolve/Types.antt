-- ===== src/Resolve/Types.antt =====
-- `collectQueryTypes` of policy/resolved_policy_builder.go: whether a query is scored, collects data, or
-- both. The recursions over variants and over policies are on fuel; `none` means that it ran out.
use cnspec.Common.{ℕ, zero, suc, true, false, String, List, [], ◌∷◌, Option, none, some}
use cnspec.Common.Dict.{lookup, update}
use cnspec.Resolve.{
  Mquery, PolicyRef, PolicyGroup, RiskFactor, Settings, QueryType, scoring, data_query, both,
}
use cnspec.Resolve.Groups.{is_group_matching}

abbrev pub Types : Type 0
Types = List (String × QueryType)

-- The type of a query that is used with two types.
unfoldable pub join_type : QueryType → QueryType → QueryType
join_type both t = both
join_type scoring scoring = scoring
join_type data_query data_query = data_query
join_type _ _ = both

-- The first step of `accumulate`.
unfoldable pub note_type : String → QueryType → Types → Types
note_type mrn t acc = elim (lookup mrn acc) [
  | none ↦ update mrn t acc
  | some old ↦ update mrn (join_type old t) acc
]

module _ (s : Settings) where
  -- The loop over variants.
  unfoldable pub accumulate_all :
      (String → Types → Option Types) → List String → Types → Option Types
  accumulate_all visit [] acc = some acc
  accumulate_all visit (v ∷ vs) acc = elim (visit v acc) [
    | none ↦ none
    | some a ↦ accumulate_all visit vs a
  ]

  -- `accumulate`
  unfoldable pub accumulate : ℕ → QueryType → String → Types → Option Types
  accumulate zero t mrn acc = none
  accumulate (suc fuel) t mrn acc = elim (lookup mrn s.queries) [
    | none ↦ some (note_type mrn t acc)
    | some q ↦ accumulate_all (accumulate fuel t) q.variants (note_type mrn t acc)
  ]

  -- The loops over checks and queries.
  unfoldable pub accumulate_queries : ℕ → QueryType → List Mquery → Types → Option Types
  accumulate_queries fuel t [] acc = some acc
  accumulate_queries fuel t (q ∷ qs) acc = elim (accumulate fuel t q.mrn acc) [
    | none ↦ none
    | some a ↦ accumulate_queries fuel t qs a
  ]

  unfoldable pub accumulate_both : ℕ → List Mquery → List Mquery → Types → Option Types
  accumulate_both fuel checks queries acc = elim (accumulate_queries fuel scoring checks acc) [
    | none ↦ none
    | some a ↦ accumulate_queries fuel data_query queries a
  ]

  unfoldable pub collect_refs :
      (String → Types → Option Types) → List PolicyRef → Types → Option Types
  collect_refs visit [] acc = some acc
  collect_refs visit (r ∷ rs) acc = elim (visit r.mrn acc) [
    | none ↦ none
    | some a ↦ collect_refs visit rs a
  ]

  unfoldable pub collect_groups :
      ℕ → (String → Types → Option Types) → List PolicyGroup → Types → Option Types
  collect_groups fuel visit [] acc = some acc
  collect_groups fuel visit (g ∷ gs) acc = elim (is_group_matching s g) [
    | false ↦ collect_groups fuel visit gs acc
    | true ↦ elim (accumulate_both fuel g.checks g.queries acc) [
      | none ↦ none
      | some a ↦ elim (collect_refs visit g.policies a) [
        | none ↦ none
        | some c ↦ collect_groups fuel visit gs c
      ]
    ]
  ]

  unfoldable pub collect_risks : ℕ → List RiskFactor → Types → Option Types
  collect_risks fuel [] acc = some acc
  collect_risks fuel (r ∷ rs) acc = elim (accumulate_both fuel r.checks r.queries acc) [
    | none ↦ none
    | some a ↦ collect_risks fuel rs a
  ]

  -- `collectQueryTypes`; `query_fuel` is the fuel of `accumulate`.
  unfoldable pub collect_query_types : ℕ → ℕ → String → Types → Option Types
  collect_query_types query_fuel zero mrn acc = none
  collect_query_types query_fuel (suc fuel) mrn acc = elim (lookup mrn s.policies) [
    | none ↦ some acc
    | some p ↦ elim (collect_groups query_fuel (collect_query_types query_fuel fuel) p.groups acc) [
      | none ↦ none
      | some a ↦ collect_risks query_fuel p.risk_factors a
    ]
  ]
