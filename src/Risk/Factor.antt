-- ===== src/Risk/Factor.antt =====
-- policy/risk_factor.go: risk factors, their scope and their order, and how the factors of an asset
-- and of a check adjust the risk score of a check.
use cnspec.Common.{
  ℕ, Bool, true, false, String, List, [], ◌∷◌, Option, none, some, if◌then◌else◌, ℤ, pos, negsuc,
}
use cnspec.Score.{Score}

-- Go's `float32` and the comparisons of the packages `cmp` and `strings`.
pub record Platform : Type 1 where
  pub Float32 : Type 0
  pub of_ℕ : ℕ → Float32
  pub add : Float32 → Float32 → Float32
  pub sub : Float32 → Float32 → Float32
  pub mul : Float32 → Float32 → Float32
  pub neg : Float32 → Float32
  pub lt : Float32 → Float32 → Bool
  pub ne : Float32 → Float32 → Bool
  -- int(x) and uint32(x)
  pub to_int : Float32 → ℤ
  pub to_uint32 : Float32 → ℕ
  -- cmp.Compare and strings.Compare
  pub compare : Float32 → Float32 → ℤ
  pub compare_strings : String → String → ℤ

pub data ScopeType : Type 0 where
  unscoped asset asset_vulns resource software software_and_resource : ScopeType

pub record SoftwareSelector : Type 0 where
  pub type : String
  pub namespace : String
  pub name : String
  pub version : String
  pub mql_mrn : String

pub record ResourceSelector : Type 0 where
  pub name : String

module _ (g : Platform) where
  pub record RiskMagnitude : Type 0 where
    pub value : g.Float32
    pub is_toxic : Bool

  -- The fields that the functions of this module read or write.
  pub record RiskFactor : Type 0 where
    pub mrn : String
    pub scope : ScopeType
    pub deprecated_v11_magnitude : g.Float32
    pub deprecated_v11_is_absolute : Bool
    pub magnitude : Option RiskMagnitude
    pub software : List SoftwareSelector
    pub resources : List ResourceSelector

  pub record ScoredRiskFactor : Type 0 where
    pub mrn : String
    pub risk : g.Float32
    pub is_toxic : Bool
    pub is_detected : Bool

  pub record ScoredRiskInfo : Type 0 where
    pub risk_factor : RiskFactor
    pub scored_risk_factor : ScoredRiskFactor

  -- A score with its field `RiskFactors`; `none` is a nil pointer.
  pub record RiskyScore : Type 0 where
    pub score : Score
    pub risk_factors : Option (List ScoredRiskFactor)

  unfoldable pub detect_scope : RiskFactor → RiskFactor
  detect_scope r = elim r.scope [
    | ScopeType.unscoped ↦ record r {
      scope = elim r.resources [
        | [] ↦ elim r.software [ [] ↦ ScopeType.asset | x ∷ xs ↦ ScopeType.software ]
        | y ∷ ys ↦ elim r.software [
          | [] ↦ ScopeType.resource
          | x ∷ xs ↦ ScopeType.software_and_resource
        ]
      ];
    }
    | _ ↦ r
  ]

  -- `GetMagnitude().GetIsToxic()` and `GetMagnitude().GetValue()`, which a nil pointer allows.
  unfoldable pub is_toxic : RiskFactor → Bool
  is_toxic r = elim r.magnitude [ none ↦ false | some m ↦ m.is_toxic ]

  unfoldable pub magnitude_value : RiskFactor → g.Float32
  magnitude_value r = elim r.magnitude [ none ↦ g.of_ℕ 0 | some m ↦ m.value ]

  -- The second half of `cmpRiskFactors`, for factors that agree on toxicity.
  unfoldable pub cmp_values : RiskFactor → RiskFactor → ℤ
  cmp_values ri rj =
      if g.ne (magnitude_value ri) (magnitude_value rj)
      then g.compare (magnitude_value ri) (magnitude_value rj)
      else g.compare_strings ri.mrn rj.mrn

  unfoldable pub cmp_risk_factors : RiskFactor → RiskFactor → ℤ
  cmp_risk_factors ri rj = elim (is_toxic ri) [
    | true ↦ elim (is_toxic rj) [ true ↦ cmp_values ri rj | false ↦ pos 1 ]
    | false ↦ elim (is_toxic rj) [ true ↦ negsuc 0 | false ↦ cmp_values ri rj ]
  ]

  unfoldable pub cmp_scored_risk_factors : ScoredRiskInfo → ScoredRiskInfo → ℤ
  cmp_scored_risk_factors ri rj = cmp_risk_factors ri.risk_factor rj.risk_factor
