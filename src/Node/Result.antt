-- ===== src/Node/Result.antt =====
use Prim.Native.String.{String}
use cnspec.Common.{
  ◌&&◌, true, if◌then◌else◌, false, arith, ltb, none, ◌≤◌, ◌≡◌, ◌≢◌, some, ℕ, Bool, String, Option,
}

-- policy/executor/internal/nodes.go: results of queries and when one replaces another.
-- `llx.RawResult` belongs to the mql library; what the nodes read of it is modelled, over an
-- abstract type `V` of values.

-- An error; `origin` is the `originCodeID` of the first `queryRunError` in its chain, if any.
pub record RunError : Type 0 where
  pub message : String
  pub origin : Option String

pub record RawData (V : Type 0) : Type 0 where
  pub type : String
  pub value : Option V
  pub error : Option RunError

pub record RawResult (V : Type 0) : Type 0 where
  pub code_id : String
  pub payload : Option (RawData V)

error_origin : Option RunError → Option String
error_origin none = none
error_origin (some e) = e.origin

is_some : Option String → Bool
is_some none = false
is_some (some s) = true

or_empty : Option String → String
or_empty none = ""
or_empty (some s) = s

origin_rank : Option String → ℕ
origin_rank none = 2
origin_rank (some s) = 0

module _ {V : Type 0} where
  -- What the functions below read of a result: nothing where `res` or `res.Data` is nil.
  abbrev pub content : Option (RawResult V) → Option (RawData V)
  content none = none
  content (some r) = r.payload

  is_nil_data : Option V → Option RunError → Bool
  is_nil_data none none = true
  is_nil_data _ _ = false

  has_real : Option V → Option RunError → Bool
  has_real none none = false
  has_real _ _ = true

  is_nil_content : Option (RawData V) → Bool
  unfolding is_nil_data
  is_nil_content none = false
  is_nil_content (some d) = is_nil_data d.value d.error

  real_content : Option (RawData V) → Bool
  unfolding has_real
  real_content none = false
  real_content (some d) = has_real d.value d.error

  content_origin : Option (RawData V) → Option String
  unfolding error_origin
  content_origin none = none
  content_origin (some d) = error_origin d.error

  -- `isNilResult`
  unfoldable pub is_nil_result : Option (RawResult V) → Bool
  unfolding is_nil_content
  is_nil_result res = is_nil_content (content res)

  -- `hasRealData`
  unfoldable pub has_real_data : Option (RawResult V) → Bool
  unfolding real_content
  has_real_data res = real_content (content res)

  -- `isPlaceholderResult`
  unfoldable pub is_placeholder_result : Option (RawResult V) → Bool
  unfolding content_origin is_some
  is_placeholder_result res = is_some (content_origin (content res))

  -- `placeholderOrigin`
  unfoldable pub placeholder_origin : Option (RawResult V) → String
  unfolding content_origin or_empty
  placeholder_origin res = or_empty (content_origin (content res))

  -- `resultUpgrades`
  unfoldable pub result_upgrades : Option (RawResult V) → Option (RawResult V) → Bool
  unfolding is_nil_result has_real_data is_placeholder_result
  result_upgrades prev next =
      if is_placeholder_result next
      then false
      else if is_placeholder_result prev
      then true
      else is_nil_result prev && has_real_data next

  data_rank : Option V → Option RunError → ℕ
  unfolding origin_rank
  data_rank v (some e) = origin_rank e.origin
  data_rank none none = 1
  data_rank (some v) none = 2

  content_rank : Option (RawData V) → ℕ
  unfolding data_rank
  content_rank none = 2
  content_rank (some d) = data_rank d.value d.error

  -- How much a result says: nothing for the error of a query that never ran, 1 for an evaluated
  -- nil, 2 for a value or for any other error.
  unfoldable pub rank : Option (RawResult V) → ℕ
  unfolding content_rank
  rank res = content_rank (content res)

  -- The result carries data, as every result of a query does.
  abbrev pub HasData : Option (RawResult V) → Type 0
  HasData res = content res ≢ none

  -- Of two results that carry data one replaces the other exactly when it says more: the error of a
  -- query that never ran says least, an evaluated nil more, and a value or any other error most.
  pub upgrades_iff :
      (prev next : Option (RawResult V))
      → HasData prev
      → HasData next
      → result_upgrades prev next ≡ ltb (rank prev) (rank next)
  unfolding result_upgrades rank
  upgrades_iff prev next p n = ground arith

  pub rank-le : (res : Option (RawResult V)) → rank res ≤ 2
  unfolding rank
  rank-le res = ground arith
