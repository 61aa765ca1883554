-- ===== src/Score.antt =====
-- policy/score.go: the score of a check, a policy or an asset, and its completion.
pub mod Rating
pub mod Severity
use cnspec.Common.{ℕ, ◌+◌, ◌/◌, String, u32}

-- The constants `ScoreType_*`; a number that is none of them falls to the `default` branches.
pub data ScoreType : Type 0 where
  unknown result error skip unscored out_of_scope disabled : ScoreType
  unlisted : ℕ → ScoreType

-- The fields of the message that the scoring code reads or writes.
pub record Score : Type 0 where
  pub qr_id : String
  pub type : ScoreType
  pub value : ℕ
  pub weight : ℕ
  pub score_completion : ℕ
  pub data_completion : ℕ
  pub data_total : ℕ
  pub message : String
  pub risk_score : ℕ

-- `&Score{}`: every field at Go's zero value.
abbrev pub zero_score : Score
zero_score = record {
  qr_id = "";
  type = unknown;
  value = 0;
  weight = 0;
  score_completion = 0;
  data_completion = 0;
  data_total = 0;
  message = "";
  risk_score = 0;
}

-- `Score.Completion`
unfoldable pub completion : Score → ℕ
completion s = u32 (s.data_completion + s.score_completion) / 2
