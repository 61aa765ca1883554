-- ===== src/Impact/Codec/RoundTrip.antt =====
-- What is written is read back.
use cnspec.Common.{if◌then◌else◌, ltb, ◌∙◌, ℕ, String, Option, none, some, ℤ, pos, ◌≡◌, refl, arith}
use cnspec.Impact.{ScoringSystem, unlisted}
use cnspec.Impact.Codec.{
  Format, of_name, name_of, checked, read_scoring, write_json, write_value, read_impact_value,
}

-- What the formats document: a text and an int32 that were written are read back, and a text is
-- no number.
pub record FormatLaws (f : Format) : Type 0 where
  pub text_back : (s : String) → f.read_text (f.write_text s) ≡ some s
  pub text_no_int : (s : String) → f.read_int (f.write_text s) ≡ none
  pub int_back : (v : ℤ) → f.read_int (f.write_int v) ≡ some v

module _ (f : Format) (laws : FormatLaws f) where
  -- What a scoring system is read back as; a number without a name is refused.
  abbrev pub named : ScoringSystem → Option ScoringSystem
  named (unlisted n) = none
  named s = some s

  written : ScoringSystem → String
  written s = elim (name_of s) [ none ↦ "unknown" | some name ↦ name ]

  read-write : (s : ScoringSystem) → read_scoring f (write_json f s) ≡ of_name (written s)
  unfolding read_scoring write_json written
  read-write s = ground (arith, laws.text_back (written s), laws.text_no_int (written s))

  of_name-written : (s : ScoringSystem) → of_name (written s) ≡ named s
  unfolding of_name name_of written
  of_name-written ScoringSystem.weighted = refl
  of_name-written (unlisted n) = refl
  of_name-written _ = refl

  -- An impact value between 0 and 100 is read back, and a larger one is refused.
  value_back :
      (n : ℕ)
      → read_impact_value f (write_value f (pos n)) ≡ (if ltb 100 n then none else some (pos n))
  unfolding read_impact_value write_value checked
  value_back n = ground (arith, laws.int_back (pos n))

  -- A scoring system is read back from the JSON that was written for it, where it has a name, and the JSON of any
  -- other is refused.
  pub scoring_back : (s : ScoringSystem) → read_scoring f (write_json f s) ≡ named s
  scoring_back s = read-write s ∙ of_name-written s
