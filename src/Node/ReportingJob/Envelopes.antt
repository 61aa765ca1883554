-- ===== src/Node/ReportingJob/Envelopes.antt =====
-- What a control in `ReportingJobNodeData` of policy/executor/internal/nodes.go holds of its checks
-- after it has consumed envelopes.
use cnspec.Common.{
  true, refl, String, str_eq, Bool-cases, List, [], ◌∷◌, All, Option, none, some, inl, inr,
  Option-cases, bind-eq-some, eq_iff, if◌then◌else◌, ◌≡◌, ◌≢◌, ap, ◌∙◌, arith,
}
use cnspec.Node.ReportingJob
use cnspec.Node.ReportingJob.{Child, Job, JobType, mapped_score, set_child, consume}
use cnspec.Node.Result.{RawResult}
use cnspec.Score.{Score, ScoreType}

-- The score is no error.
abbrev pub IsClean : Score → Type 0
IsClean s = s.type ≢ ScoreType.error

abbrev pub IsCleanOr : Option Score → Type 0
IsCleanOr none = Unit
IsCleanOr (some s) = IsClean s

-- No score of a child is an error.
abbrev pub AreClean : List Child → Type 0
AreClean = All (λ c. IsCleanOr c.score)

-- A control does not keep errors.

mapped_score-IsClean : (s : Score) → IsClean (mapped_score JobType.control s)
unfolding mapped_score
mapped_score-IsClean s = λ e. ground arith

set_child-AreClean :
    (from : String) (s : Score) (cs ds : List Child)
    → IsClean s
    → AreClean cs
    → set_child from s cs ≡ some ds
    → AreClean ds
unfolding set_child
set_child-AreClean from s [] ds clean h e = cc
set_child-AreClean from s (c ∷ cs) ds clean (p, h) e = elim (Bool-cases (str_eq c.id from)) [
  | inl is ↦
      let same : record c { score = some s } ∷ cs ≡ ds = ground arith in rw (← same) (clean, h)
  | inr other ↦ elim (Option-cases (set_child from s cs)) [
    | inl unknown ↦ absurd (ground (arith, other, unknown, e))
    | inr (rest, known) ↦
        let same : c ∷ rest ≡ ds = ground (arith, other, known, e) in
        rw (← same) (p, set_child-AreClean from s cs rest clean h known)
  ]
]

-- An envelope for the job: who sent it, the result and the score.
pub record Envelope (V : Type 0) : Type 0 where
  pub from : String
  pub res : Option (RawResult V)
  pub score : Option Score

unfoldable pub consume_all : {V : Type 0} → List (Envelope V) → Job V → Option (Job V)
consume_all [] n = some n
consume_all (x ∷ xs) n = elim (consume x.from x.res x.score n) [
  | none ↦ none
  | some m ↦ consume_all xs m
]

-- A control whose children hold no errors.
pub record IsKept {V : Type 0} (n : Job V) : Type 0 where
  pub control : n.rj_type ≡ JobType.control
  pub clean : AreClean n.child_scores

module _ {V : Type 0} where
  consume_score-IsKept :
      (from : String) (o : Option Score) (n m : Job V)
      → IsKept n
      → ReportingJob.consume_score from o n ≡ some m
      → IsKept m
  unfolding ReportingJob.consume_score
  consume_score-IsKept from none n m h e = ground arith
  consume_score-IsKept from (some s) n m h e =
      elim (Option-cases (set_child from (mapped_score n.rj_type s) n.child_scores)) [
        | inl unknown ↦ absurd (ground (arith, unknown, e))
        | inr (cs, known) ↦
            let stored : IsClean (mapped_score n.rj_type s) =
              rw (h.control) (mapped_score-IsClean s) in
            let clean = set_child-AreClean from _ n.child_scores cs stored h.clean known in
            let same : record n { child_scores = cs; invalidated = true } ≡ m =
              ground (arith, known, e) in
            rw (← same) (record { control = h.control; clean = clean })
      ]

  consume_result-IsKept :
      (from : String) (o : Option (RawResult V)) (n m : Job V)
      → IsKept n
      → ReportingJob.consume_result from o n ≡ some m
      → IsKept m
  unfolding ReportingJob.consume_result
  consume_result-IsKept from o n m h e =
      let type : m.rj_type ≡ n.rj_type = ground arith in
      let scores : m.child_scores ≡ n.child_scores = ground arith in
      record { control = type ∙ h.control; clean = rw scores h.clean }

  consume-IsKept :
      (from : String) (res : Option (RawResult V)) (o : Option Score) (n m : Job V)
      → IsKept n
      → consume from res o n ≡ some m
      → IsKept m
  unfolding consume
  consume-IsKept from res o n m h e =
      let (n', first, second) =
        bind-eq-some (ReportingJob.consume_score from o n)
          (λ x. ReportingJob.consume_result from res x) e in
      consume_result-IsKept from res n' m (consume_score-IsKept from o n n' h first) second

  pub consume_all-IsKept :
      (xs : List (Envelope V)) (n m : Job V) → IsKept n → consume_all xs n ≡ some m → IsKept m
  unfolding consume_all
  consume_all-IsKept [] n m h e = ground arith
  consume_all-IsKept (x ∷ xs) n m h e =
      let (n', first, second) = bind-eq-some (consume x.from x.res x.score n) (consume_all xs) e in
      consume_all-IsKept xs n' m (consume-IsKept x.from x.res x.score n n' h first) second

-- What a control takes a score for: an error for a failed result, and a skipped or unscored check
-- for a passed one.
abbrev verdict_typed : ScoreType → Score → Score
verdict_typed ScoreType.error s = record s { type = ScoreType.result; value = 0 }
verdict_typed ScoreType.skip s = record s { type = ScoreType.result; value = 100 }
verdict_typed ScoreType.unscored s = record s { type = ScoreType.result; value = 100 }
verdict_typed _ s = s

-- The score that the control holds of a check.
pub held : String → List Child → Option Score
held id [] = none
held id (c ∷ cs) = if str_eq c.id id then c.score else held id cs

abbrev noted : String → Option Score → String → Option Score → Option Score
noted id old from none = old
noted id old from (some s) = if str_eq from id then some (verdict_typed s.type s) else old

-- The last score that the check sent, as a verdict.
pub last_verdict : {V : Type 0} → String → Option Score → List (Envelope V) → Option Score
last_verdict id old [] = old
last_verdict id old (x ∷ xs) = last_verdict id (noted id old x.from x.score) xs

mapped_verdict : (s : Score) → mapped_score JobType.control s ≡ verdict_typed s.type s
unfolding mapped_score
mapped_verdict s = ground arith

held-set_child :
    (id from : String) (s : Score) (cs ds : List Child)
    → set_child from s cs ≡ some ds
    → held id ds ≡ (if str_eq from id then some s else held id cs)
unfolding set_child held
held-set_child id from s [] ds e = cc
held-set_child id from s (c ∷ cs) ds e = elim (Bool-cases (str_eq c.id from)) [
  | inl is ↦
      let same : record c { score = some s } ∷ cs ≡ ds = ground arith in
      rw (← same) (ground (arith, is, eq_iff c.id from, eq_iff c.id id, eq_iff from id))
  | inr other ↦ elim (Option-cases (set_child from s cs)) [
    | inl unknown ↦ absurd (ground (arith, other, unknown, e))
    | inr (rest, known) ↦
        let same : c ∷ rest ≡ ds = ground (arith, other, known, e) in
        rw (← same) (
          ground (
            arith,
            other,
            eq_iff c.id from,
            eq_iff c.id id,
            eq_iff from id,
            held-set_child id from s cs rest known,
          ))
  ]
]

module _ {V : Type 0} (id : String) where
  held-consume_score :
      (from : String) (o : Option Score) (n m : Job V)
      → n.rj_type ≡ JobType.control
      → ReportingJob.consume_score from o n ≡ some m
      → held id m.child_scores ≡ noted id (held id n.child_scores) from o
  unfolding ReportingJob.consume_score
  held-consume_score from none n m control e = ground arith
  held-consume_score from (some s) n m control e =
      elim (Option-cases (set_child from (mapped_score n.rj_type s) n.child_scores)) [
        | inl unknown ↦ absurd (ground (arith, unknown, e))
        | inr (cs, known) ↦
            let same : m.child_scores ≡ cs = ground (arith, known, e) in
            let stored : mapped_score n.rj_type s ≡ verdict_typed s.type s =
              rw control (mapped_verdict s) in
            rw same (
              held-set_child id from (mapped_score n.rj_type s) n.child_scores cs known
              ∙ ap (λ (v : Score). if str_eq from id then some v else held id n.child_scores)
                  stored)
      ]

  held-consume :
      (x : Envelope V) (n m : Job V)
      → n.rj_type ≡ JobType.control
      → consume x.from x.res x.score n ≡ some m
      → held id m.child_scores ≡ noted id (held id n.child_scores) x.from x.score
  unfolding consume ReportingJob.consume_result
  held-consume x n m control e =
      let (n', first, second) =
        bind-eq-some (ReportingJob.consume_score x.from x.score n)
          (ReportingJob.consume_result x.from x.res) e in
      let scores : m.child_scores ≡ n'.child_scores = ground arith in
      ap (held id) scores ∙ held-consume_score x.from x.score n n' control first

  pub held-consume_all :
      (xs : List (Envelope V)) (n m : Job V)
      → IsKept n
      → consume_all xs n ≡ some m
      → held id m.child_scores ≡ last_verdict id (held id n.child_scores) xs
  unfolding consume_all last_verdict
  held-consume_all [] n m h e = ground arith
  held-consume_all (x ∷ xs) n m h e =
      let (n', first, second) = bind-eq-some (consume x.from x.res x.score n) (consume_all xs) e in
      held-consume_all xs n' m (consume-IsKept x.from x.res x.score n n' h first) second
      ∙ ap (λ o. last_verdict id o xs) (held-consume x n n' h.control first)

pub held_fresh : (id : String) (cs : List Child) → All (λ c. c.score ≡ none) cs → held id cs ≡ none
unfolding held
held_fresh id [] h = refl
held_fresh id (c ∷ cs) (p, h) = ground (arith, p, held_fresh id cs h)
