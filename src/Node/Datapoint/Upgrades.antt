-- ===== src/Node/Datapoint/Upgrades.antt =====
-- A datapoint keeps the best result that has arrived, in whatever order results arrive, and sends
-- on at most three.
use cnspec.Node.Datapoint.Option
use Prim.Native.Nat.{max}
use cnspec.Node.Result.{rank-le, RawResult, RawData, result_upgrades, rank, HasData, upgrades_iff}
use cnspec.Node.Datapoint
use cnspec.Node.Datapoint.{
  arrive, recalc, Event, arrive, Event, String, some, Option, Datapoint, Casting,
}
use Prim.Native.Nat.{suc, ℕ}
use cnspec.Common.{
  Option-cases, eq_iff, [], ◌∷◌, ◌≤◌, ◌+◌, Bool, List, ltb→ge, false, ltb→lt, arith, ◌∙◌, inr, sym,
  inl, ◌<◌, str_eq, none, ◌⊎◌, ◌≢◌, Bool-cases, refl, ap, if◌then◌else◌, true, ◌≡◌, ℕ,
}

-- A value that is cast is a value again, or an error of the cast, which is not that of a query that
-- never ran.
pub record CastKeeps {V : Type 0} (lib : Casting V) : Type 0 where
  pub valued :
      (t : String) (r : RawResult V) (d : RawData V) (v : V)
      → r.payload ≡ some d
      → d.value ≡ some v
      → d.error ≡ none
      → HasData (some (lib.cast t r)) × (rank (some (lib.cast t r)) ≡ 2)

-- The result has data: a value, an error, or a nil that need not be cast, since it has the type
-- nil or the expected type, or no type is expected.
abbrev pub IsFit : {V : Type 0} → Casting V → Option String → RawResult V → Type 0
IsFit {V} lib t r =
    (d : RawData V) × (r.payload ≡ some d)
    × ((d.value ≢ none)
        ⊎ ((d.error ≢ none)
            ⊎ ((d.type ≡ lib.nil) ⊎ ((t ≡ some d.type) ⊎ ((t ≡ some lib.unset) ⊎ (t ≡ none))))))

-- How much the node knows: 0 until a result is reported.
unfoldable pub level : {V : Type 0} → Datapoint V → ℕ
level n = if n.is_reported then suc (rank n.res) else 0

-- A node that expects the type, and holds a result with data if it has reported.
pub record IsHolding {V : Type 0} (t : Option String) (n : Datapoint V) : Type 0 where
  pub expects : n.expected_type ≡ t
  pub held : n.is_reported ≡ true → HasData n.res

module _ {V : Type 0} (lib : Casting V) (keeps : CastKeeps lib) where
  fit-HasData : (t : Option String) (r : RawResult V) → IsFit lib t r → HasData (some r)
  fit-HasData t r (d, e, _) = λ h. cc (e, h)

  -- What is cast has a value.
  cast_value :
      (t : String) (d : RawData V) (r : RawResult V)
      → IsFit lib (some t) r
      → r.payload ≡ some d
      → str_eq t lib.unset ≡ false
      → Datapoint.keeps_type lib t d ≡ false
      → (v : V) × (d.value ≡ some v) × (d.error ≡ none)
  unfolding Datapoint.keeps_type Datapoint.has_error
  cast_value t d r (d', e', fit) e typed cast = elim (Option-cases d.value) [
    | inl nothing ↦
        absurd
          (ground (arith, fit, nothing, eq_iff d.type lib.nil, eq_iff d.type t, eq_iff t lib.unset))
    | inr (v, found) ↦ (v, found, ground arith)
  ]

  value-rank :
      (r : RawResult V) (d : RawData V) (v : V)
      → r.payload ≡ some d
      → d.value ≡ some v
      → d.error ≡ none
      → rank (some r) ≡ 2
  unfolding rank
  value-rank r d v e f h = ground arith

  typed-rank :
      (t : String) (r : RawResult V) (d : RawData V)
      → IsFit lib (some t) r
      → r.payload ≡ some d
      → str_eq t lib.unset ≡ false
      → (x : RawResult V) × (Datapoint.typed lib t r (some d) ≡ some x)
        × HasData (some x)
        × (rank (some x) ≡ rank (some r))
  unfolding Datapoint.typed
  typed-rank t r d fit e set = elim (Bool-cases (Datapoint.keeps_type lib t d)) [
    | inl kept ↦ (r, rw kept refl, fit-HasData (some t) r fit, refl)
    | inr other ↦
        let (v, found, clean) = cast_value t d r fit e set other in
        let (has, two) = keeps.valued t r d v e found clean in
        (lib.cast t r, rw other refl, has, two ∙ sym (value-rank r d v e found clean))
  ]

  stored-rank :
      (t : Option String) (r : RawResult V)
      → IsFit lib t r
      → (x : RawResult V) × (Datapoint.stored lib t r ≡ some x)
        × HasData (some x)
        × (rank (some x) ≡ rank (some r))
  unfolding Datapoint.stored
  stored-rank none r fit = (r, refl, fit-HasData none r fit, refl)
  stored-rank (some t) r (d, e, fit) = elim (Bool-cases (str_eq t lib.unset)) [
    | inl plain ↦ (r, rw plain refl, fit-HasData (some t) r (d, e, fit), refl)
    | inr other ↦
        let (x, f, has, same) = typed-rank t r d (d, e, fit) e other in
        (x, rw other (ap (Datapoint.typed lib t r) e ∙ f), has, same)
  ]

  set-level :
      (t : Option String) (n : Datapoint V) (r : RawResult V)
      → n.expected_type ≡ t
      → IsFit lib t r
      → (n' : Datapoint V) × (Datapoint.set lib n r ≡ some n')
        × IsHolding t n'
        × (n'.invalidated ≡ true)
        × (level n' ≡ suc (rank (some r)))
  unfolding Datapoint.set Datapoint.put level
  set-level t n r expects fit =
      let (x, e, d, same) = stored-rank t r fit in
      (
        record n { invalidated = true; is_reported = true; res = some x },
        ap (λ u. Datapoint.put lib n (Datapoint.stored lib u r)) expects
            ∙ ap (Datapoint.put lib n) e,
        record { expects = expects; held = λ _. d },
        refl,
        ap suc same,
      )

  module _ (n : Datapoint V) (r : RawResult V) where
    consume_fresh : n.is_reported ≡ false → Datapoint.consume lib n (some r) ≡ Datapoint.set lib n r
    unfolding Datapoint.consume
    consume_fresh h = ground arith

    consume_better :
        n.is_reported ≡ true
        → result_upgrades n.res (some r) ≡ true
        → Datapoint.consume lib n (some r) ≡ Datapoint.set lib n r
    unfolding Datapoint.consume
    consume_better h b = ground arith

    consume_worse :
        n.is_reported ≡ true
        → result_upgrades n.res (some r) ≡ false
        → Datapoint.consume lib n (some r) ≡ some n
    unfolding Datapoint.consume
    consume_worse h w = ground arith

    level_fresh : n.is_reported ≡ false → level n ≡ 0
    unfolding level
    level_fresh h = ground arith

    level_reported : n.is_reported ≡ true → level n ≡ suc (rank n.res)
    unfolding level
    level_reported h = ground arith

    -- A result either leaves the node as it is, or is stored and raises its level.
    consume-level :
        (t : Option String)
        → IsHolding t n
        → IsFit lib t r
        → (n' : Datapoint V) × (Datapoint.consume lib n (some r) ≡ some n')
          × IsHolding t n'
          × (level n' ≡ max (level n) (suc (rank (some r))))
          × ((n' ≡ n) ⊎ ((level n < level n') × (n'.invalidated ≡ true)))
    consume-level t holds fit = elim (Bool-cases n.is_reported) [
      | inl old ↦
          let at = level_reported old in
          let test = upgrades_iff n.res (some r) (holds.held old) (fit-HasData t r fit) in
          elim (Bool-cases (result_upgrades n.res (some r))) [
            | inl better ↦
                let (n', e, holds', inv, lev) = set-level t n r holds.expects fit in
                let lt = ltb→lt (rank n.res) (rank (some r)) (sym test ∙ better) in
                (n', consume_better old better ∙ e, holds', omega arith, inr (omega arith, inv))
            | inr worse ↦
                let ge = ltb→ge (rank n.res) (rank (some r)) (sym test ∙ worse) in
                (n, consume_worse old worse, holds, omega arith, inl refl)
          ]
      | inr new ↦
          let at = level_fresh new in
          let (n', e, holds', inv, lev) = set-level t n r holds.expects fit in
          (n', consume_fresh new ∙ e, holds', omega arith, inr (omega arith, inv))
    ]

abbrev pub ArrivalsFit : {V : Type 0} → Casting V → Option String → List (Event V) → Type 0
ArrivalsFit lib t [] = Unit
ArrivalsFit lib t (arrive r ∷ es) = IsFit lib t r × ArrivalsFit lib t es
ArrivalsFit lib t (recalc ∷ es) = ArrivalsFit lib t es

-- The best level of the results that arrive.
unfoldable pub best : {V : Type 0} → List (Event V) → ℕ
best [] = 0
best (arrive r ∷ es) = max (suc (rank (some r))) (best es)
best (recalc ∷ es) = best es

abbrev pending : Bool → ℕ
pending true = 1
pending false = 0

-- A node between two events, with the number of results it has sent on: each was sent for a level
-- that the node has reached.
pub record IsPaced {V : Type 0} (t : Option String) (n : Datapoint V) (sent : ℕ) : Type 0 where
  pub holding : IsHolding t n
  pub paced : sent + pending n.invalidated ≤ level n

module _ {V : Type 0} (lib : Casting V) (keeps : CastKeeps lib) (t : Option String) where
  recalculate-IsPaced :
      (n : Datapoint V) (sent : ℕ)
      → IsPaced t n sent
      → let (n', out) = Datapoint.recalculate n in
        IsPaced t n' (Datapoint.count_sent lib out sent) × (level n' ≡ level n)
  unfolding Datapoint.recalculate level Datapoint.count_sent
  recalculate-IsPaced n sent h = ground arith

  consume-IsPaced :
      (n n' : Datapoint V) (sent : ℕ)
      → IsPaced t n sent
      → IsHolding t n'
      → ((n' ≡ n) ⊎ ((level n < level n') × (n'.invalidated ≡ true)))
      → IsPaced t n' sent
  consume-IsPaced n n' sent h holds (inl e) = rw e h
  consume-IsPaced n n' sent h holds (inr (lt, inv)) = record {
    holding = holds;
    paced = omega (arith, h.paced, ap pending inv);
  }

  handle-arrive :
      (r : RawResult V) (n n' : Datapoint V) (sent : ℕ)
      → Datapoint.consume lib n (some r) ≡ some n'
      → Datapoint.handle lib (arrive r) n sent ≡ some (n', sent)
  unfolding Datapoint.handle
  handle-arrive r n n' sent e = ap (Option.map (λ x. (x, sent))) e

  run-cons :
      (x : Event V) (es : List (Event V)) (n n' : Datapoint V) (sent sent' : ℕ)
      → Datapoint.handle lib x n sent ≡ some (n', sent')
      → Datapoint.run lib (x ∷ es) n sent ≡ Datapoint.run lib es n' sent'
  unfolding Datapoint.run
  run-cons x es n n' sent sent' e = rw (e, Datapoint.run)

  pub run-level :
      (es : List (Event V)) (n : Datapoint V) (sent : ℕ)
      → IsPaced t n sent
      → ArrivalsFit lib t es
      → (s : Datapoint V × ℕ) × (Datapoint.run lib es n sent ≡ some s)
        × IsPaced t s.0 s.1
        × (level s.0 ≡ max (level n) (best es))
  unfolding Datapoint.run Datapoint.handle best
  run-level [] n sent h d = ((n, sent), refl, h, omega arith)
  run-level (arrive r ∷ es) n sent h d =
      let (n', e, holds, lev, change) = consume-level lib keeps n r t h.holding d.0 in
      let (s, e', h', lev') = run-level es n' sent (consume-IsPaced n n' sent h holds change) d.1 in
      (s, run-cons (arrive r) es n n' sent sent (handle-arrive r n n' sent e) ∙ e', h', omega arith)
  run-level (recalc ∷ es) n sent h d =
      let (h1, lev) = recalculate-IsPaced n sent h in
      let (s, e', h', lev') =
        run-level es (Datapoint.recalculate n).0
          (Datapoint.count_sent lib (Datapoint.recalculate n).1 sent) h1 d in
      (s, e', h', omega arith)

-- A datapoint node that has reported nothing.
abbrev pub IsFresh : {V : Type 0} → Datapoint V → Type 0
IsFresh n = (n.is_reported ≡ false) × (n.invalidated ≡ false)

fresh-IsPaced :
    {V : Type 0} (n : Datapoint V) → IsFresh n → IsPaced n.expected_type n 0 × (level n ≡ 0)
unfolding level
fresh-IsPaced n h = ground arith

level-le : {V : Type 0} (n : Datapoint V) → level n ≤ 3
unfolding level
level-le n = ground (arith, rank-le n.res)

-- A fresh datapoint node, given any results with data and asked to recalculate at any times, does
-- not panic. It ends with a result of the best kind that arrived (a value or an error, before an
-- evaluated nil, before the error of a query that never ran), whatever the order of arrival, and it
-- has sent on no more than three results. A nil that arrives has the type nil or the expected one,
-- if one is expected, and casting a value is assumed to give a value or an error of its own.
pub keeps_best :
    {V : Type 0} (lib : Casting V)
    → CastKeeps lib
    → (es : List (Event V)) (n : Datapoint V) → IsFresh n
    → ArrivalsFit lib n.expected_type es
    → (s : Datapoint V × ℕ) × (Datapoint.run lib es n 0 ≡ some s)
      × (level s.0 ≡ best es)
      × (s.1 ≤ 3)
keeps_best lib keeps es n fresh d =
    let (paced, zero_level) = fresh-IsPaced n fresh in
    let (s, e, paced', lev) = run-level lib keeps n.expected_type es n 0 paced d in
    (s, e, omega arith, omega (arith, paced'.paced, level-le s.0))
