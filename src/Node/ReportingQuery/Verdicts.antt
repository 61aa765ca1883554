-- ===== src/Node/ReportingQuery/Verdicts.antt =====
-- The score of a query as a function of what each of its entry points says.
use cnspec.Node.ReportingQuery.Verdict.{
  Verdict, is_gone, is_broken, is_failed, counts, any, last_score, type_of, value_of, verdict,
}
use cnspec.Common.{
  Option-cases, sym, refl, inr, map, inl, ◌⊎◌, All, ap, ◌∙◌, not, ◌&&◌, ◌||◌, String, List, [], ◌∷◌,
  Option, none, some, ◌≡◌, arith,
}
use cnspec.Node.Result.{RawData}
use cnspec.Node.ReportingQuery.{
  keys, Score, no_findings, score, ReportingQuery, conclude, placeholder_origin, noted, RawResult,
  missing, Loop, note_result, lookup, note_all, DataResult, Library, Findings, note_data,
}
use mathlib.Core.Path.{subst}

module _ {V : Type 0} (lib : Library V) where
  -- What the loop has found after the verdicts `vs`.
  record Sees (f : Findings) (vs : List Verdict) (f' : Findings) : Type 0 where
    vanished : f'.vanished ≡ (f.vanished || any is_gone vs)
    found_error : f'.found_error ≡ (f.found_error || any is_broken vs)
    all_skipped : f'.all_skipped ≡ (f.all_skipped && not (any counts vs))
    all_true : f'.all_true ≡ (f.all_true && not (any is_failed vs))
    score_found : f'.score_found ≡ last_score vs f.score_found

  note_data-Sees :
      (query_id origin : String) (d : RawData V) (f : Findings)
      → Sees f (verdict lib d ∷ []) (note_data lib query_id origin d f)
  unfolding note_data verdict any last_score
  note_data-Sees query_id origin d f = ground arith

  Sees-cons :
      (f g h : Findings) (v : Verdict) (vs : List Verdict)
      → Sees f (v ∷ []) g
      → Sees g vs h
      → Sees f (v ∷ vs) h
  unfolding any last_score
  Sees-cons f g h v vs a b = record {
    vanished = ground (arith, a.vanished, b.vanished);
    found_error = ground (arith, a.found_error, b.found_error);
    all_skipped = ground (arith, a.all_skipped, b.all_skipped);
    all_true = ground (arith, a.all_true, b.all_true);
    score_found = b.score_found ∙ ap (last_score vs) a.score_found;
  }

  -- The data of the results at these checksums, where none is missing.
  unfoldable pub gather : List (String × DataResult V) → List String → Option (List (RawData V))
  gather rs [] = some []
  gather rs (k ∷ ks) = elim (lookup k rs) [
    | none ↦ none
    | some dr ↦ elim dr.value [
      | none ↦ none
      | some r ↦ elim r.payload [
        | none ↦ none
        | some d ↦ elim (gather rs ks) [ none ↦ none | some ds ↦ some (d ∷ ds) ]
      ]
    ]
  ]

  -- The checksum has a result, which is not there yet or has data.
  abbrev pub IsReadable : List (String × DataResult V) → String → Type 0
  IsReadable rs k =
      (dr : DataResult V) × (lookup k rs ≡ some dr)
      × ((dr.value ≡ none)
          ⊎ ((r : RawResult V) × (d : RawData V) × (dr.value ≡ some r) × (r.payload ≡ some d)))

  abbrev Reads : List (String × DataResult V) → Findings → Option (List (RawData V)) → Loop → Type 0
  Reads rs f none l = l ≡ missing
  Reads rs f (some ds) l = (f' : Findings) × (l ≡ noted f') × Sees f (map (verdict lib) ds) f'

  note_all-Reads :
      (query_id : String) (rs : List (String × DataResult V)) (ks : List String) (f : Findings)
      → All (IsReadable rs) ks
      → Reads rs f (gather rs ks) (note_all lib query_id rs ks f)
  unfolding note_all gather note_result any last_score
  note_all-Reads query_id rs [] f h = (f, refl, ground arith)
  note_all-Reads query_id rs (k ∷ ks) f ((dr, found, inl absent), h) =
      let gathered : gather rs (k ∷ ks) ≡ none = ground arith in
      subst (λ o. Reads rs f o (note_all lib query_id rs (k ∷ ks) f)) (sym gathered) (ground arith)
  note_all-Reads query_id rs (k ∷ ks) f ((dr, found, inr (r, d, there, payload)), h) =
      let g = note_data lib query_id (placeholder_origin (some r)) d f in
      let ih = note_all-Reads query_id rs ks g h in
      let loop = note_all lib query_id rs (k ∷ ks) f in
      let same : loop ≡ note_all lib query_id rs ks g = ground arith in
      elim (Option-cases (gather rs ks)) [
        | inl none_left ↦
            let gathered : gather rs (k ∷ ks) ≡ none = ground arith in
            let ends = subst (λ o. Reads rs g o (note_all lib query_id rs ks g)) none_left ih in
            subst (λ o. Reads rs f o loop) (sym gathered) (same ∙ ends)
        | inr (ds, left) ↦
            let gathered : gather rs (k ∷ ks) ≡ some (d ∷ ds) = ground arith in
            let (f', ends, sees) =
              subst (λ o. Reads rs g o (note_all lib query_id rs ks g)) left ih in
            subst (λ o. Reads rs f o loop) (sym gathered)
              (
                f',
                same ∙ ends,
                Sees-cons f g f' (verdict lib d) (map (verdict lib) ds)
                    (note_data-Sees query_id (placeholder_origin (some r)) d f) sees,
              )
      ]

  abbrev pub Scored : ReportingQuery V → Option (List (RawData V)) → Type 0
  Scored n none = score lib n ≡ some none
  Scored n (some ds) =
      (s : Score) × (score lib n ≡ some (some s))
      × (s.type ≡ type_of (map (verdict lib) ds))
      × (s.value ≡ value_of (map (verdict lib) ds))
      × (s.score_completion ≡ 100)
      × (s.weight ≡ 1)
      × (s.qr_id ≡ n.query_id)

  conclude_lem :
      (query_id : String) (vs : List Verdict) (f : Findings)
      → Sees no_findings vs f
      → let s = conclude lib query_id f in
        (s.type ≡ type_of vs)
        × (s.value ≡ value_of vs)
        × (s.score_completion ≡ 100)
        × (s.weight ≡ 1)
        × (s.qr_id ≡ query_id)
  unfolding conclude type_of value_of
  conclude_lem query_id vs f h =
      (ground arith, ground arith, ground arith, ground arith, ground arith)

  read_score :
      (n : ReportingQuery V) (o : Option (List (RawData V)))
      → Reads n.results no_findings o
          (note_all lib n.query_id n.results (lib.sort_strings (keys n.results)) no_findings)
      → Scored n o
  unfolding score
  read_score n none e = ground arith
  read_score n (some ds) (f, e, sees) =
      let (t, v, c, w, q) = conclude_lem n.query_id (map (verdict lib) ds) f sees in
      (conclude lib n.query_id f, ground arith, t, v, c, w, q)

  -- The score of a query whose results can be read. While a result is missing there is no score. After
  -- that: unscored if a resource is gone, else an error if an entry point has another error, else
  -- a result if one has a score or a truth value, else skipped. A result is the last score in the order of
  -- the checksums, or without scores 100 if no truth value is false and else 0. All other scores
  -- are 0. The score is complete and has weight 1.
  pub score_verdicts :
      (n : ReportingQuery V)
      → All (IsReadable n.results) (lib.sort_strings (keys n.results))
      → Scored n (gather n.results (lib.sort_strings (keys n.results)))
  unfolding score
  score_verdicts n h =
      read_score n (gather n.results (lib.sort_strings (keys n.results)))
        (note_all-Reads n.query_id n.results (lib.sort_strings (keys n.results)) no_findings h)
