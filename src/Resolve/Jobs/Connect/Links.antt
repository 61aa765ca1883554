-- ===== src/Resolve/Jobs/Connect/Links.antt =====
-- The links between the reporting jobs are the edges of the graph, in both directions.
use cnspec.Resolve.Jobs.Connect.Changes.{
  is_notified, is_child, is_uuid, is_between, is_source, is_linked, IsIndex, change-IsTable,
  changed, lookup-change, is_some-change,
}
use cnspec.Common.{
  Bool, true, false, ◌&&◌, ◌||◌, Option-cases, String, str_eq, eq_iff, List, [], ◌∷◌, Option, ◌≡◌,
  refl, ◌∙◌, inl, inr, arith,
}
use cnspec.Common.Dict.{lookup, lookup-update}
use cnspec.Impact.{Impact}
use cnspec.Resolve.{EdgeImpact}
use cnspec.Resolve.Edges.{is_some}
use cnspec.Resolve.Edges.Steps.{contains-add}
use cnspec.Resolve.Jobs.Connect.{
  Jobs, change, connect_notifies, connect_edge, connect_sources, connect_all, notified, with_child,
}
use cnspec.Resolve.Jobs.Connect.Tables.{IsTable}

-- Links before and after a step that links the jobs for which the test holds.
pub record Links (test : String → String → Bool) (js ks : Jobs) : Type 0 where
  pub notifies : (c p : String) → is_notified ks c p ≡ (is_notified js c p || test c p)
  pub children : (c p : String) → is_child ks c p ≡ (is_child js c p || test c p)
  pub known : (k : String) → is_some (lookup k ks) ≡ is_some (lookup k js)
  pub table : IsTable js → IsTable ks

Links-self : (js : Jobs) → Links (λ c p. false) js js
Links-self js = record {
  notifies = λ c p. ground arith;
  children = λ c p. ground arith;
  known = λ k. refl;
  table = λ d. d;
}

Links-trans :
    (f g : String → String → Bool) (js ks ls : Jobs)
    → Links f js ks
    → Links g ks ls
    → Links (λ c p. f c p || g c p) js ls
Links-trans f g js ks ls h k = record {
  notifies = λ c p. ground (arith, h.notifies c p, k.notifies c p);
  children = λ c p. ground (arith, h.children c p, k.children c p);
  known = λ i. k.known i ∙ h.known i;
  table = λ d. k.table (h.table d);
}

notified-Links :
    (u v c p : String) (js : Jobs)
    → is_some (lookup u js) ≡ true
    → (is_notified (change u (notified v) js) c p
        ≡ (is_notified js c p || str_eq v p && str_eq u c))
      × (is_child (change u (notified v) js) c p ≡ is_child js c p)
unfolding is_notified is_child notified changed is_some
notified-Links u v c p js h = (
  elim (Option-cases (lookup c js)) [
    | inl e ↦ ground (arith, lookup-change c u (notified v) js, e, h, eq_iff u c)
    | inr (j, e) ↦
        ground
          (arith, lookup-change c u (notified v) js, e, h, eq_iff u c, contains-add p v j.notify)
  ],
  elim (Option-cases (lookup p js)) [
    | inl e ↦ ground (arith, lookup-change p u (notified v) js, e)
    | inr (j, e) ↦ ground (arith, lookup-change p u (notified v) js, e)
  ],
)

with_child-Links :
    (u v c p : String) (i : Option Impact) (js : Jobs)
    → is_some (lookup v js) ≡ true
    → (is_notified (change v (with_child u i) js) c p ≡ is_notified js c p)
      × (is_child (change v (with_child u i) js) c p
          ≡ (is_child js c p || str_eq v p && str_eq u c))
unfolding is_notified is_child with_child changed is_some
with_child-Links u v c p i js h = (
  elim (Option-cases (lookup c js)) [
    | inl e ↦ ground (arith, lookup-change c v (with_child u i) js, e)
    | inr (j, e) ↦ ground (arith, lookup-change c v (with_child u i) js, e)
  ],
  elim (Option-cases (lookup p js)) [
    | inl e ↦ ground (arith, lookup-change p v (with_child u i) js, e, h, eq_iff v p)
    | inr (j, e) ↦ ground (
      arith,
      lookup-change p v (with_child u i) js,
      e,
      h,
      eq_iff v p,
      lookup-update c u i j.child_jobs,
    )
  ],
)

connect_notifies-Links :
    (child parent : String) (i : Option Impact) (js : Jobs)
    → is_some (lookup child js) ≡ true
    → is_some (lookup parent js) ≡ true
    → Links (λ c p. str_eq parent p && str_eq child c) js (connect_notifies child parent i js)
unfolding connect_notifies
connect_notifies-Links child parent i js has_child has_parent =
    let ks = change child (notified parent) js in
    let present = is_some-change parent child (notified parent) js ∙ has_parent in
    record {
      notifies = λ c p.
          (with_child-Links child parent c p i ks present).0
          ∙ (notified-Links child parent c p js has_child).0;
      children = λ c p. ground (
        arith,
        (with_child-Links child parent c p i ks present).1,
        (notified-Links child parent c p js has_child).1,
      );
      known = λ k.
          is_some-change k parent (with_child child i) ks
          ∙ is_some-change k child (notified parent) js;
      table = λ d.
          change-IsTable parent (with_child child i) ks
            (change-IsTable child (notified parent) js d);
    }

Links-same :
    (f g : String → String → Bool) (js ks : Jobs)
    → ((c p : String) → f c p ≡ g c p)
    → Links f js ks
    → Links g js ks
Links-same f g js ks e h = record {
  notifies = λ c p. ground (arith, h.notifies c p, e c p);
  children = λ c p. ground (arith, h.children c p, e c p);
  known = h.known;
  table = h.table;
}

connect_edge-Links :
    (ids : List (String × String)) (to : String) (e : EdgeImpact) (js : Jobs)
    → IsIndex ids js
    → Links (is_between ids to e) js (connect_edge ids to e js)
unfolding connect_edge is_between is_uuid
connect_edge-Links ids to e js h = elim (Option-cases (lookup to ids)) [
  | inl missing ↦
      rw (connect_edge, missing)
        (Links-same (λ c p. false) _ js js (λ c p. ground (arith, missing)) (Links-self js))
  | inr (parent, at) ↦ elim (Option-cases (lookup e.edge ids)) [
    | inl missing ↦
        rw (connect_edge, at, missing)
          (Links-same (λ c p. false) _ js js (λ c p. ground (arith, missing, at)) (Links-self js))
    | inr (child, from) ↦
        rw (connect_edge, at, from)
          (Links-same (λ c p. str_eq parent p && str_eq child c) _ js _
            (λ c p. ground (arith, at, from))
            (connect_notifies-Links child parent e.impact js (h e.edge child from)
              (h to parent at)))
  ]
]

later-IsIndex :
    (ids : List (String × String)) (f : String → String → Bool) (js ks : Jobs)
    → Links f js ks
    → IsIndex ids js
    → IsIndex ids ks
later-IsIndex ids f js ks l h qr_id uuid e = l.known uuid ∙ h qr_id uuid e

connect_sources-Links :
    (ids : List (String × String)) (to : String) (es : List EdgeImpact) (js : Jobs)
    → IsIndex ids js
    → Links (is_source ids to es) js (connect_sources ids to es js)
unfolding connect_sources is_source
connect_sources-Links ids to [] js h = Links-self js
connect_sources-Links ids to (e ∷ es) js h =
    let ks = connect_edge ids to e js in
    let l = connect_edge-Links ids to e js h in
    Links-trans (is_between ids to e) (is_source ids to es) js ks _ l
      (connect_sources-Links ids to es ks (later-IsIndex ids (is_between ids to e) js ks l h))

pub connect_all-Links :
    (ids : List (String × String)) (edges : List (String × List EdgeImpact)) (js : Jobs)
    → IsIndex ids js
    → Links (is_linked ids edges) js (connect_all ids edges js)
unfolding connect_all is_linked
connect_all-Links ids [] js h = Links-self js
connect_all-Links ids ((to, es) ∷ rest) js h =
    let ks = connect_sources ids to es js in
    let l = connect_sources-Links ids to es js h in
    Links-trans (is_source ids to es) (is_linked ids rest) js ks _ l
      (connect_all-Links ids rest ks (later-IsIndex ids (is_source ids to es) js ks l h))
