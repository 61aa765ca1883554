-- ===== src/Resolve/Edges/Steps.antt =====
-- One call of `addEdge`.
use cnspec.Common.{
  false, ◌||◌, String, str_eq, eq_iff, List, [], ◌∷◌, ◌++◌, Option, none, some, if◌then◌else◌, ◌≡◌,
  refl, ap, arith,
}
use cnspec.Common.Dict.{lookup-update}
use cnspec.Common.Keys.{contains, IsDistinct}
use cnspec.Impact.{Impact}
use cnspec.Resolve.{Builder, EdgeImpact}
use cnspec.Resolve.Edges.{is_some, targets, sources, add_edge}

-- The impact of the edge from `from`.
unfoldable pub impact_from : String → List EdgeImpact → Option (Option Impact)
impact_from from [] = none
impact_from from (e ∷ es) =
    let rest = impact_from from es in if str_eq e.edge from then some e.impact else rest

pub contains-add :
    (k j : String) (xs : List String) → contains k (xs ++ (j ∷ [])) ≡ (contains k xs || str_eq j k)
unfolding contains
contains-add k j [] = ground arith
contains-add k j (x ∷ xs) = ground (arith, contains-add k j xs)

pub IsDistinct-add :
    (j : String) (xs : List String)
    → contains j xs ≡ false
    → IsDistinct xs
    → IsDistinct (xs ++ (j ∷ []))
unfolding contains
IsDistinct-add j [] h d = (refl, tt)
IsDistinct-add j (x ∷ xs) h (fresh, d) = (
  ground (arith, contains-add x j xs, eq_iff x j, eq_iff j x),
  IsDistinct-add j xs (ground arith) d,
)

unfoldable pub or_else : Option (Option Impact) → Option (Option Impact) → Option (Option Impact)
or_else none o = o
or_else (some i) o = some i

pub impact_from-add :
    (from : String) (e : EdgeImpact) (es : List EdgeImpact)
    → impact_from from (es ++ (e ∷ []))
      ≡ or_else (impact_from from es) (if str_eq e.edge from then some e.impact else none)
unfolding impact_from or_else
impact_from-add from e [] = ground arith
impact_from-add from e (x ∷ es) = ground (arith, impact_from-add from e es)

pub targets-add_edge :
    (n from to : String) (i : Option Impact) (b : Builder)
    → targets (add_edge from to i b) n ≡ (
        if str_eq from n
        then if contains to (targets b from) then targets b from else targets b from ++ (to ∷ [])
        else targets b n)
unfolding targets add_edge
targets-add_edge n from to i b =
    ground (arith, lookup-update n from (targets b from ++ (to ∷ [])) b.reports_to, eq_iff from n)

pub sources-add_edge :
    (n from to : String) (i : Option Impact) (b : Builder)
    → sources (add_edge from to i b) n ≡ (
        if str_eq to n
        then if contains to (targets b from)
          then sources b to
          else sources b to ++ (record { edge = from; impact = i } ∷ [])
        else sources b n)
unfolding sources add_edge
sources-add_edge n from to i b = ground (
  arith,
  lookup-update n to (sources b to ++ (record { edge = from; impact = i } ∷ [])) b.reports_from,
  eq_iff to n,
)

-- The ids of the edges.
unfoldable pub edge_ids : List EdgeImpact → List String
edge_ids [] = []
edge_ids (e ∷ es) = e.edge ∷ edge_ids es

pub edge_ids-add :
    (e : EdgeImpact) (es : List EdgeImpact)
    → edge_ids (es ++ (e ∷ [])) ≡ edge_ids es ++ (e.edge ∷ [])
unfolding edge_ids
edge_ids-add e [] = refl
edge_ids-add e (x ∷ es) = ap (λ l. x.edge ∷ l) (edge_ids-add e es)

pub contains-edge_ids :
    (n : String) (es : List EdgeImpact) → contains n (edge_ids es) ≡ is_some (impact_from n es)
unfolding contains edge_ids impact_from is_some
contains-edge_ids n [] = refl
contains-edge_ids n (e ∷ es) = ground (arith, contains-edge_ids n es)
