-- ===== src/Node/Finisher/Closing.antt =====
-- The finisher closes its channel once, when the last datapoint has been seen.
use cnspec.Node.Finisher
use cnspec.Node.Finisher.{Finisher, finished, recalc}
use cnspec.Common.Keys.{is_empty, delete}
use cnspec.Common.{
  sym, ap, refl, ◌≤◌, ◌∙◌, true, [], ◌||◌, not, ◌&&◌, str_eq, if◌then◌else◌, ◌∷◌, Bool, false, ◌≡◌,
  arith, String, List,
}

-- Between two events: the channel is closed at most once, and when nothing remains it is closed
-- already or will be by the recalculation that is due.
pub record IsClosing (n : Finisher) : Type 0 where
  pub once : n.closed ≡ (if is_empty n.remaining && not n.invalidated then 1 else 0)

abbrev pub IsNew : Finisher → Type 0
IsNew n = (n.invalidated ≡ false) × (n.closed ≡ 0)

initialize-IsClosing : (n : Finisher) → IsNew n → IsClosing (Finisher.initialize n)
unfolding Finisher.initialize
initialize-IsClosing n h = ground arith

handle-IsClosing :
    (n : Finisher) (e : Finisher.Event) → IsClosing n → IsClosing (Finisher.handle n e)
unfolding Finisher.handle Finisher.consume Finisher.recalculate
handle-IsClosing n (finished from) h = ground (arith, h.once)
handle-IsClosing n recalc h = ground (arith, h.once)

run-IsClosing :
    (es : List Finisher.Event) (n : Finisher) → IsClosing n → IsClosing (Finisher.run n es)
unfolding Finisher.run
run-IsClosing [] n h = h
run-IsClosing (e ∷ es) n h = run-IsClosing es (Finisher.handle n e) (handle-IsClosing n e h)

-- The keys of the events that report a datapoint.
abbrev pub reports : String → List Finisher.Event → Bool
reports k [] = false
reports k (finished from ∷ es) = str_eq k from || reports k es
reports k (recalc ∷ es) = reports k es

abbrev pub all_reported : List Finisher.Event → List String → Bool
all_reported es [] = true
all_reported es (k ∷ ks) = reports k es && all_reported es ks

all_reported-nil : (ks : List String) → is_empty ks ≡ all_reported [] ks
unfolding is_empty
all_reported-nil [] = refl
all_reported-nil (k ∷ ks) = refl

all_reported-delete :
    (from : String) (es : List Finisher.Event) (ks : List String)
    → all_reported es (delete from ks) ≡ all_reported (finished from ∷ es) ks
unfolding delete
all_reported-delete from es [] = refl
all_reported-delete from es (k ∷ ks) = ground (arith, all_reported-delete from es ks)

all_reported-recalc :
    (es : List Finisher.Event) (ks : List String)
    → all_reported es ks ≡ all_reported (recalc ∷ es) ks
all_reported-recalc es [] = refl
all_reported-recalc es (k ∷ ks) = ground (arith, all_reported-recalc es ks)

remaining-consume :
    (from : String) (n : Finisher) → (Finisher.consume from n).remaining ≡ delete from n.remaining
unfolding Finisher.consume delete
remaining-consume from n = ground arith

remaining-recalculate : (n : Finisher) → (Finisher.recalculate n).remaining ≡ n.remaining
unfolding Finisher.recalculate
remaining-recalculate n = ground arith

remaining-initialize : (n : Finisher) → (Finisher.initialize n).remaining ≡ n.remaining
unfolding Finisher.initialize
remaining-initialize n = ground arith

remaining-run :
    (es : List Finisher.Event) (n : Finisher)
    → is_empty (Finisher.run n es).remaining ≡ all_reported es n.remaining
unfolding Finisher.run Finisher.handle
remaining-run [] n = all_reported-nil n.remaining
remaining-run (finished from ∷ es) n =
    remaining-run es (Finisher.consume from n)
    ∙ ap (all_reported es) (remaining-consume from n)
    ∙ all_reported-delete from es n.remaining
remaining-run (recalc ∷ es) n =
    remaining-run es (Finisher.recalculate n)
    ∙ ap (all_reported es) (remaining-recalculate n)
    ∙ all_reported-recalc es n.remaining

closed_le :
    (n : Finisher) → IsClosing n → (n.closed ≤ 1) × (n.closed ≡ 1 → is_empty n.remaining ≡ true)
closed_le n h = ground (arith, h.once)

settled :
    (n : Finisher)
    → IsClosing n
    → (Finisher.recalculate n).closed ≡ (if is_empty n.remaining then 1 else 0)
unfolding Finisher.recalculate
settled n h = ground (arith, h.once)

-- A new finisher, given any reports and recalculations, never closes its channel twice, and not
-- before every expected datapoint was reported; after one more recalculation it has closed the
-- channel once if every expected datapoint was reported, and not at all otherwise.
pub closes_once :
    (es : List Finisher.Event) (n : Finisher)
    → IsNew n
    → let m = Finisher.run (Finisher.initialize n) es in
      (m.closed ≤ 1)
      × (m.closed ≡ 1 → all_reported es n.remaining ≡ true)
      × ((Finisher.recalculate m).closed ≡ (if all_reported es n.remaining then 1 else 0))
closes_once es n new =
    let m = Finisher.run (Finisher.initialize n) es in
    let sound = run-IsClosing es (Finisher.initialize n) (initialize-IsClosing n new) in
    let all : is_empty m.remaining ≡ all_reported es n.remaining =
      remaining-run es (Finisher.initialize n) ∙ ap (all_reported es) (remaining-initialize n) in
    let (once, when) = closed_le m sound in
    (once, λ h. sym all ∙ when h, rw (← all) (settled m sound))
