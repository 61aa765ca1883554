-- ===== src/Resolve/Jobs/Connect/Tables.antt =====
-- Tables in which every key stands once, and what `Validate` finds in one.
use cnspec.Common.{
  true, ◌||◌, Bool-cases, String, str_eq, eq_iff, List, [], ◌∷◌, All, some, ◌≡◌, refl, inl, inr,
  arith,
}
use cnspec.Common.Dict.{lookup, update}
use cnspec.Common.Keys.{contains, IsDistinct}
use cnspec.Common.Sums.{All-imp}
use cnspec.Resolve.Edges.{is_some}
use cnspec.Resolve.Jobs.{ReportingJob}
use cnspec.Resolve.Jobs.Connect.{Jobs, all_keys, all_refs, validate_all, validate}

module _ {A : Type 0} where
  unfoldable pub keys : List (String × A) → List String
  keys [] = []
  keys ((k, a) ∷ m) = k ∷ keys m

  abbrev pub IsTable : List (String × A) → Type 0
  IsTable m = IsDistinct (keys m)

  contains-keys : (k : String) (m : List (String × A)) → contains k (keys m) ≡ is_some (lookup k m)
  unfolding contains keys is_some lookup
  contains-keys k [] = refl
  contains-keys k ((j, a) ∷ m) = ground (arith, contains-keys k m)

  contains-keys-update :
      (j k : String) (a : A) (m : List (String × A))
      → contains j (keys (update k a m)) ≡ (contains j (keys m) || str_eq k j)
  unfolding contains keys update
  contains-keys-update j k a [] = ground arith
  contains-keys-update j k a ((i, b) ∷ m) = ground (arith, contains-keys-update j k a m, eq_iff i k)

  pub update-IsTable :
      (k : String) (a : A) (m : List (String × A)) → IsTable m → IsTable (update k a m)
  unfolding contains keys update
  update-IsTable k a [] d = (refl, tt)
  update-IsTable k a ((j, b) ∷ m) (fresh, d) = elim (Bool-cases (str_eq j k)) [
    | inl is ↦ rw is (ground (arith, eq_iff j k), d)
    | inr other ↦ rw other (
      ground (arith, contains-keys-update j k a m, eq_iff j k, eq_iff k j),
      update-IsTable k a m d,
    )
  ]

  -- Each entry is the one that is looked up.
  pub entries : (m : List (String × A)) → IsTable m → All (λ e. lookup e.0 m ≡ some e.1) m
  unfolding contains keys lookup is_some
  entries [] d = tt
  entries ((k, a) ∷ m) (fresh, d) = (
    ground (arith, eq_iff k k),
    All-imp m (λ (j, b) found. ground (arith, found, fresh, contains-keys k m, eq_iff k j))
        (entries m d),
  )

  known_keys :
      (ks : List (String × A)) (js : Jobs)
      → ((k : String) → is_some (lookup k ks) ≡ true → is_some (lookup k js) ≡ true)
      → all_keys ks js ≡ true
  unfolding all_keys lookup is_some
  known_keys [] js h = refl
  known_keys ((k, a) ∷ ks) js h =
      ground (arith, h k, eq_iff k k, known_keys ks js (λ j i. h j (ground (arith, i))))

known_refs :
    (ks : List String) (js : Jobs)
    → ((k : String) → contains k ks ≡ true → is_some (lookup k js) ≡ true)
    → all_refs ks js ≡ true
unfolding all_refs contains is_some
known_refs [] js h = refl
known_refs (k ∷ ks) js h =
    ground (arith, h k, eq_iff k k, known_refs ks js (λ j i. h j (ground (arith, i))))

-- Every job refers to jobs only.
abbrev pub IsClosed : Jobs → ReportingJob → Type 0
IsClosed js j =
    ((k : String) → is_some (lookup k j.child_jobs) ≡ true → is_some (lookup k js) ≡ true)
    × ((k : String) → contains k j.notify ≡ true → is_some (lookup k js) ≡ true)

validate_all_lem : (rest js : Jobs) → All (λ e. IsClosed js e.1) rest → validate_all rest js ≡ true
unfolding validate_all
validate_all_lem [] js h = refl
validate_all_lem ((k, j) ∷ rest) js ((h, i), more) =
    ground
      (arith, known_keys j.child_jobs js h, known_refs j.notify js i, validate_all_lem rest js more)

pub validate_closed :
    (js : Jobs)
    → IsTable js
    → ((k : String) (j : ReportingJob) → lookup k js ≡ some j → IsClosed js j)
    → validate js ≡ true
unfolding validate
validate_closed js d h =
    validate_all_lem js js (All-imp js (λ (k, j) found. h k j found) (entries js d))
