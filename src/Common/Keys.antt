-- ===== src/Common/Keys.antt =====
-- Go's `map[string]struct{}` as a list of distinct keys.
use Prim.Native.Nat.{suc}
use cnspec.Common.{
  inr, inl, Bool-cases, All, refl, [], ◌||◌, length, eq_iff, true, arith, str_eq, false, ◌≡◌,
  if◌then◌else◌, ◌∷◌, Bool, List, String,
}
use mathlib.Core.Path.{subst}

unfoldable pub is_empty : List String → Bool
is_empty [] = true
is_empty (x ∷ xs) = false

-- `_, ok := m[k]`
unfoldable pub contains : String → List String → Bool
contains k [] = false
contains k (x ∷ xs) = str_eq x k || contains k xs

-- `delete(m, k)`
unfoldable pub delete : String → List String → List String
delete k [] = []
delete k (x ∷ xs) = let rest = delete k xs in if str_eq x k then rest else x ∷ rest

-- `m[k] = struct{}{}`
unfoldable pub insert : String → List String → List String
unfolding contains
insert k xs = if contains k xs then xs else k ∷ xs

abbrev pub IsDistinct : List String → Type 0
IsDistinct [] = Unit
IsDistinct (x ∷ xs) = (contains x xs ≡ false) × IsDistinct xs

pub contains-delete :
    (j k : String) (xs : List String)
    → contains j (delete k xs) ≡ (if str_eq k j then false else contains j xs)
unfolding contains delete
contains-delete j k [] = ground arith
contains-delete j k (x ∷ xs) =
    ground (arith, contains-delete j k xs, eq_iff x k, eq_iff x j, eq_iff k j)

contains_of_eq : (j k : String) (xs : List String) → k ≡ j → contains k xs ≡ contains j xs
contains_of_eq j k xs e = rw e

pub contains-insert :
    (j k : String) (xs : List String) → contains j (insert k xs) ≡ (str_eq k j || contains j xs)
unfolding contains insert
contains-insert j k xs = ground (arith, contains_of_eq j k xs, eq_iff k j)

delete_of_missing : (k : String) (xs : List String) → contains k xs ≡ false → delete k xs ≡ xs
unfolding contains delete
delete_of_missing k [] h = refl
delete_of_missing k (x ∷ xs) h = ground (arith, delete_of_missing k xs)

pub length-delete :
    (k : String) (xs : List String)
    → IsDistinct xs
    → contains k xs ≡ true
    → length xs ≡ suc (length (delete k xs))
unfolding contains delete
length-delete k [] d h = cc
length-delete k (x ∷ xs) d h =
    ground (arith, length-delete k xs d.1, eq_iff x k, delete_of_missing k xs)

pub IsDistinct-delete : (k : String) (xs : List String) → IsDistinct xs → IsDistinct (delete k xs)
unfolding delete
IsDistinct-delete k [] d = tt
IsDistinct-delete k (x ∷ xs) d = ground (arith, IsDistinct-delete k xs d.1, contains-delete x k xs)

pub All-contains {κ} :
    (P : String → Type κ) (k : String) (xs : List String) → contains k xs ≡ true → All P xs → P k
unfolding contains
All-contains P k [] h a = cc
All-contains P k (x ∷ xs) h (p, a) = elim (Bool-cases (str_eq x k)) [
  | inl same ↦ subst P ((eq_iff x k).0 same) p
  | inr other ↦ All-contains P k xs (ground arith) a
]
