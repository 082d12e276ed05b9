-- ===== src/Base/Maps.antt =====
-- A Python dict with string keys, in insertion order, and the sorted set of a list of strings.
use Prim.Native.String.{String, compare}
use mathlib.Core.Path.{◌≡◌, refl}
use mathlib.Core.Bool.{Bool, false, ◌||◌, not}
use mathlib.Core.Option.{Option, none, some}
use mathlib.Core.List.{List, [], ◌∷◌, ◌++◌}
use native.Mathlib.Omega.{arith}
use text.Mathlib.Text.{◌==◌, is_lt}
use text.Mathlib.TextEquality.{eq_iff}
use proofops_memoryguard.Base.Tests.{if◌then◌else◌, is_some}

abbrev pub Dict {ℓ} : Type ℓ → Type ℓ
Dict V = List (String × V)

module _ {ℓ} {V : Type ℓ} where
  -- `d.get(k)`
  unfoldable pub get : String → Dict V → Option V
  get k [] = none
  get k ((j, v) ∷ d) = if j == k then some v else get k d

  -- `d[k] = v`
  unfoldable pub put : String → V → Dict V → Dict V
  put k v [] = (k, v) ∷ []
  put k v ((j, w) ∷ d) = if j == k then (k, v) ∷ d else (j, w) ∷ put k v d

  -- `d.pop(k, None)`
  unfoldable pub remove : String → Dict V → Dict V
  remove k [] = []
  remove k ((j, v) ∷ d) = let rest = remove k d in if j == k then rest else (j, v) ∷ rest

  pub get-put :
      (k j : String) (v : V) (d : Dict V) → get j (put k v d) ≡ (if k == j then some v else get j d)
  unfolding get put
  get-put k j v [] = refl
  get-put k j v ((i, w) ∷ d) = ground (arith, eq_iff k j, eq_iff i k, eq_iff i j, get-put k j v d)

  pub get-remove :
      (k j : String) (d : Dict V) → get j (remove k d) ≡ (if k == j then none else get j d)
  unfolding get remove
  get-remove k j [] = ground arith
  get-remove k j ((i, w) ∷ d) = ground (arith, eq_iff k j, eq_iff i k, eq_iff i j, get-remove k j d)

-- `not (a != b)`
pub not_ne-eq : (a b : String) → not (a == b) ≡ false → a ≡ b
not_ne-eq a b h = ground (arith, eq_iff a b)

-- `s in xs`
unfoldable pub contains : String → List String → Bool
contains s [] = false
contains s (x ∷ xs) = x == s || contains s xs

pub contains-append :
    (k : String) (xs ys : List String) → contains k (xs ++ ys) ≡ (contains k xs || contains k ys)
unfolding contains
contains-append k [] ys = refl
contains-append k (x ∷ xs) ys = ground (arith, contains-append k xs ys)

-- No key stands twice, as in every Python dict.
abbrev pub IsDistinct : List String → Type 0
IsDistinct [] = Unit
IsDistinct (k ∷ ks) = (contains k ks ≡ false) × IsDistinct ks

abbrev pub keys {ℓ} : {V : Type ℓ} → Dict V → List String
keys [] = []
keys ((k, v) ∷ d) = k ∷ keys d

unfoldable pub insert_sorted : String → List String → List String
insert_sorted s [] = s ∷ []
insert_sorted s (x ∷ xs) =
    let rest = x ∷ insert_sorted s xs in
    if s == x then x ∷ xs else if is_lt (compare s x) then s ∷ x ∷ xs else rest

-- `tuple(sorted(set(xs)))`; texts are ordered by their code points
unfoldable pub sorted_set : List String → List String
sorted_set [] = []
sorted_set (x ∷ xs) = insert_sorted x (sorted_set xs)

contains-insert_sorted :
    (s t : String) (xs : List String) → contains s (insert_sorted t xs) ≡ (t == s || contains s xs)
unfolding contains insert_sorted
contains-insert_sorted s t [] = refl
contains-insert_sorted s t (x ∷ xs) =
    ground (arith, eq_iff t x, eq_iff x s, eq_iff t s, contains-insert_sorted s t xs)

pub contains-sorted_set :
    (s : String) (xs : List String) → contains s (sorted_set xs) ≡ contains s xs
unfolding contains sorted_set
contains-sorted_set s [] = refl
contains-sorted_set s (x ∷ xs) =
    ground (arith, contains-insert_sorted s x (sorted_set xs), contains-sorted_set s xs)

pub get-absent {ℓ} :
    {V : Type ℓ} (k : String) (d : Dict V) → contains k (keys d) ≡ false → get k d ≡ none
unfolding get contains
get-absent k [] h = refl
get-absent k ((j, v) ∷ d) h = ground (arith, get-absent k d)

pub contains-keys {ℓ} :
    {V : Type ℓ} (k : String) (d : Dict V) → contains k (keys d) ≡ is_some (get k d)
unfolding get contains
contains-keys k [] = refl
contains-keys k ((j, v) ∷ d) = ground (arith, contains-keys k d)
