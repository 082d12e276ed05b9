-- ===== src/Base/Texts.antt =====
-- Lists of texts as Python's sets and sorted lists of keys: sorting, and how many distinct texts fit
-- into a list.
use Prim.Native.Nat.{◌≤◌, ◌<◌}
use Prim.Native.String.{String, compare}
use mathlib.Core.Path.{◌≡◌, refl, ap, ◌∙◌}
use mathlib.Core.Bool.{Bool, true, false, ◌||◌, ◌&&◌, not}
use mathlib.Core.List.{List, [], ◌∷◌}
use native.Mathlib.Omega.{arith}
use text.Mathlib.Text.{◌==◌, is_lt}
use text.Mathlib.TextEquality.{eq_iff}
use text.Mathlib.TextPositions.{eq_refl}
use proofops_memoryguard.Base.Tests.{if◌then◌else◌}
use proofops_memoryguard.Base.Lists.{length}
use proofops_memoryguard.Base.Maps.{Dict, keys, contains, IsDistinct}

-- `sorted(xs)`: a text goes before the first one that is not smaller
unfoldable pub insert_text : String → List String → List String
insert_text s [] = s ∷ []
insert_text s (x ∷ xs) =
    let rest = x ∷ insert_text s xs in if is_lt (compare x s) then rest else s ∷ x ∷ xs

unfoldable pub sort_texts : List String → List String
sort_texts [] = []
sort_texts (x ∷ xs) = insert_text x (sort_texts xs)

contains-insert_text :
    (s t : String) (xs : List String) → contains s (insert_text t xs) ≡ (t == s || contains s xs)
unfolding contains insert_text
contains-insert_text s t [] = refl
contains-insert_text s t (x ∷ xs) = ground (arith, contains-insert_text s t xs)

pub contains-sort_texts :
    (s : String) (xs : List String) → contains s (sort_texts xs) ≡ contains s xs
unfolding contains sort_texts
contains-sort_texts s [] = refl
contains-sort_texts s (x ∷ xs) =
    ground (arith, contains-insert_text s x (sort_texts xs), contains-sort_texts s xs)

-- `sorted(d.items())`: the entries in the order of their keys
unfoldable pub insert_entry {ℓ} : {V : Type ℓ} → String → V → Dict V → Dict V
insert_entry k v [] = (k, v) ∷ []
insert_entry k v ((j, w) ∷ d) =
    let rest = (j, w) ∷ insert_entry k v d in
    if is_lt (compare j k) then rest else (k, v) ∷ (j, w) ∷ d

unfoldable pub sort_entries {ℓ} : {V : Type ℓ} → Dict V → Dict V
sort_entries [] = []
sort_entries ((k, v) ∷ d) = insert_entry k v (sort_entries d)

keys-insert_entry {ℓ} :
    {V : Type ℓ} (k : String) (v : V) (d : Dict V)
    → keys (insert_entry k v d) ≡ insert_text k (keys d)
unfolding insert_entry insert_text
keys-insert_entry k v [] = refl
keys-insert_entry k v ((j, w) ∷ d) = go (is_lt (compare j k)) (keys-insert_entry k v d)
  where
    go :
        (b : Bool)
        → keys (insert_entry k v d) ≡ insert_text k (keys d)
        → keys (if b then (j, w) ∷ insert_entry k v d else (k, v) ∷ (j, w) ∷ d)
          ≡ (if b then j ∷ insert_text k (keys d) else k ∷ j ∷ keys d)
    go true e = cc
    go false e = refl

pub keys-sort_entries {ℓ} : {V : Type ℓ} (d : Dict V) → keys (sort_entries d) ≡ sort_texts (keys d)
unfolding sort_entries sort_texts
keys-sort_entries [] = refl
keys-sort_entries ((k, v) ∷ d) =
    keys-insert_entry k v (sort_entries d) ∙ ap (insert_text k) (keys-sort_entries d)

-- Everything in the first list is in the second.
abbrev pub Within : List String → List String → Type 0
Within xs ys = (s : String) → contains s xs ≡ true → contains s ys ≡ true

-- the list without every `s`
without : String → List String → List String
without s [] = []
without s (x ∷ xs) = let rest = without s xs in if x == s then rest else x ∷ rest

contains-without :
    (s t : String) (xs : List String) → contains s (without t xs) ≡ (contains s xs && not (t == s))
unfolding contains without
contains-without s t [] = refl
contains-without s t (x ∷ xs) =
    ground (arith, eq_iff x t, eq_iff x s, eq_iff t s, contains-without s t xs)

length-without-le : (s : String) (xs : List String) → length (without s xs) ≤ length xs
unfolding without
length-without-le s [] = omega arith
length-without-le s (x ∷ xs) = ground (arith, length-without-le s xs)

length-without-lt :
    (s : String) (xs : List String) → contains s xs ≡ true → length (without s xs) < length xs
unfolding without contains
length-without-lt s [] h = cc
length-without-lt s (x ∷ xs) h = ground (arith, length-without-le s xs, length-without-lt s xs)

-- Distinct texts of a list are no more than the list is long.
pub length-le_of_Within :
    (xs ys : List String) → IsDistinct xs → Within xs ys → length xs ≤ length ys
length-le_of_Within [] ys d h = omega arith
length-le_of_Within (x ∷ xs) ys (new, d) h = omega (
  arith,
  length-without-lt x ys (h x (unfold contains in rw (eq_refl x))),
  length-le_of_Within xs (without x ys) d smaller,
)
  where
    smaller : Within xs (without x ys)
    smaller s i =
        contains-without s x ys
        ∙ ground (arith, h s (unfold contains in ground (arith, i)), i, new, eq_iff x s)
