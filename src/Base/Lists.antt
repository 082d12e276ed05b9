-- ===== src/Base/Lists.antt =====
-- Lists over the native numbers, and Python's list comprehensions with a Boolean test.
use Prim.Native.Nat.{ℕ, suc, ◌+◌, ◌≤◌}
use mathlib.Core.Path.{◌≡◌, refl}
use mathlib.Core.Bool.{Bool, true, false, not, ◌&&◌, ◌||◌}
use mathlib.Core.Logic.{◌⊎◌, inl, inr}
use mathlib.Core.List.{List, [], ◌∷◌, ◌++◌}
use native.Mathlib.Omega.{arith}
use proofops_memoryguard.Base.Tests.{if◌then◌else◌, Bool-cases}

module _ {ℓ} {A : Type ℓ} where
  abbrev pub length : List A → ℕ
  length [] = 0
  length (x ∷ xs) = suc (length xs)

  pub length-append : (xs ys : List A) → length (xs ++ ys) ≡ length xs + length ys
  length-append [] ys = omega arith
  length-append (x ∷ xs) ys = omega (arith, length-append xs ys)

  -- `[x for x in xs if keep(x)]`
  unfoldable pub filter_by : (A → Bool) → List A → List A
  filter_by keep [] = []
  filter_by keep (x ∷ xs) = let rest = filter_by keep xs in if keep x then x ∷ rest else rest

  -- `any(test(x) for x in xs)`
  unfoldable pub any_by : (A → Bool) → List A → Bool
  any_by test [] = false
  any_by test (x ∷ xs) = test x || any_by test xs

  unfoldable pub all_by : (A → Bool) → List A → Bool
  all_by test [] = true
  all_by test (x ∷ xs) = test x && all_by test xs

  -- `xs[-1:]`
  unfoldable pub last_one : List A → List A
  last_one [] = []
  last_one (x ∷ []) = x ∷ []
  last_one (x ∷ y ∷ xs) = last_one (y ∷ xs)

  abbrev pub is_empty : List A → Bool
  is_empty [] = true
  is_empty (x ∷ xs) = false

  abbrev pub All {κ} : (A → Type κ) → List A → Type κ
  All P [] = Unit
  All P (x ∷ xs) = P x × All P xs

  pub All-append {κ} : (P : A → Type κ) (xs ys : List A) → All P xs → All P ys → All P (xs ++ ys)
  All-append P [] ys h k = k
  All-append P (x ∷ xs) ys h k = (h.0, All-append P xs ys h.1 k)

  pub All-map {κ λ'} :
      (P : A → Type κ) (Q : A → Type λ') (xs : List A) → ((x : A) → P x → Q x) → All P xs → All Q xs
  All-map P Q [] f h = tt
  All-map P Q (x ∷ xs) f h = (f x h.0, All-map P Q xs f h.1)

  pub length-filter_by-le : (keep : A → Bool) (xs : List A) → length (filter_by keep xs) ≤ length xs
  unfolding filter_by
  length-filter_by-le keep [] = omega arith
  length-filter_by-le keep (x ∷ xs) = ground (arith, length-filter_by-le keep xs)

  pub filter_by-append :
      (keep : A → Bool) (xs ys : List A)
      → filter_by keep (xs ++ ys) ≡ filter_by keep xs ++ filter_by keep ys
  unfolding filter_by
  filter_by-append keep [] ys = refl
  filter_by-append keep (x ∷ xs) ys = ground (arith, filter_by-append keep xs ys)

  pub any_by-filter_by :
      (test : A → Bool) (xs : List A) → any_by test xs ≡ not (is_empty (filter_by test xs))
  unfolding any_by filter_by
  any_by-filter_by test [] = refl
  any_by-filter_by test (x ∷ xs) = ground (arith, any_by-filter_by test xs)

module _ {A : Type 0} where
  -- `x` stands in the list, with its place.
  abbrev pub IsIn : A → List A → Type 0
  IsIn x [] = ⊥
  IsIn x (y ∷ ys) = (x ≡ y) ⊎ IsIn x ys

  pub IsIn-filter_by :
      (keep : A → Bool) (x : A) (xs : List A)
      → IsIn x (filter_by keep xs)
      → IsIn x xs × (keep x ≡ true)
  unfolding filter_by
  IsIn-filter_by keep x [] h = absurd h
  IsIn-filter_by keep x (y ∷ ys) h = elim (Bool-cases (keep y)) [
    | inl e ↦ kept e (IsIn-filter_by keep x ys) (rw e at h)
    | inr e ↦ let (i, k) = IsIn-filter_by keep x ys (rw e at h) in (inr i, k)
  ]
    where
      kept :
          keep y ≡ true
          → (IsIn x (filter_by keep ys) → IsIn x ys × (keep x ≡ true))
          → (x ≡ y) ⊎ IsIn x (filter_by keep ys)
          → IsIn x (y ∷ ys) × (keep x ≡ true)
      kept e rest (inl p) = (inl p, rw p e)
      kept e rest (inr i) = let (j, k) = rest i in (inr j, k)

  pub filter_by-IsIn :
      (keep : A → Bool) (x : A) (xs : List A)
      → IsIn x xs
      → keep x ≡ true
      → IsIn x (filter_by keep xs)
  unfolding filter_by
  filter_by-IsIn keep x [] i h = absurd i
  filter_by-IsIn keep x (y ∷ ys) i h = go (keep y) refl i (λ j. filter_by-IsIn keep x ys j h)
    where
      go :
          (b : Bool)
          → keep y ≡ b
          → IsIn x (y ∷ ys)
          → (IsIn x ys → IsIn x (filter_by keep ys))
          → IsIn x (if b then y ∷ filter_by keep ys else filter_by keep ys)
      go true e (inl p) rest = inl p
      go true e (inr j) rest = inr (rest j)
      go false e (inl p) rest = absurd (cc (h, e, p))
      go false e (inr j) rest = rest j

  pub IsIn-append_left : (x : A) (xs ys : List A) → IsIn x xs → IsIn x (xs ++ ys)
  IsIn-append_left x [] ys h = absurd h
  IsIn-append_left x (z ∷ zs) ys (inl p) = inl p
  IsIn-append_left x (z ∷ zs) ys (inr i) = inr (IsIn-append_left x zs ys i)

  pub All-IsIn : (P : A → Type 0) (x : A) (xs : List A) → All P xs → IsIn x xs → P x
  All-IsIn P x [] h i = absurd i
  All-IsIn P x (y ∷ ys) h (inl p) = rw p h.0
  All-IsIn P x (y ∷ ys) h (inr i) = All-IsIn P x ys h.1 i

  pub last_one-IsIn :
      (x : A) (xs : List A) → (y : A) × (last_one (x ∷ xs) ≡ y ∷ []) × IsIn y (x ∷ xs)
  unfolding last_one
  last_one-IsIn x [] = (x, refl, inl refl)
  last_one-IsIn x (z ∷ zs) = let (y, e, i) = last_one-IsIn z zs in (y, e, inr i)
