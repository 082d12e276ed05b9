-- ===== src/Exec.antt =====
-- Calls on a memory that may raise: the memory after the call comes with the exception as well, with
-- whatever the call had written by then.
use proofops_memoryguard.Base.{◌≡◌, refl}
use proofops_memoryguard.Errors.{Error, Result, ok, err}

abbrev pub Exec : Type 0 → Type 0 → Type 0
Exec M A = M → Result A × M

module _ {M A : Type 0} where
  abbrev pub pure : A → Exec M A
  pure a m = (ok a, m)

  abbrev pub raise : Error → Exec M A
  raise e m = (err e, m)

  -- a call that touches no store
  abbrev pub lift : Result A → Exec M A
  lift r m = (r, m)

-- `try`: the exception comes back as a value
abbrev pub attempt : {M A : Type 0} → Exec M A → Exec M (Result A)
attempt act m = (ok (act m).0, (act m).1)

abbrev pub and_then : {M A B : Type 0} → (A → Exec M B) → Result A → M → Result B × M
and_then f (ok a) m = f a m
and_then f (err e) m = (err e, m)

infixl 5 ◌>>=◌ ◌>>◌
abbrev pub ◌>>=◌ : {M A B : Type 0} → Exec M A → (A → Exec M B) → Exec M B
◌>>=◌ act f m = and_then f (act m).0 (act m).1

abbrev pub ◌>>◌ : {M B : Type 0} → Exec M (Unit {0}) → Exec M B → Exec M B
act >> next = act >>= λ _. next

-- Case analysis on a first call, for any property of how a method ends.
module _ {M A B : Type 0} (Q : Result B × M → Type 0) where
  pub lift_ends :
      (r : Result A) (f : A → Exec M B) (m : M)
      → ((e : Error) → r ≡ err e → Q (err e, m))
      → ((a : A) → r ≡ ok a → Q (f a m))
      → Q ((lift r >>= f) m)
  lift_ends (ok a) f m failed next = next a refl
  lift_ends (err e) f m failed next = failed e refl

-- What a call that returned went through: its first part returned, and the rest went on from there.
pub exec_inversion :
    {M A B : Type 0} (act : Exec M A) (f : A → Exec M B) (m : M) {b : B}
    → ((act >>= f) m).0 ≡ ok b
    → (a : A) × ((act m).0 ≡ ok a) × ((f a (act m).1).0 ≡ ok b)
exec_inversion {M} {A} {B} act f m {b} = from (act m).0 (act m).1
  where
    from :
        (r : Result A) (n : M)
        → (and_then f r n).0 ≡ ok b
        → (a : A) × (r ≡ ok a) × ((f a n).0 ≡ ok b)
    from (err e) n h = cc
    from (ok a) n h = (a, refl, h)

-- Whatever a call returns has the property.
pub record Returns {M A : Type 0} (P : A → Type 0) (act : Exec M A) : Type 0 where
  pub at : (m : M) {a : A} → (act m).0 ≡ ok a → P a

-- It is enough that what comes last returns such a value.
pub Returns-bind :
    {M A B : Type 0} {P : B → Type 0} (act : Exec M A) (f : A → Exec M B)
    → ((a : A) → Returns P (f a))
    → Returns P (act >>= f)
Returns-bind act f last = record {
  at = λ m h. let (a, _, k) = exec_inversion act f m h in (last a).at (act m).1 k;
}

pub Returns-lift :
    {M A B : Type 0} {P : B → Type 0} (r : Result A) (f : A → Exec M B)
    → ((a : A) → Returns P (f a))
    → Returns P (and_then f r)
Returns-lift (ok a) f last = last a
Returns-lift (err e) f last = record { at = λ m h. cc }

-- The store that a call which returned leaves, by what its first part returned.
pub and_then_ends :
    {M A B : Type 0} (Q : M → Type 0) (f : A → Exec M B) (r : Result A) (m : M) {b : B}
    → (and_then f r m).0 ≡ ok b
    → ((a : A) → r ≡ ok a → (f a m).0 ≡ ok b → Q (f a m).1)
    → Q (and_then f r m).1
and_then_ends Q f (err e) m h next = absurd (cc h)
and_then_ends Q f (ok a) m h next = next a refl h
