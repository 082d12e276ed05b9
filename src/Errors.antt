-- ===== src/Errors.antt =====
-- src/proofops_memoryguard/errors.py, with the built-in exceptions that the package raises. An
-- exception carries its message. A call that may raise returns a `Result`.
use proofops_memoryguard.Base.{ℕ, String, Bool, true, false, Option, none, some, ◌≡◌, refl}

pub data Error : Type 0 where
  value_error : String → Error
  type_error : String → Error
  overflow_error : String → Error
  memory_backend_unavailable : String → Error
  memory_integrity : String → Error
  memory_conflict : String → Error
  decision_not_found : String → Error
  finalization : String → Error
  -- `CaseworkError` with its code and its status
  casework : String → ℕ → Error
  recursion_error : String → Error
  -- an exception of code outside: the name of its class, and its message
  outside : String → String → Error

-- `type(exc).__name__`
abbrev pub error_name : Error → String
error_name (value_error m) = "ValueError"
error_name (type_error m) = "TypeError"
error_name (overflow_error m) = "OverflowError"
error_name (memory_backend_unavailable m) = "MemoryBackendUnavailable"
error_name (memory_integrity m) = "MemoryIntegrityError"
error_name (memory_conflict m) = "MemoryConflictError"
error_name (decision_not_found m) = "DecisionNotFoundError"
error_name (finalization m) = "FinalizationError"
error_name (casework code status) = "CaseworkError"
error_name (recursion_error m) = "RecursionError"
error_name (outside name m) = name

pub data Result {ℓ} (A : Type ℓ) : Type ℓ where
  err : Error → Result A
  ok : A → Result A

-- An exception skips the rest of the call.
infixl 5 ◌>>=◌
abbrev pub ◌>>=◌ {ι κ} : {X : Type ι} {Y : Type κ} → Result X → (X → Result Y) → Result Y
err raised >>= next = err raised
ok x >>= next = next x

infixl 5 ◌>>◌
abbrev pub ◌>>◌ {κ} : {Y : Type κ} → Result (Unit {0}) → Result Y → Result Y
check >> next = check >>= λ _. next

-- `if test: raise error`
abbrev pub raise_if : Bool → Error → Result (Unit {0})
raise_if true e = err e
raise_if false e = ok tt

abbrev pub or_raise {ℓ} : {A : Type ℓ} → Option A → Error → Result A
or_raise none e = err e
or_raise (some a) e = ok a

pub ok-injective {ℓ} : {A : Type ℓ} {a b : A} → ok a ≡ ok b → a ≡ b
ok-injective h = cc

-- What a call that did not raise went through.
pub bind_inversion {ι κ} :
    {X : Type ι} {Y : Type κ} (first : Result X) (next : X → Result Y) {y : Y}
    → (first >>= next) ≡ ok y
    → (x : X) × (first ≡ ok x) × (next x ≡ ok y)
bind_inversion (err raised) next h = cc
bind_inversion (ok x) next h = (x, refl, h)

pub raise_if_inversion {κ} :
    {B : Type κ} (t : Bool) (e : Error) (k : Result B) {b : B}
    → (raise_if t e >> k) ≡ ok b
    → (t ≡ false) × (k ≡ ok b)
raise_if_inversion true e k h = cc
raise_if_inversion false e k h = (refl, h)

pub raise_if_last : (t : Bool) (e : Error) → raise_if t e ≡ ok tt → t ≡ false
raise_if_last true e h = cc
raise_if_last false e h = refl
