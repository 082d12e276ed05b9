-- ===== src/Guard.antt =====
-- src/proofops_memoryguard/module.py: the class `MemoryGuard`. Its lock makes each call atomic, so
-- a call is one action on the store. Clock readings and fresh identifiers are arguments of a call.
pub mod Checks
pub mod Sound
pub mod Observe
pub mod Decide
pub mod Finalize
pub mod History
use proofops_memoryguard.Base.{
  ℕ, String, Bool, true, false, not, ◌&&◌, ◌==◌, ltb, if◌then◌else◌, Dict,
}
use proofops_memoryguard.Errors.{Result, ok, err, value_error, ◌>>=◌, ◌>>◌, raise_if}
use proofops_memoryguard.Canonical.{domain_hash}
use proofops_memoryguard.Python.Value.{Value, dict, fields}
use proofops_memoryguard.Python.Runtime.{Runtime}

-- What `__init__` keeps beside the two ports.
pub record Guard : Type 0 where
  pub policy_hash : String
  pub decision_ttl : ℕ

-- `__init__`; `production_kind` is that of the memory port
unfoldable pub new_guard : ⦃runtime : Runtime⦄ → String → Dict Value → ℕ → Bool → Result Guard
new_guard production_kind policy ttl production = do
  raise_if (if ltb ttl 30 then true else ltb 3600 ttl)
      (value_error "decision_ttl_seconds must be in [30, 3600]")
  raise_if (production && not (production_kind == "sibyl_memory"))
      (value_error "production MemoryGuard requires the Sibyl Memory Adapter")
  policy_hash ← domain_hash "policy" (dict (fields policy))
  ok (record { policy_hash = policy_hash; decision_ttl = ttl })
