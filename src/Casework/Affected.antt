-- ===== src/Casework/Affected.antt =====
-- `affected_tasks` of src/proofops_casework/core.py: the tasks of a scope, and those that rest on them.
pub mod Chosen
mod Closed
pub mod Exact
use proofops_memoryguard.Base.{
  ℕ, zero, suc, String, Bool, not, ◌&&◌, List, [], ◌∷◌, ◌++◌, Dict, keys, contains, any_by,
  filter_by, length, sorted_set, ◌==◌,
}
use proofops_memoryguard.Python.Runtime.{Runtime}
use proofops_memoryguard.Casework.Models.{Scope, Task}
use proofops_memoryguard.Casework.Digest.{scope_key}

-- `any(parent in result for parent in task.depends_on)`
abbrev pub rests_on : List String → Task → Bool
rests_on result task = any_by (λ p. contains p result) task.depends_on

-- `key not in result and any(parent in result for parent in task.depends_on)`
abbrev pub is_fresh : List String → String × Task → Bool
is_fresh result e = not (contains e.0 result) && rests_on result e.1

-- what one round of the loop adds
unfoldable pub added : Dict Task → List String → List String
added tasks result = keys (filter_by (is_fresh result) tasks)

-- `while True`
unfoldable pub spread : ℕ → Dict Task → List String → List String
spread zero tasks result = result
spread (suc n) tasks result = elim (added tasks result) [
  | [] ↦ result
  | k ∷ ks ↦ spread n tasks (result ++ k ∷ ks)
]

module _ ⦃runtime : Runtime⦄ where
  abbrev pub has_scope : Scope → String × Task → Bool
  has_scope scope e = scope_key e.1.intent.scope == scope_key scope

  unfoldable pub in_scope : Dict Task → Scope → List String
  in_scope tasks scope = keys (filter_by (has_scope scope) tasks)

  -- Every round but the last adds a task.
  unfoldable pub affected_tasks : Dict Task → Scope → List String
  affected_tasks tasks scope = sorted_set (spread (length tasks) tasks (in_scope tasks scope))
