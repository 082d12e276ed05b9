-- ===== src/Casework/Ancestors.antt =====
-- `ancestors` of src/proofops_casework/core.py: the tasks that a task rests on, parents first.
pub mod Ends
pub mod Order
use proofops_memoryguard.Base.{
  ℕ, zero, suc, String, Bool, true, false, Option, none, some, List, [], ◌∷◌, ◌++◌, if◌then◌else◌,
  Dict, get, contains, keys, length, sort_texts,
}
use proofops_memoryguard.Errors.{Result, ok, err, casework, recursion_error, ◌>>=◌}
use proofops_memoryguard.Casework.Models.{Task}

-- The sets and the list that `walk` updates, but for `visiting`, which holds the calls under way.
pub record Walk : Type 0 where
  pub visited : List String
  pub ordered : List String

-- a loop over keys
unfoldable pub each : (String → Walk → Result Walk) → List String → Walk → Result Walk
each visit [] w = ok w
each visit (p ∷ ps) w = do w' ← visit p w; each visit ps w'

abbrev pub leave : String → Walk → Walk
leave key w = record { visited = key ∷ w.visited; ordered = w.ordered ++ key ∷ [] }

-- the body of `walk` behind its two early exits, with the calls that it makes
unfoldable pub descend : (String → Walk → Result Walk) → String → Option Task → Walk → Result Walk
descend visit key none w = err (casework "DEPENDENCY_MISSING" 503)
descend visit key (some task) w = do
  w' ← each visit (sort_texts task.depends_on) w
  ok (leave key w')

-- `walk`; the fuel is the depth that the calls may reach
unfoldable pub walk : ℕ → Dict Task → List String → String → Walk → Result Walk
walk zero tasks visiting key w = err (recursion_error "maximum recursion depth exceeded")
walk (suc n) tasks visiting key w =
    let visit = walk n tasks (key ∷ visiting) in
    if contains key visiting
    then err (casework "DEPENDENCY_CYCLE" 503)
    else if contains key w.visited
    then ok w
    else descend visit key (get key tasks) w

-- One call for each task on a path, and one that finds a cycle or a missing task.
unfoldable pub ancestors : Dict Task → String → Result (List String)
ancestors tasks task_id = do
  w ←
      walk (suc (suc (length (keys tasks)))) tasks [] task_id
        (record { visited = []; ordered = [] })
  ok w.ordered
