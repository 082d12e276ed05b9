-- ===== src/Casework/Service/Commands.antt =====
-- The commands of src/proofops_casework/service.py: `bootstrap`, `set_baseline`, `register_task`,
-- `evaluate`, `open_case`, `reopen_case`, `quarantine_note` and `prepare_review`. Each is a change of the
-- workspace behind a check of the actor's role.
use proofops_memoryguard.Base.{
  ℕ, ◌+◌, String, Bool, true, false, not, Option, none, some, List, [], ◌∷◌, ◌++◌, Dict, get, put,
  keys, length, leb, eqb, sort_texts, sorted_set, ◌==◌, if◌then◌else◌,
}
use proofops_memoryguard.Errors.{Result, ok, casework, raise_if, ◌>>=◌, ◌>>◌}
use proofops_memoryguard.Exec
use proofops_memoryguard.Exec.{Exec, lift}
use proofops_memoryguard.Python.Number.{Datetime}
use proofops_memoryguard.Python.Value.{Value, str, strings, optional_str}
use proofops_memoryguard.Python.Runtime.{Runtime}
use proofops_memoryguard.Casework.Models.{
  Actor, Role, owner, investigator, reviewer, Command, Scope, Intent, Baseline, Task, Workspace,
  needs_human,
}
use proofops_memoryguard.Casework.Values.{
  nat, scope_value, intent_value, task_value, decision_value,
}
use proofops_memoryguard.Casework.Digest.{scope_key, authorize}
use proofops_memoryguard.Casework.Affected.{affected_tasks}
use proofops_memoryguard.Casework.Ruling.{is_past, versioned}
use proofops_memoryguard.Casework.Service.{Service, Fresh, Change, mutate, task_of}
use proofops_memoryguard.Casework.Decide.{new_id, invalidate, decide}

abbrev owners : List Role
owners = owner ∷ []

abbrev pub operators : List Role
operators = owner ∷ investigator ∷ []

abbrev pub reviewers : List Role
reviewers = reviewer ∷ []

abbrev pub operators_and_reviewers : List Role
operators_and_reviewers = owner ∷ investigator ∷ reviewer ∷ []

module _ ⦃runtime : Runtime⦄ where
  unfoldable pub bootstrap_change : Change
  bootstrap_change w seq = ok (w, ("state", str "INITIALIZED") ∷ [])

  abbrev next_version : Option Baseline → ℕ
  next_version none = 1
  next_version (some b) = b.version + 1

  abbrev so_far : {A : Type 0} → Option (List A) → List A
  so_far none = []
  so_far (some xs) = xs

  unfoldable pub baseline_change : Actor → Scope → ℕ → Datetime → Change
  baseline_change actor scope limit_minor expires_at w seq =
      let key = scope_key scope in
      let version = next_version (get key w.baselines) in
      let b : Baseline = record {
        scope = scope;
        version = version;
        limit_minor = limit_minor;
        expires_at = expires_at;
        actor_id = actor.actor_id;
        event_seq = seq;
      } in
      ok (
        invalidate scope (versioned "baseline" key version) "BASELINE_CHANGED_REVIEW_REQUIRED"
            (record w {
              baselines = put key b w.baselines;
              baseline_history =
                  put key (so_far (get key w.baseline_history) ++ b ∷ []) w.baseline_history;
            }),
        ("baseline_key", str key)
            ∷ ("version", nat version)
            ∷ ("affected_tasks", strings (affected_tasks w.tasks scope))
            ∷ ("source", str "configured_operator_attestation")
            ∷ [],
      )

  -- `for parent_id in cmd.depends_on`
  unfoldable pub check_parent_tasks : Workspace → Actor → Intent → List String → Result (Unit {0})
  check_parent_tasks w actor intent [] = ok tt
  check_parent_tasks w actor intent (id ∷ ids) = do
    parent ← task_of w actor id
    raise_if (not (parent.intent.scope.subject_id == intent.scope.subject_id))
        (casework "CROSS_SUBJECT_DEPENDENCY_FORBIDDEN" 403)
    check_parent_tasks w actor intent ids

  module _ {M : Type 0} (service : Service M) (fresh : Fresh) (actor : Actor) (cmd : Command) where
    unfoldable pub task_change : Intent → List String → Change
    task_change intent depends_on w seq = do
      raise_if (leb 250 (length w.tasks)) (casework "TASK_CAPACITY_REACHED" 413)
      raise_if (not (eqb (length depends_on) (length (sorted_set depends_on))))
          (casework "DUPLICATE_DEPENDENCY" 422)
      check_parent_tasks w actor intent depends_on
      let task : Task = record {
        task_id = new_id fresh "task";
        intent = intent;
        depends_on = sort_texts depends_on;
        taints = [];
        status = needs_human;
        current_decision_id = none;
      }
      (w', task', d) ←
          decide service fresh (record w { tasks = put task.task_id task w.tasks }) task.task_id
            task actor cmd seq false
      ok (w', ("task", task_value task') ∷ ("decision", decision_value d) ∷ [])

    unfoldable pub evaluate_change : String → Bool → Change
    evaluate_change task_id reconsider w seq = do
      task ← task_of w actor task_id
      (w', task', d) ← decide service fresh w task_id task actor cmd seq reconsider
      ok (
        w',
        ("decision", decision_value d)
            ∷ ("supersedes", optional_str task.current_decision_id)
            ∷ ("taints_remaining", strings (sort_texts (keys task'.taints)))
            ∷ [],
      )

module _ ⦃runtime : Runtime⦄ {M : Type 0} (service : Service M) (fresh : Fresh) (actor : Actor)
    (cmd : Command) where
  unfoldable pub bootstrap : Exec M (Dict Value)
  bootstrap =
      Exec.◌>>◌ (lift (authorize actor owners none))
        (mutate service fresh actor cmd "bootstrap" [] bootstrap_change true none)

  unfoldable pub set_baseline : Scope → ℕ → Datetime → Exec M (Dict Value)
  set_baseline scope limit_minor expires_at =
      Exec.◌>>◌
        (lift (
          authorize actor owners (some scope.subject_id)
          >> raise_if (is_past expires_at fresh.checked_at)
              (casework "BASELINE_MUST_EXPIRE_IN_FUTURE" 422)))
        (mutate service fresh actor cmd "baseline.set"
          (("scope", scope_value scope)
            ∷ ("limit_minor", nat limit_minor)
            ∷ ("expires_at", str (runtime.json_time expires_at))
            ∷ [])
          (baseline_change actor scope limit_minor expires_at) false none)

  unfoldable pub register_task : Intent → List String → Exec M (Dict Value)
  register_task intent depends_on =
      Exec.◌>>◌ (lift (authorize actor operators (some intent.scope.subject_id))) (
        mutate service fresh actor cmd "task.register"
          (("intent", intent_value intent) ∷ ("depends_on", strings depends_on) ∷ [])
          (task_change service fresh actor cmd intent depends_on) false none)

  unfoldable pub evaluate : String → Bool → Exec M (Dict Value)
  evaluate task_id reconsider =
      Exec.◌>>◌
        (lift (authorize actor (if reconsider then reviewers else operators_and_reviewers) none))
        (mutate service fresh actor cmd (if reconsider then "task.reconsider" else "task.evaluate")
          (("task_id", str task_id) ∷ [])
          (evaluate_change service fresh actor cmd task_id reconsider) false none)
