-- ===== src/Casework/Decide.antt =====
-- `_invalidate` and `_decision` of src/proofops_casework/service.py: what a change of the memory does to
-- the tasks that rest on it, and the record of a decision. A task is changed where it stands in the
-- dictionary, as the object there.
pub mod Suspended
use proofops_memoryguard.Base.{
  ℕ, String, Bool, true, false, not, ◌&&◌, ◌||◌, Option, none, some, List, [], ◌∷◌, ◌++◌, Dict, get,
  put, sorted_set, concat, if◌then◌else◌,
}
use proofops_memoryguard.Errors.{Result, ok, err, ◌>>=◌, ◌>>◌}
use proofops_memoryguard.Guard.Decide.{add_seconds}
use proofops_memoryguard.Python.Number.{Datetime}
use proofops_memoryguard.Python.Value.{Value, bool, str, strings}
use proofops_memoryguard.Python.Runtime.{Runtime}
use proofops_memoryguard.Casework.Models.{
  Actor, Command, Scope, Task, Decision, TaskStatus, suspended, RiskCase, Workspace, status_of,
  is_ready,
}
use proofops_memoryguard.Casework.Values.{plain, intent_fields, decision_body}
use proofops_memoryguard.Casework.Digest.{digest}
use proofops_memoryguard.Casework.Affected.{affected_tasks}
use proofops_memoryguard.Casework.Basis.{item, task_basis}
use proofops_memoryguard.Casework.Ruling.{Ruling, policy_result, versioned}
use proofops_memoryguard.Casework.Validity.{ready_expiry}
use proofops_memoryguard.Casework.Service.{Service, Fresh}

-- `f"{prefix}_{uuid4().hex}"`
abbrev pub new_id : Fresh → String → String
new_id fresh prefix = concat (concat prefix "_") (fresh.hex prefix)

abbrev pub suspend : String → String → Task → Task
suspend token reason t = record t { taints = put token reason t.taints; status = suspended }

-- a change of some tasks, each in its place
unfoldable pub change_tasks : (Task → Task) → List String → Dict Task → Dict Task
change_tasks change [] tasks = tasks
change_tasks change (key ∷ ks) tasks =
    change_tasks change ks
      (elim (get key tasks) [ none ↦ tasks | some t ↦ put key (change t) tasks ])

module _ ⦃runtime : Runtime⦄ where
  unfoldable pub invalidate : Scope → String → String → Workspace → Workspace
  invalidate scope token reason w = record w {
    tasks = change_tasks (suspend token reason) (affected_tasks w.tasks scope) w.tasks;
  }

  -- the open cases that block become taints
  unfoldable pub taint_open : Dict RiskCase → List String → Dict String → Result (Dict String)
  taint_open cases [] taints = ok taints
  taint_open cases (key ∷ ks) taints = do
    c ← item key cases
    taint_open cases ks (put (versioned "case" key c.version) "OPEN_RISK" taints)

  abbrev escalation : String → Task → Decision → Ruling → Datetime → Dict Value
  escalation artifact_id task d ruling at =
      ("artifact_id", str artifact_id)
      ∷ ("kind", str "OPERATOR_ESCALATION")
      ∷ ("type", str "NON_EXECUTABLE_OPERATOR_ESCALATION")
      ∷ ("task_id", str task.task_id)
      ∷ ("decision_id", str d.decision_id)
      ∷ ("proof_root", str d.proof_root)
      ∷ ("reason_codes", strings ruling.reason_codes)
      ∷ ("active_blockers", strings ruling.blockers)
      ∷ ("created_at", str (runtime.isoformat at))
      ∷ ("executable", bool false)
      ∷ []

  -- the artifact of a decision that is not READY
  unfoldable pub escalate :
      Task → Decision → Ruling → Datetime → Dict (Dict Value) → Result (Dict (Dict Value))
  escalate task d ruling at artifacts = do
    artifact_id ← digest "escalation-artifact" (strings (task.task_id ∷ d.decision_id ∷ []))
    ok (put artifact_id (escalation artifact_id task d ruling at) artifacts)

  unfoldable pub expiry_of : Workspace → String → Datetime → Bool → Result Datetime
  expiry_of w id at true = ready_expiry w id at (add_seconds at 600)
  expiry_of w id at false = ok (add_seconds at 600)

  -- the decision record, with its root
  unfoldable pub draft_decision :
      {M : Type 0}
      → Service M
      → Fresh
      → Workspace
      → Task
      → Actor
      → Command
      → ℕ
      → Ruling
      → Result Decision
  draft_decision service fresh w task actor cmd revision ruling = do
    fingerprint ←
        digest "action" (plain (("tenant_id", str actor.tenant_id) ∷ intent_fields task.intent))
    basis ← task_basis w task.task_id
    expires ← expiry_of w task.task_id fresh.decided_at (is_ready ruling.verdict)
    let d : Decision = record {
      decision_id = new_id fresh "decision";
      task_id = task.task_id;
      verdict = ruling.verdict;
      reason_codes = ruling.reason_codes;
      causal_refs = sorted_set ruling.causal;
      active_blockers = ruling.blockers;
      action_fingerprint = fingerprint;
      basis_hash = basis;
      memory_revision = revision;
      session_id = cmd.session_id;
      runtime_id = service.runtime_id;
      process_id = service.process_id;
      build_commit = service.build_commit;
      created_at = fresh.decided_at;
      expires_at = expires;
      tool =
          if is_ready ruling.verdict then "human_review.prepare" else "operator_escalation.create";
      proof_root = "";
      executable = false;
    }
    root ← digest "decision" (decision_body d)
    ok (record d { proof_root = root })

  -- the task under its new decision
  unfoldable pub decided : Task → Decision → Dict String → Bool → Task
  decided task d taints explicit_review = record task {
    taints = if explicit_review && is_ready d.verdict then [] else taints;
    status = status_of d.verdict;
    current_decision_id = some d.decision_id;
  }

  -- `_decision` for the task that stands at `key`
  unfoldable pub decide :
      {M : Type 0}
      → Service M
      → Fresh
      → Workspace
      → String
      → Task
      → Actor
      → Command
      → ℕ
      → Bool
      → Result (Workspace × Task × Decision)
  decide service fresh w key task actor cmd revision explicit_review = do
    ruling ← policy_result w task.task_id fresh.decided_at explicit_review
    d ← draft_decision service fresh w task actor cmd revision ruling
    taints ← taint_open w.cases ruling.blockers task.taints
    artifacts ←
        if is_ready ruling.verdict
        then ok w.artifacts
        else escalate task d ruling fresh.decided_at w.artifacts
    let task' = decided task d taints explicit_review
    ok (
      record w {
        tasks = put key task' w.tasks;
        decisions = put d.decision_id d w.decisions;
        artifacts = artifacts;
      },
      task',
      d,
    )
