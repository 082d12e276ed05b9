-- ===== src/Casework/Values.antt =====
-- `model_dump(mode="json")` of the records of src/proofops_casework/models.py: the fields in the order
-- of their declaration.
use proofops_memoryguard.Base.{ℕ, Option, none, some, List, [], ◌∷◌, ◌++◌, map, Dict}
use proofops_memoryguard.Python.Number.{pos}
use proofops_memoryguard.Python.Value.{
  Value, null, bool, int, str, list, dict, items, fields, strings, optional_str,
}
use proofops_memoryguard.Python.Runtime.{Runtime}
use proofops_memoryguard.Casework.Models.{
  Actor, Scope, Intent, Baseline, RiskCase, Task, Decision, Report, Handoff, Workspace,
  verdict_value, task_status_value, role_value, case_kind_value, case_status_value, planner_value,
}

abbrev pub nat : ℕ → Value
nat n = int (pos n)

abbrev pub optional_nat : Option ℕ → Value
optional_nat none = null
optional_nat (some n) = nat n

-- a dictionary or a list of models
abbrev pub dict_of {ℓ} : {A : Type ℓ} → (A → Value) → Dict A → Value
dict_of f d = dict (fields (map (λ e. (e.0, f e.1)) d))

abbrev pub list_of {ℓ} : {A : Type ℓ} → (A → Value) → List A → Value
list_of f xs = list (items (map f xs))

abbrev pub plain : Dict Value → Value
plain d = dict (fields d)

unfoldable pub actor_value : Actor → Value
actor_value a = plain (
    ("actor_id", str a.actor_id)
    ∷ ("tenant_id", str a.tenant_id)
    ∷ ("role", str (role_value a.role))
    ∷ ("subjects", strings a.subjects)
    ∷ [])

unfoldable pub scope_value : Scope → Value
scope_value s = plain (
    ("subject_id", str s.subject_id)
    ∷ ("chain_id", nat s.chain_id)
    ∷ ("target", str s.target)
    ∷ ("method", str s.method)
    ∷ [])

abbrev pub intent_fields : Intent → Dict Value
intent_fields i =
    ("scope", scope_value i.scope)
    ∷ ("amount_minor", nat i.amount_minor)
    ∷ ("currency", str i.currency)
    ∷ []

unfoldable pub intent_value : Intent → Value
intent_value i = plain (intent_fields i)

unfoldable pub case_value : RiskCase → Value
case_value c = plain (
    ("case_id", str c.case_id)
    ∷ ("scope", scope_value c.scope)
    ∷ ("kind", str (case_kind_value c.kind))
    ∷ ("version", nat c.version)
    ∷ ("status", str (case_status_value c.status))
    ∷ ("opened_by", str c.opened_by)
    ∷ ("opened_seq", nat c.opened_seq)
    ∷ ("evidence_digest", str c.evidence_digest)
    ∷ ("resolution", optional_str c.resolution)
    ∷ ("resolved_by", optional_str c.resolved_by)
    ∷ ("resolved_seq", optional_nat c.resolved_seq)
    ∷ [])

unfoldable pub task_value : Task → Value
task_value t = plain (
    ("task_id", str t.task_id)
    ∷ ("intent", intent_value t.intent)
    ∷ ("depends_on", strings t.depends_on)
    ∷ ("taints", dict_of str t.taints)
    ∷ ("status", str (task_status_value t.status))
    ∷ ("current_decision_id", optional_str t.current_decision_id)
    ∷ [])

-- without the root, and with it
abbrev pub report_body : Report → Dict Value
report_body r =
    ("report_id", str r.report_id)
    ∷ ("case_id", str r.case_id)
    ∷ ("case_version", nat r.case_version)
    ∷ ("investigator_id", str r.investigator_id)
    ∷ ("basis_hash", str r.basis_hash)
    ∷ ("case_refs", strings r.case_refs)
    ∷ ("affected_tasks", strings r.affected_tasks)
    ∷ ("precedent_ids", strings r.precedent_ids)
    ∷ ("trace", list_of plain r.trace)
    ∷ ("model_receipt", elim r.model_receipt [ none ↦ null | some m ↦ plain m ])
    ∷ ("planner_status", str (planner_value r.planner_status))
    ∷ ("raw_text_received_by_model", bool r.raw_text_received_by_model)
    ∷ ("authoritative", bool r.authoritative)
    ∷ []

unfoldable pub report_value : Report → Value
report_value r = plain (report_body r ++ ("report_root", str r.report_root) ∷ [])

unfoldable pub handoff_value : Handoff → Value
handoff_value h = plain (
    ("handoff_id", str h.handoff_id)
    ∷ ("report_id", str h.report_id)
    ∷ ("case_id", str h.case_id)
    ∷ ("case_version", nat h.case_version)
    ∷ ("reviewer_id", str h.reviewer_id)
    ∷ ("investigator_id", str h.investigator_id)
    ∷ ("accepted", bool h.accepted)
    ∷ [])

module _ ⦃runtime : Runtime⦄ where
  open runtime use {json_time}

  unfoldable pub baseline_value : Baseline → Value
  baseline_value b = plain (
      ("scope", scope_value b.scope)
      ∷ ("version", nat b.version)
      ∷ ("limit_minor", nat b.limit_minor)
      ∷ ("expires_at", str (json_time b.expires_at))
      ∷ ("actor_id", str b.actor_id)
      ∷ ("event_seq", nat b.event_seq)
      ∷ [])

  -- the dump of a decision without its proof root, and the whole one
  unfoldable pub decision_body : Decision → Value
  decision_body d = plain (
      ("decision_id", str d.decision_id)
      ∷ ("task_id", str d.task_id)
      ∷ ("verdict", str (verdict_value d.verdict))
      ∷ ("reason_codes", strings d.reason_codes)
      ∷ ("causal_refs", strings d.causal_refs)
      ∷ ("active_blockers", strings d.active_blockers)
      ∷ ("action_fingerprint", str d.action_fingerprint)
      ∷ ("basis_hash", str d.basis_hash)
      ∷ ("memory_revision", nat d.memory_revision)
      ∷ ("session_id", str d.session_id)
      ∷ ("runtime_id", str d.runtime_id)
      ∷ ("process_id", nat d.process_id)
      ∷ ("build_commit", str d.build_commit)
      ∷ ("created_at", str (json_time d.created_at))
      ∷ ("expires_at", str (json_time d.expires_at))
      ∷ ("tool", str d.tool)
      ∷ ("executable", bool d.executable)
      ∷ [])

  unfoldable pub decision_value : Decision → Value
  decision_value d = plain (
      ("decision_id", str d.decision_id)
      ∷ ("task_id", str d.task_id)
      ∷ ("verdict", str (verdict_value d.verdict))
      ∷ ("reason_codes", strings d.reason_codes)
      ∷ ("causal_refs", strings d.causal_refs)
      ∷ ("active_blockers", strings d.active_blockers)
      ∷ ("action_fingerprint", str d.action_fingerprint)
      ∷ ("basis_hash", str d.basis_hash)
      ∷ ("memory_revision", nat d.memory_revision)
      ∷ ("session_id", str d.session_id)
      ∷ ("runtime_id", str d.runtime_id)
      ∷ ("process_id", nat d.process_id)
      ∷ ("build_commit", str d.build_commit)
      ∷ ("created_at", str (json_time d.created_at))
      ∷ ("expires_at", str (json_time d.expires_at))
      ∷ ("tool", str d.tool)
      ∷ ("proof_root", str d.proof_root)
      ∷ ("executable", bool d.executable)
      ∷ [])

  -- `state_payload` of core.py
  unfoldable pub state_payload : Workspace → Value
  state_payload w = plain (
      ("schema_version", str w.schema_version)
      ∷ ("tenant_id", str w.tenant_id)
      ∷ ("revision", nat w.revision)
      ∷ ("baselines", dict_of baseline_value w.baselines)
      ∷ ("cases", dict_of case_value w.cases)
      ∷ ("case_history", dict_of (list_of case_value) w.case_history)
      ∷ ("baseline_history", dict_of (list_of baseline_value) w.baseline_history)
      ∷ ("tasks", dict_of task_value w.tasks)
      ∷ ("decisions", dict_of decision_value w.decisions)
      ∷ ("reports", dict_of report_value w.reports)
      ∷ ("handoffs", dict_of handoff_value w.handoffs)
      ∷ ("lessons", dict_of plain w.lessons)
      ∷ ("artifacts", dict_of plain w.artifacts)
      ∷ ("audit", list_of plain w.audit)
      ∷ ("idempotency", dict_of plain w.idempotency)
      ∷ [])
