-- ===== src/Casework/Service/Cases.antt =====
-- The commands on risk cases and reviews of src/proofops_casework/service.py: `open_case`, `reopen_case`,
-- `quarantine_note` and `prepare_review`.
use proofops_memoryguard.Base.{
  ℕ, ◌+◌, String, Bool, false, not, ◌&&◌, ◌||◌, Option, none, some, [], ◌∷◌, ◌++◌, Dict, get, put,
  length, leb, ◌==◌,
}
use proofops_memoryguard.Errors.{Result, ok, err, casework, raise_if, ◌>>=◌, ◌>>◌}
use proofops_memoryguard.Exec
use proofops_memoryguard.Exec.{Exec, lift}
use proofops_memoryguard.Python.Value.{Value, bool, str, strings}
use proofops_memoryguard.Python.Runtime.{Runtime}
use proofops_memoryguard.Casework.Models.{
  Actor, Command, Scope, RiskCase, CaseKind, open_case, Task, Decision, is_ready, is_ready_status,
  is_resolved, case_kind_value,
}
use proofops_memoryguard.Casework.Values.{plain, scope_value, case_value}
use proofops_memoryguard.Casework.Digest.{digest, authorize}
use proofops_memoryguard.Casework.Affected.{affected_tasks}
use proofops_memoryguard.Casework.Basis.{item, task_basis}
use proofops_memoryguard.Casework.Ruling.{policy_result, is_past, versioned}
use proofops_memoryguard.Casework.Service.{Service, Fresh, Change, mutate, task_of, case_of}
use proofops_memoryguard.Casework.Service.Commands.{operators, operators_and_reviewers}
use proofops_memoryguard.Casework.Decide.{new_id, invalidate}

-- a case as it is opened
abbrev pub fresh_case : String → Actor → Scope → CaseKind → String → ℕ → RiskCase
fresh_case id actor scope kind evidence_digest seq = record {
  case_id = id;
  scope = scope;
  kind = kind;
  version = 1;
  status = open_case;
  opened_by = actor.actor_id;
  opened_seq = seq;
  evidence_digest = evidence_digest;
  resolution = none;
  resolved_by = none;
  resolved_seq = none;
}

abbrev pub reopened : RiskCase → Actor → String → ℕ → RiskCase
reopened c actor evidence_digest seq = record c {
  status = open_case;
  version = c.version + 1;
  opened_by = actor.actor_id;
  opened_seq = seq;
  evidence_digest = evidence_digest;
  resolution = none;
  resolved_by = none;
  resolved_seq = none;
}

-- Nothing of the note is kept but its hash.
unfoldable pub note_change : String → Change
note_change text_hash w seq = ok (
  w,
  ("status", str "QUARANTINED")
      ∷ ("text_hash", str text_hash)
      ∷ ("authority", bool false)
      ∷ ("model_received_raw_text", bool false)
      ∷ [],
)

-- the decision that a review is prepared for
unfoldable pub current_decision : Task → String → String → Option Decision → Result Decision
current_decision task task_id decision_id none = err (casework "DECISION_SUPERSEDED" 409)
current_decision task task_id decision_id (some d) =
    raise_if
      (not (d.task_id == task_id)
        || not (elim task.current_decision_id [ none ↦ false | some id ↦ id == decision_id ]))
      (casework "DECISION_SUPERSEDED" 409)
    >> ok d

abbrev pub is_reviewable : Fresh → Task → Decision → Bool → Bool
is_reviewable fresh task d current =
    is_ready_status task.status
    && is_ready d.verdict
    && current
    && not (is_past d.expires_at fresh.expiry_at)

abbrev pub review_artifact : String → String → Decision → String → Dict Value
review_artifact artifact_id task_id d decision_id =
    ("artifact_id", str artifact_id)
    ∷ ("task_id", str task_id)
    ∷ ("decision_id", str decision_id)
    ∷ ("proof_root", str d.proof_root)
    ∷ ("type", str "NON_EXECUTABLE_HUMAN_REVIEW")
    ∷ ("executable", bool false)
    ∷ []

module _ ⦃runtime : Runtime⦄ where
  unfoldable pub open_change : Fresh → Actor → Scope → CaseKind → String → Change
  open_change fresh actor scope kind evidence_digest w seq = do
    raise_if (leb 500 (length w.cases)) (casework "CASE_CAPACITY_REACHED" 413)
    let id = new_id fresh "case"
    let c = fresh_case id actor scope kind evidence_digest seq
    ok (
      invalidate scope (versioned "case" id 1) "NEW_RISK"
          (record w { cases = put id c w.cases; case_history = put id (c ∷ []) w.case_history }),
      ("case", case_value c)
          ∷ ("affected_tasks", strings (affected_tasks w.tasks scope))
          ∷ ("authority", str "configured_operator_attestation")
          ∷ [],
    )

  unfoldable pub reopen_change : Actor → String → String → Change
  reopen_change actor case_id evidence_digest w seq = do
    old ← case_of w actor case_id
    raise_if (not (is_resolved old)) (casework "CASE_ALREADY_OPEN" 409)
    let c = reopened old actor evidence_digest seq
    history ← item case_id w.case_history
    ok (
      invalidate c.scope (versioned "case" case_id c.version) "RISK_REOPENED" (record w {
        cases = put case_id c w.cases;
        case_history = put case_id (history ++ c ∷ []) w.case_history;
      }),
      ("case", case_value c) ∷ ("affected_tasks", strings (affected_tasks w.tasks c.scope)) ∷ [],
    )

  unfoldable pub review_change : Fresh → Actor → String → String → Change
  review_change fresh actor task_id decision_id w seq = do
    task ← task_of w actor task_id
    d ← current_decision task task_id decision_id (get decision_id w.decisions)
    ruling ← policy_result w task_id fresh.policy_at false
    raise_if (not (is_reviewable fresh task d (is_ready ruling.verdict)))
        (casework "STALE_OR_BLOCKED_REVIEW" 409)
    basis ← task_basis w task_id
    raise_if (not (d.basis_hash == basis)) (casework "STALE_OR_BLOCKED_REVIEW" 409)
    artifact_id ← digest "review-artifact" (strings (task_id ∷ decision_id ∷ []))
    let artifact = review_artifact artifact_id task_id d decision_id
    ok (
      record w { artifacts = put artifact_id artifact w.artifacts },
      ("artifact", plain artifact) ∷ [],
    )

module _ ⦃runtime : Runtime⦄ {M : Type 0} (service : Service M) (fresh : Fresh) (actor : Actor)
    (cmd : Command) where
  unfoldable pub open_risk : Scope → CaseKind → String → Exec M (Dict Value)
  open_risk scope kind evidence_digest =
      Exec.◌>>◌ (lift (authorize actor operators (some scope.subject_id))) (
        mutate service fresh actor cmd "case.open"
          (("scope", scope_value scope)
            ∷ ("kind", str (case_kind_value kind))
            ∷ ("evidence_digest", str evidence_digest)
            ∷ [])
          (open_change fresh actor scope kind evidence_digest) false none)

  unfoldable pub reopen_case : String → String → Exec M (Dict Value)
  reopen_case case_id evidence_digest = Exec.◌>>◌ (lift (authorize actor operators none)) (
      mutate service fresh actor cmd "case.reopen"
        (("case_id", str case_id) ∷ ("evidence_digest", str evidence_digest) ∷ [])
        (reopen_change actor case_id evidence_digest) false none)

  unfoldable pub quarantine_note : Scope → String → Exec M (Dict Value)
  quarantine_note scope text =
      Exec.◌>>=◌
        (lift
          (authorize actor operators (some scope.subject_id) >> digest "untrusted-text" (str text)))
        (λ text_hash.
          mutate service fresh actor cmd "note.quarantine"
            (("scope", scope_value scope) ∷ ("text_hash", str text_hash) ∷ [])
            (note_change text_hash) false none)

  unfoldable pub prepare_review : String → String → Exec M (Dict Value)
  prepare_review task_id decision_id =
      Exec.◌>>◌ (lift (authorize actor operators_and_reviewers none)) (
        mutate service fresh actor cmd "review.prepare"
          (("task_id", str task_id) ∷ ("decision_id", str decision_id) ∷ [])
          (review_change fresh actor task_id decision_id) false none)
