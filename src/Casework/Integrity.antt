-- ===== src/Casework/Integrity.antt =====
-- `validate_workspace` of src/proofops_casework/core.py: the root over the whole workspace, the chain of
-- audit events, the histories of cases and baselines, and the roots of decisions and reports.
use proofops_memoryguard.Base.{
  ℕ, zero, suc, Bool, false, not, ◌&&◌, ◌||◌, Option, none, some, List, [], ◌∷◌, map, Dict, get,
  remove, is_empty, last_one, length, eqb, ◌==◌,
}
use proofops_memoryguard.Errors.{Result, ok, casework, raise_if, ◌>>=◌, ◌>>◌}
use proofops_memoryguard.Canonical.{zero_hash}
use proofops_memoryguard.Python.Value.{Value, str, value_eq}
use proofops_memoryguard.Python.Runtime.{Runtime}
use proofops_memoryguard.Casework.Models.{Baseline, RiskCase, Decision, Report, Workspace}
use proofops_memoryguard.Casework.Values.{
  nat, plain, scope_value, case_value, decision_body, report_body, state_payload,
}
use proofops_memoryguard.Casework.Digest.{digest}
use proofops_memoryguard.Casework.Basis.{reads, item}

-- `==` of two records, field by field
abbrev case_eq : RiskCase → RiskCase → Bool
case_eq a b = value_eq (case_value a) (case_value b)

abbrev baseline_eq : Baseline → Baseline → Bool
baseline_eq a b =
    value_eq (scope_value a.scope) (scope_value b.scope)
    && eqb a.version b.version
    && eqb a.limit_minor b.limit_minor
    && eqb a.expires_at.instant b.expires_at.instant
    && a.actor_id == b.actor_id
    && eqb a.event_seq b.event_seq

-- `xs == list(range(first, first + count))`
unfoldable pub is_range : ℕ → ℕ → List ℕ → Bool
is_range first zero xs = is_empty xs
is_range first (suc count) [] = false
is_range first (suc count) (x ∷ xs) = eqb x first && is_range (suc first) count xs

-- the history of a record: it ends in the record, and its versions count from 1
unfoldable pub is_history : {A : Type 0} → (A → A → Bool) → (A → ℕ) → A → Option (List A) → Bool
is_history same version current none = false
is_history same version current (some history) = elim (last_one history) [
  | [] ↦ false
  | last ∷ rest ↦ same last current && is_range 1 (version current) (map version history)
]

module _ ⦃runtime : Runtime⦄ where
  -- one event of the audit log
  unfoldable pub check_event : ℕ → Value → Dict Value → Result Value
  check_event sequence previous event = do
    raise_if (not (reads "seq" (nat sequence) event) || not (reads "previous_hash" previous event))
        (casework "AUDIT_INTEGRITY_FAILED" 503)
    made ← digest "event" (plain (remove "event_hash" event))
    raise_if (not (reads "event_hash" (str made) event)) (casework "AUDIT_INTEGRITY_FAILED" 503)
    item "event_hash" event

  unfoldable pub check_audit : ℕ → Value → List (Dict Value) → Result (Unit {0})
  check_audit sequence previous [] = ok tt
  check_audit sequence previous (event ∷ events) = do
    next ← check_event sequence previous event
    check_audit (suc sequence) next events

  unfoldable pub check_cases : Dict (List RiskCase) → Dict RiskCase → Result (Unit {0})
  check_cases histories [] = ok tt
  check_cases histories ((key, c) ∷ cases) = do
    raise_if (not (is_history case_eq (λ (x : RiskCase). x.version) c (get key histories)))
        (casework "CASE_HISTORY_INTEGRITY_FAILED" 503)
    check_cases histories cases

  unfoldable pub check_baselines_kept : Dict (List Baseline) → Dict Baseline → Result (Unit {0})
  check_baselines_kept histories [] = ok tt
  check_baselines_kept histories ((key, b) ∷ baselines) = do
    raise_if (not (is_history baseline_eq (λ (x : Baseline). x.version) b (get key histories)))
        (casework "BASELINE_HISTORY_INTEGRITY_FAILED" 503)
    check_baselines_kept histories baselines

  unfoldable pub check_decisions : Dict Decision → Result (Unit {0})
  check_decisions [] = ok tt
  check_decisions ((key, d) ∷ decisions) = do
    raise_if (not (key == d.decision_id)) (casework "DECISION_INTEGRITY_FAILED" 503)
    root ← digest "decision" (decision_body d)
    raise_if (not (d.proof_root == root)) (casework "DECISION_INTEGRITY_FAILED" 503)
    check_decisions decisions

  unfoldable pub check_reports : Dict Report → Result (Unit {0})
  check_reports [] = ok tt
  check_reports ((key, r) ∷ reports) = do
    raise_if (not (key == r.report_id)) (casework "REPORT_INTEGRITY_FAILED" 503)
    root ← digest "investigation" (plain (report_body r))
    raise_if (not (r.report_root == root)) (casework "REPORT_INTEGRITY_FAILED" 503)
    check_reports reports

  unfoldable pub validate_workspace : Workspace → Result (Unit {0})
  validate_workspace w = do
    root ← digest "workspace" (state_payload w)
    raise_if (not (w.state_root == root)) (casework "MEMORY_INTEGRITY_FAILED" 503)
    check_audit 1 (str zero_hash) w.audit
    raise_if (not (eqb (length w.audit) w.revision)) (casework "MEMORY_REVISION_INVALID" 503)
    check_cases w.case_history w.cases
    check_baselines_kept w.baseline_history w.baselines
    check_decisions w.decisions
    check_reports w.reports
