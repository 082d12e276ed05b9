-- ===== src/Casework/Validity.antt =====
-- `decision_validity`, `ready_expiry` and `recovery_plan` of src/proofops_casework/core.py: whether a
-- decision still holds, how long a new one may, and what to review next.
pub mod Expiry
pub mod Preparable
use proofops_memoryguard.Base.{
  ℕ, String, Bool, true, false, not, ◌&&◌, ◌||◌, Option, none, some, List, [], ◌∷◌, ◌++◌, map, Dict,
  get, contains, any_by, is_empty, sort_texts, leb, ltb, ◌==◌, if◌then◌else◌,
}
use proofops_memoryguard.Errors.{Result, ok, err, casework, raise_if, ◌>>=◌, ◌>>◌}
use proofops_memoryguard.Python.Number.{Datetime}
use proofops_memoryguard.Python.Value.{Value, bool, str, list, dict, strings, items}
use proofops_memoryguard.Python.Runtime.{Runtime}
use proofops_memoryguard.Casework.Models.{
  Verdict, TaskStatus, Task, Baseline, Decision, Workspace, verdict_value, task_status_value,
  is_ready,
}
use proofops_memoryguard.Casework.Values.{nat, plain}
use proofops_memoryguard.Casework.Digest.{scope_key}
use proofops_memoryguard.Casework.Basis.{item, closure, task_basis}
use proofops_memoryguard.Casework.Ruling.{Ruling, policy_result, is_past, decision_of}

-- the dictionary that `decision_validity` returns, under its keys
pub record Validity : Type 0 where
  pub current_proof_valid : Bool
  pub review_preparable : Bool
  pub effective_verdict : Verdict
  pub effective_reason_codes : List String
  pub active_blockers : List String
  pub proof_invalid_reasons : List String

abbrev pub reason_if : Bool → String → List String
reason_if test reason = if test then reason ∷ [] else []

abbrev pub texts_eq : List String → List String → Bool
texts_eq [] [] = true
texts_eq (x ∷ xs) (y ∷ ys) = x == y && texts_eq xs ys
texts_eq _ _ = false

abbrev verdict_eq : Verdict → Verdict → Bool
verdict_eq v u = verdict_value v == verdict_value u

-- what is wrong with a decision, given the basis of its task now
abbrev pub invalid_reasons : Datetime → Task → Ruling → Decision → String → List String
invalid_reasons at task ruling d basis =
    reason_if (is_past d.expires_at at) "DECISION_EXPIRED"
    ++ reason_if (not (d.basis_hash == basis)) "MEMORY_BASIS_CHANGED"
    ++ reason_if (not (task_status_value task.status == verdict_value d.verdict))
        "TASK_STATUS_CHANGED"
    ++ reason_if
        (not (verdict_eq d.verdict ruling.verdict)
          || not (texts_eq (sort_texts d.reason_codes) (sort_texts ruling.reason_codes)))
        "CURRENT_POLICY_CHANGED"

abbrev pub validity_of : Ruling → List String → Validity
validity_of ruling invalid = record {
  current_proof_valid = is_empty invalid;
  review_preparable = is_empty invalid && is_ready ruling.verdict;
  effective_verdict = ruling.verdict;
  effective_reason_codes = ruling.reason_codes;
  active_blockers = ruling.blockers;
  proof_invalid_reasons = invalid;
}

abbrev pub sooner : Datetime → Datetime → Datetime
sooner u t = if ltb u.instant t.instant then u else t

-- `min` of a time and the further ones
unfoldable pub earliest : Datetime → List Datetime → Datetime
earliest t [] = t
earliest t (u ∷ us) = earliest (sooner u t) us

-- `if x is not None: limits.append(x.expires_at)`
abbrev pub listed : {V : Type 0} → (V → Datetime) → Option V → List Datetime
listed expiry none = []
listed expiry (some v) = expiry v ∷ []

module _ ⦃runtime : Runtime⦄ where
  unfoldable pub judge :
      Workspace → String → Datetime → Task → Ruling → Option Decision → Result Validity
  judge w task_id at task ruling none = ok (validity_of ruling ("DECISION_MISSING" ∷ []))
  judge w task_id at task ruling (some d) = do
    basis ← task_basis w task_id
    ok (validity_of ruling (invalid_reasons at task ruling d basis))

  unfoldable pub decision_validity : Workspace → String → Datetime → Result Validity
  decision_validity w task_id at = do
    task ← item task_id w.tasks
    ruling ← policy_result w task_id at false
    judge w task_id at task ruling (decision_of w task)

  -- what limits a decision of the task: the baselines of the closure, and the decisions of the parents
  -- the baseline of a task
  abbrev pub baseline_limits : Workspace → Task → List Datetime
  baseline_limits w task =
      listed (λ (b : Baseline). b.expires_at) (get (scope_key task.intent.scope) w.baselines)

  -- the decision of a task that is a parent
  abbrev pub decision_limits : Workspace → Bool → Task → List Datetime
  decision_limits w is_self task =
      if is_self then [] else listed (λ (d : Decision). d.expires_at) (decision_of w task)

  unfoldable pub limits : Workspace → String → Dict Task → List Datetime
  limits w task_id [] = []
  limits w task_id ((key, task) ∷ tasks) =
      baseline_limits w task ++ (decision_limits w (key == task_id) task ++ limits w task_id tasks)

  unfoldable pub ready_expiry : Workspace → String → Datetime → Datetime → Result Datetime
  ready_expiry w task_id at default_expiry = do
    tasks ← closure w task_id
    let result = earliest default_expiry (limits w task_id tasks)
    raise_if (is_past result at) (casework "READY_BASIS_EXPIRED" 409)
    ok result

  abbrev names_any : List String → List String → Bool
  names_any wanted reasons = any_by (λ x. contains x reasons) wanted

  -- the next step for one task
  unfoldable pub next_step : Validity → String
  next_step v =
      if v.review_preparable
      then "NO_REVIEW_NEEDED"
      else if not (is_empty v.active_blockers)
      then "INVESTIGATE_AND_RESOLVE_EACH_CASE"
      else if names_any ("BASELINE_MISSING" ∷ "BASELINE_EXPIRED" ∷ "LIMIT_EXCEEDED" ∷ [])
          v.effective_reason_codes
      then "OWNER_REVIEW_BASELINE_OR_REQUEST"
      else if contains "DEPENDENCY_REVIEW_REQUIRED" v.effective_reason_codes
      then "REVIEW_ANCESTORS_FIRST"
      else "EXPLICIT_RECONSIDERATION"

  abbrev pub validity_fields : Validity → Dict Value
  validity_fields v =
      ("current_proof_valid", bool v.current_proof_valid)
      ∷ ("review_preparable", bool v.review_preparable)
      ∷ ("effective_verdict", str (verdict_value v.effective_verdict))
      ∷ ("effective_reason_codes", strings v.effective_reason_codes)
      ∷ ("active_blockers", strings v.active_blockers)
      ∷ ("proof_invalid_reasons", strings v.proof_invalid_reasons)
      ∷ []

  abbrev row : String → Task → Validity → Value
  row key task v = plain (
      ("task_id", str key)
      ∷ ("required_predecessors", strings task.depends_on)
      ∷ ("next_step", str (next_step v))
      ∷ validity_fields v)

  unfoldable pub rows_of : Workspace → Datetime → Dict Task → Result (List Value)
  unfolding next_step
  rows_of w at [] = ok []
  rows_of w at ((key, task) ∷ tasks) = do
    v ← decision_validity w key at
    rest ← rows_of w at tasks
    ok (row key task v ∷ rest)

  unfoldable pub recovery_plan : Workspace → String → Datetime → Result (Dict Value)
  recovery_plan w task_id at = do
    tasks ← closure w task_id
    rows ← rows_of w at tasks
    basis ← task_basis w task_id
    ok (
        ("task_id", str task_id)
        ∷ ("memory_revision", nat w.revision)
        ∷ ("basis_hash", str basis)
        ∷ ("as_of", str (runtime.isoformat at))
        ∷ ("ordered_steps", list (items rows))
        ∷ ("read_only", bool true)
        ∷ ("executable", bool false)
        ∷ (
          "note",
          str
              "Refresh after each command. This checklist never resolves risks or grants authority.",
        )
        ∷ [])
