-- ===== src/Casework/Ruling.antt =====
-- `policy_result`, `decision_validity`, `ready_expiry` and `recovery_plan` of
-- src/proofops_casework/core.py. A time that the workspace holds is aware, so `<=` compares instants.
pub mod Denied
pub mod Grounded
use proofops_memoryguard.Base.{
  ℕ, String, Bool, true, false, not, ◌&&◌, ◌||◌, Option, none, some, List, [], ◌∷◌, ◌++◌, map, Dict,
  get, keys, contains, filter_by, any_by, is_empty, sort_texts, sort_entries, concat, leb, ltb,
  ◌==◌, if◌then◌else◌,
}
use proofops_memoryguard.Errors.{Result, ok, err, casework, raise_if, ◌>>=◌, ◌>>◌}
use proofops_memoryguard.Python.Number.{Datetime}
use proofops_memoryguard.Python.Value.{Value}
use proofops_memoryguard.Python.Runtime.{Runtime, str_of}
use proofops_memoryguard.Casework.Models.{
  Verdict, ready, deny, needs_human, TaskStatus, suspended, Scope, Intent, Baseline, RiskCase, Task,
  Decision, Workspace, status_of, is_open, is_resolved, is_ready, is_ready_status,
}
use proofops_memoryguard.Casework.Values.{nat}
use proofops_memoryguard.Casework.Digest.{scope_key}
use proofops_memoryguard.Casework.Ancestors.{ancestors}
use proofops_memoryguard.Casework.Basis.{item, closure, scopes_of, in_scopes, task_basis}

-- what `policy_result` returns
pub record Ruling : Type 0 where
  pub verdict : Verdict
  pub reason_codes : List String
  pub causal : List String
  pub blockers : List String

-- a loop that may return before its end
pub data Early (A : Type 0) : Type 0 where
  returned : Ruling → Early A
  going : A → Early A

abbrev pub asks : String → List String → Ruling
asks reason causal = record {
  verdict = needs_human;
  reason_codes = reason ∷ [];
  causal = causal;
  blockers = [];
}

abbrev pub and_going : {A B : Type 0} → Early A → (A → Early B) → Early B
and_going (returned r) next = returned r
and_going (going a) next = next a

-- `t <= at`
abbrev pub is_past : Datetime → Datetime → Bool
is_past t at = leb t.instant at.instant

abbrev pub decision_of : Workspace → Task → Option Decision
decision_of w task = get (elim task.current_decision_id [ none ↦ "" | some id ↦ id ]) w.decisions

abbrev pub passes : Task → Bool → List String → Ruling
passes task explicit_review causal =
    if not (is_empty task.taints) && not explicit_review
    then asks "EXPLICIT_RECONSIDERATION_REQUIRED" causal
    else (record {
      verdict = ready;
      reason_codes = "CURRENT_POLICY_PASSED" ∷ "HUMAN_CONFIRMATION_STILL_REQUIRED" ∷ [];
      causal = causal;
      blockers = [];
    })

abbrev pub is_stale : Datetime → String → Task → Decision → Bool
is_stale at parent_id parent previous =
    not (is_ready_status parent.status)
    || not (is_empty parent.taints)
    || not (is_ready previous.verdict)
    || not (previous.task_id == parent_id)
    || is_past previous.expires_at at

module _ ⦃runtime : Runtime⦄ where
  -- `f"{kind}:{key}:v{version}"`
  abbrev pub versioned : String → String → ℕ → String
  versioned kind key version =
      concat (concat (concat (concat kind ":") key) ":v") (str_of (nat version))

  abbrev pub blocks : List String → String × RiskCase → Bool
  blocks scopes e = is_open e.1 && in_scopes scopes e

  abbrev pub is_settled : List String → String × RiskCase → Bool
  is_settled scopes e = is_resolved e.1 && in_scopes scopes e

  -- the references of the open cases, and of the resolved ones
  unfoldable pub case_refs : Dict RiskCase → List String → List String
  case_refs cases scopes =
      map (λ e. versioned "case" e.0 e.1.version) (sort_entries (filter_by (blocks scopes) cases))
      ++ sort_texts
          (map (λ e. versioned "resolution" e.0 e.1.version) (filter_by (is_settled scopes) cases))

  -- the baseline of one task
  unfoldable pub check_baseline :
      Datetime → Intent → Option Baseline → List String → Early (List String)
  check_baseline at intent none causal = returned (asks "BASELINE_MISSING" causal)
  check_baseline at intent (some b) causal =
      let refs = causal ++ versioned "baseline" (scope_key b.scope) b.version ∷ [] in
      if is_past b.expires_at at
      then returned (asks "BASELINE_EXPIRED" refs)
      else if ltb b.limit_minor intent.amount_minor
      then returned (asks "LIMIT_EXCEEDED" refs)
      else going refs

  -- `for key in closure`
  unfoldable pub check_baselines :
      Workspace → Datetime → Dict Task → List String → Early (List String)
  check_baselines w at [] causal = going causal
  check_baselines w at ((key, task) ∷ tasks) causal =
      and_going
        (check_baseline at task.intent (get (scope_key task.intent.scope) w.baselines) causal)
        (check_baselines w at tasks)

  -- `parent.status != "READY" or ...`; the basis is computed only when all else holds
  unfoldable pub needs_review : Workspace → Datetime → String → Task → Option Decision → Result Bool
  needs_review w at parent_id parent none = ok true
  needs_review w at parent_id parent (some previous) =
      if is_stale at parent_id parent previous
      then ok true
      else task_basis w parent_id >>= (λ basis. ok (not (previous.basis_hash == basis)))

  -- whether some parent asks for a review first
  unfoldable pub any_review : Workspace → Datetime → Dict Task → Result Bool
  any_review w at [] = ok false
  any_review w at ((key, task) ∷ tasks) = do
    first ← needs_review w at key task (decision_of w task)
    if first then ok true else any_review w at tasks

  abbrev pub parents_of : String → Dict Task → Dict Task
  parents_of task_id tasks = filter_by (λ e. not (e.0 == task_id)) tasks

  -- behind the loop over the baselines
  unfoldable pub check_parents :
      Workspace → String → Datetime → Bool → Task → Dict Task → Early (List String) → Result Ruling
  check_parents w task_id at explicit_review task tasks (returned r) = ok r
  check_parents w task_id at explicit_review task tasks (going causal) = do
    review ← any_review w at (parents_of task_id tasks)
    ok (
        if review
        then asks "DEPENDENCY_REVIEW_REQUIRED" causal
        else passes task explicit_review causal)

  unfoldable pub rule :
      Workspace → String → Datetime → Bool → Task → Dict Task → List String → Result Ruling
  rule w task_id at explicit_review task tasks [] =
      check_parents w task_id at explicit_review task tasks
        (check_baselines w at tasks (case_refs w.cases (scopes_of tasks)))
  rule w task_id at explicit_review task tasks (b ∷ blockers) = ok (record {
    verdict = deny;
    reason_codes = "OPEN_RISK_RECALLED" ∷ [];
    causal = case_refs w.cases (scopes_of tasks);
    blockers = b ∷ blockers;
  })

  unfoldable pub policy_result : Workspace → String → Datetime → Bool → Result Ruling
  policy_result w task_id at explicit_review = do
    task ← item task_id w.tasks
    tasks ← closure w task_id
    rule w task_id at explicit_review task tasks
        (sort_texts (keys (filter_by (blocks (scopes_of tasks)) w.cases)))
