-- ===== src/Agent/Run.antt =====
-- `MemoryGuardAgent.run` and `inspect` of agent.py: one run around one decision of the guard.
use proofops_memoryguard.Base.{
  ℕ, ◌+◌, String, Bool, true, false, Option, none, some, List, [], ◌∷◌, ◌++◌, ◌==◌, not, concat,
  if◌then◌else◌, contains, filter_by, Dict, length, sorted_set,
}
use proofops_memoryguard.Errors
use proofops_memoryguard.Errors.{
  Error, Result, ok, err, memory_conflict, decision_not_found, value_error, raise_if, error_name,
}
use proofops_memoryguard.Exec.{Exec, raise}
use proofops_memoryguard.Python.Number.{pos, Datetime}
use proofops_memoryguard.Python.Value.{Value, str, dict, fields, strings}
use proofops_memoryguard.Python.Runtime.{Runtime, str_of}
use proofops_memoryguard.Base.{get}
use proofops_memoryguard.Canonical.{domain_hash}
use proofops_memoryguard.Models.{DecisionDraft}
use proofops_memoryguard.Guard.Decide as Deciding
use proofops_memoryguard.Agent.Models.{ToolPhase, ToolEvent, AgentRun, ModelPlan}
use proofops_memoryguard.Agent.Authority.{
  review_tool, escalation_tool, brief_tool, registered_tools, fallback_plan,
}

-- src/proofops_memoryguard/ports.py: the model, the ledger of runs and the safety actions
pub record ModelPort (M : Type 0) : Type 0 where
  pub production_kind : String
  pub plan : Value → List String → Exec M ModelPlan

pub record RunLedger (M : Type 0) : Type 0 where
  pub save : AgentRun → Exec M (Unit {0})
  pub load : String → Exec M (Option AgentRun)

pub record SafetyActions (M : Type 0) : Type 0 where
  pub prepare_review : DecisionDraft → Exec M Value
  pub create_escalation : DecisionDraft → Exec M Value
  pub prepare_evidence_brief : DecisionDraft → Exec M Value

-- What a call reads from the clock: one reading for each event, in order, and one for the run.
pub record Fresh : Type 0 where
  pub deciding : Deciding.Fresh
  pub clock : ℕ → Datetime
  pub now : Datetime

abbrev pub Trace : Type 0
Trace = List ToolEvent

module _ ⦃runtime : Runtime⦄ where
  unfoldable pub hash_output : String → Option Value → Result (Option String)
  hash_output tool none = ok none
  hash_output tool (some v) =
      Errors.◌>>=◌ (domain_hash (concat "agent-tool-output:" tool) v) λ h. ok (some h)

  -- `trace.add`
  unfoldable pub add_event :
      (ℕ → Datetime) → Trace → String → ToolPhase → String → Value → Option Value → Result Trace
  add_event clock trace tool phase reason input_value output_value =
      Errors.◌>>=◌ (domain_hash (concat "agent-tool-input:" tool) input_value) λ input_hash.
        Errors.◌>>=◌ (hash_output tool output_value) λ output_hash. ok (
          trace
          ++ record {
            sequence = pos (length trace + 1);
            tool = tool;
            phase = phase;
            reason_code = reason;
            input_hash = input_hash;
            output_hash = output_hash;
            occurred_at = clock (length trace);
          }
            ∷ [])

  -- The plan that the run goes on with, whether it is the fallback, and the trace.
  pub record Planned : Type 0 where
    pub plan : ModelPlan
    pub degraded : Bool
    pub trace : Trace

  -- the `except` clause around the planning
  unfoldable pub degrade : (ℕ → Datetime) → Value → Trace → Error → Result Planned
  degrade clock context trace e =
      Errors.◌>>=◌
        (add_event clock trace "model.plan" ToolPhase.failed
          (concat "planning_failed_" (error_name e)) context none)
        λ t. ok (record { plan = fallback_plan; degraded = true; trace = t })

  unfoldable pub add_receipt : (ℕ → Datetime) → String → Trace → Option (Dict Value) → Result Trace
  add_receipt clock id trace none = ok trace
  add_receipt clock id trace (some receipt) =
      add_event clock trace "model.receipt" ToolPhase.succeeded "non_secret_provider_receipt"
        (dict (
          fields (
            ("run_id", str id)
            ∷ (
              "model_context_hash",
              str (elim (get "model_context_hash" receipt) [ none ↦ "" | some v ↦ str_of v ]),
            )
            ∷ [])))
        (some (dict (fields receipt)))

  unfoldable pub add_plan : (ℕ → Datetime) → Value → Trace → ModelPlan → Result Trace
  add_plan clock context trace plan =
      Errors.◌>>=◌ (domain_hash "model-explanation" (str plan.explanation)) λ h.
        add_event clock trace "model.plan" ToolPhase.succeeded "structured_plan_received" context (
          some (
            dict (
              fields (
                ("requested_tools", strings plan.requested_tools)
                ∷ ("explanation_hash", str h)
                ∷ []))))

  -- the `try` block after the model answered: what was traced before an exception stays traced
  unfoldable pub planned :
      (ℕ → Datetime) → String → Value → Trace → Result ModelPlan → Result Planned
  planned clock id context trace (err e) = degrade clock context trace e
  planned clock id context trace (ok plan) = traced (add_plan clock context trace plan)
    where
      with_receipt : Trace → Result Trace → Result Planned
      with_receipt before (err e) = degrade clock context before e
      with_receipt before (ok t) = ok (record { plan = plan; degraded = false; trace = t })

      traced : Result Trace → Result Planned
      traced (err e) = degrade clock context trace e
      traced (ok t) = with_receipt t (add_receipt clock id t plan.model_receipt)

  -- `for unknown in sorted(requested.difference(_REGISTERED_TOOLS))`
  unfoldable pub suppress_all : (ℕ → Datetime) → String → List String → Trace → Result Trace
  suppress_all clock decision_id [] trace = ok trace
  suppress_all clock decision_id (tool ∷ rest) trace =
      Errors.◌>>=◌
        (add_event clock trace tool ToolPhase.suppressed "tool_not_registered"
          (dict (fields (("decision_id", str decision_id) ∷ []))) none)
        (suppress_all clock decision_id rest)

  abbrev pub unknown_tools : List String → List String
  unknown_tools requested =
      sorted_set (filter_by (λ tool. not (contains tool registered_tools)) requested)

-- What the loop over the registered tools builds up.
pub record Progress : Type 0 where
  pub artifacts : Dict Value
  pub failed : Bool
  pub trace : Trace

-- `_call_action`
unfoldable pub call_action : {M : Type 0} → SafetyActions M → String → DecisionDraft → Exec M Value
call_action actions tool d =
    if tool == review_tool
    then actions.prepare_review d
    else if tool == escalation_tool
    then actions.create_escalation d
    else if tool == brief_tool
    then actions.prepare_evidence_brief d
    else raise (value_error "tool is not registered")
