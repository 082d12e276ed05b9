-- ===== src/Agent/Claimed.antt =====
-- `_run_claimed`, `run` and `inspect` of agent.py. The claim of a run is a lock: runs of one
-- identifier follow each other.
use proofops_memoryguard.Base.{
  ℕ, String, Bool, true, false, Option, none, some, List, [], ◌∷◌, ◌==◌, not, concat, if◌then◌else◌,
  contains, filter_by, put, Dict,
}
use proofops_memoryguard.Errors
use proofops_memoryguard.Errors.{
  Error, Result, ok, err, memory_conflict, decision_not_found, raise_if, error_name,
}
use proofops_memoryguard.Exec.{Exec, pure, lift, attempt, ◌>>=◌, ◌>>◌}
use proofops_memoryguard.Python.Number.{Datetime}
use proofops_memoryguard.Python.Value.{Value, str, dict, fields}
use proofops_memoryguard.Python.Runtime.{Runtime}
use proofops_memoryguard.Models.{DecisionDraft, not_configured, verdict_value}
use proofops_memoryguard.Ports.{MemoryPort}
use proofops_memoryguard.Guard.{Guard}
use proofops_memoryguard.Guard.Finalize.{require}
use proofops_memoryguard.Guard.Decide as Deciding
use proofops_memoryguard.Agent.Models.{
  halt_action_unavailable, degraded_safe_only, ToolPhase, AgentRun, GuardedPaymentGoal,
}
use proofops_memoryguard.Agent.Authority.{
  registered_tools, Authorization, authorization, operator_copy, goal_fingerprint, run_id,
  request_hash, model_context,
}
use proofops_memoryguard.Agent.Validate.{validate_run}
use proofops_memoryguard.Agent.Run.{
  ModelPort, RunLedger, SafetyActions, Fresh, Trace, add_event, Planned, planned, suppress_all,
  unknown_tools, Progress, call_action,
}

-- What the loop does with a tool.
pub data Choice : Type 0 where
  forbidden : Choice
  unrequested : Choice
  calls : String → Choice

unfoldable pub choice : Authorization → List String → String → Choice
choice auth requested tool =
    if not (contains tool auth.allowed)
    then forbidden
    else if tool == auth.mandatory
    then calls "mandatory_safety_action"
    else if contains tool requested
    then calls "requested_by_model_and_authorized"
    else unrequested

-- The parts that an agent is built from.
pub record Agent (M : Type 0) : Type 0 where
  pub memory : MemoryPort M
  pub guard : Guard
  pub model : ModelPort M
  pub ledger : RunLedger M
  pub actions : SafetyActions M
  pub runtime_instance_id : String
  pub production : Bool

module _ ⦃runtime : Runtime⦄ where
  abbrev pub tool_input : DecisionDraft → Value
  tool_input d = dict (
      fields (("decision_id", str d.decision_id) ∷ ("verdict", str (verdict_value d.verdict)) ∷ []))

  -- the `except` clause around a call
  unfoldable pub action_failed :
      (ℕ → Datetime) → DecisionDraft → String → Dict Value → Trace → Error → Result Progress
  action_failed clock d tool artifacts trace e =
      Errors.◌>>=◌
        (add_event clock trace tool ToolPhase.failed (concat "safe_action_failed_" (error_name e))
          (tool_input d) none)
        λ t. ok (record { artifacts = artifacts; failed = true; trace = t })

  -- what follows a call: the artifact is kept before its event is traced
  unfoldable pub receive :
      (ℕ → Datetime) → DecisionDraft → String → Progress → Trace → Result Value → Result Progress
  receive clock d tool p trace (err e) = action_failed clock d tool p.artifacts trace e
  receive clock d tool p trace (ok artifact) = traced (
      add_event clock trace tool ToolPhase.succeeded "persisted_by_safe_action_adapter"
        (tool_input d) (some artifact))
    where
      traced : Result Trace → Result Progress
      traced (err e) = action_failed clock d tool (put tool artifact p.artifacts) trace e
      traced (ok t) =
          ok (record { artifacts = put tool artifact p.artifacts; failed = p.failed; trace = t })

  abbrev suppress :
      (ℕ → Datetime) → DecisionDraft → String → String → Progress → Trace → Result Progress
  suppress clock d tool reason p trace =
      Errors.◌>>=◌ (add_event clock trace tool ToolPhase.suppressed reason (tool_input d) none)
        λ t. ok (record p { trace = t })

  unfoldable pub carry_out :
      {M : Type 0}
      → SafetyActions M
      → (ℕ → Datetime)
      → DecisionDraft
      → String
      → Progress
      → Trace
      → Choice
      → Exec M Progress
  carry_out actions clock d tool p trace forbidden =
      lift (suppress clock d tool (concat "verdict_" (verdict_value d.verdict)) p trace)
  carry_out actions clock d tool p trace unrequested =
      lift (suppress clock d tool "not_requested_by_model" p trace)
  carry_out actions clock d tool p trace (calls reason) = do
    t ← lift (add_event clock trace tool ToolPhase.called reason (tool_input d) none)
    answer ← attempt (call_action actions tool d)
    lift (receive clock d tool p t answer)

  -- the loop `for tool in _REGISTERED_TOOLS`
  unfoldable pub run_tools :
      {M : Type 0}
      → SafetyActions M
      → (ℕ → Datetime)
      → DecisionDraft
      → Authorization
      → List String
      → List String
      → Progress
      → Exec M Progress
  run_tools actions clock d auth requested [] p = pure p
  run_tools actions clock d auth requested (tool ∷ rest) p = do
    t ← lift (
        add_event clock p.trace tool ToolPhase.considered "closed_tool_registry" (tool_input d)
          none)
    p' ← carry_out actions clock d tool p t (choice auth requested tool)
    run_tools actions clock d auth requested rest p'

  module _ {M : Type 0} (agent : Agent M) where
    -- the run at the end of the loop
    unfoldable pub built_run :
        Fresh
        → String
        → String
        → String
        → DecisionDraft
        → Authorization
        → Planned
        → Progress
        → AgentRun
    built_run fresh id request fingerprint d auth plan p =
        let copy =
          operator_copy (if p.failed then halt_action_unavailable else auth.state) plan.degraded in
        record {
          run_id = id;
          request_hash = request;
          runtime_instance_id = agent.runtime_instance_id;
          state =
              if p.failed
              then halt_action_unavailable
              else if plan.degraded
              then degraded_safe_only
              else auth.state;
          decision = d;
          action_fingerprint = fingerprint;
          explanation = copy.0;
          operator_steps = copy.1;
          planning_degraded = plan.degraded;
          model_kind = agent.model.production_kind;
          model_receipt = plan.plan.model_receipt;
          model_requested_safe_tools =
              filter_by (λ tool. contains tool auth.allowed) plan.plan.requested_tools;
          tool_trace = p.trace;
          artifacts = p.artifacts;
          anchor_state = not_configured;
          executable = false;
          created_at = fresh.now;
          updated_at = fresh.now;
          schema_version = "1.1";
        }

    -- `self._validate_run(run); self._ledger.save(run); return run`
    unfoldable pub keep_run : AgentRun → Exec M AgentRun
    keep_run run = do lift (validate_run agent.production run); agent.ledger.save run; pure run

    -- from the decision on
    unfoldable pub act_on :
        Fresh → String → String → String → DecisionDraft → Trace → Exec M AgentRun
    act_on fresh id request fingerprint d trace = do
      let auth = authorization d.verdict
      context ← lift (model_context d auth.state)
      t1 ← lift (
          add_event fresh.clock trace "model.plan" ToolPhase.considered "bounded_planning" context
            none)
      t2 ←
          lift
            (add_event fresh.clock t1 "model.plan" ToolPhase.called "bounded_planning" context none)
      answer ← attempt (agent.model.plan context auth.allowed)
      plan ← lift (planned fresh.clock id context t2 answer)
      let requested = plan.plan.requested_tools
      t3 ← lift (suppress_all fresh.clock d.decision_id (unknown_tools requested) plan.trace)
      p ←
          run_tools agent.actions fresh.clock d auth requested registered_tools
            (record { artifacts = []; failed = false; trace = t3 })
      keep_run (built_run fresh id request fingerprint d auth plan p)

    unfoldable pub run_new : Fresh → String → String → GuardedPaymentGoal → Exec M AgentRun
    run_new fresh id request goal = do
      fingerprint ← lift (goal_fingerprint goal)
      let payload = dict (fields (("action_fingerprint", str fingerprint) ∷ []))
      t1 ← lift (
          add_event fresh.clock [] "memoryguard.decide" ToolPhase.considered "mandatory_authority"
            payload none)
      t2 ← lift (
          add_event fresh.clock t1 "memoryguard.decide" ToolPhase.called "mandatory_authority"
            payload none)
      d ← Deciding.decide agent.memory agent.guard goal.intent fresh.deciding
      t3 ← lift (
          add_event fresh.clock t2 "memoryguard.decide" ToolPhase.succeeded
            (concat "verdict_" (verdict_value d.verdict)) payload
            (some (
              dict (
                fields
                  (("decision_id", str d.decision_id) ∷ ("proof_root", str d.proof_root) ∷ [])))))
      act_on fresh id request fingerprint d t3

    -- the block `if existing is not None`, and the rest
    unfoldable pub reuse_run :
        Fresh → String → String → GuardedPaymentGoal → Option AgentRun → Exec M AgentRun
    reuse_run fresh id request goal none = run_new fresh id request goal
    reuse_run fresh id request goal (some existing) = do
      lift (validate_run agent.production existing)
      lift (
          raise_if (not (existing.request_hash == request))
            (memory_conflict "Agent idempotency key was reused for a different request"))
      pure existing

    -- `_run_claimed`
    unfoldable pub run_claimed : Fresh → String → String → GuardedPaymentGoal → Exec M AgentRun
    run_claimed fresh id request goal = do
      existing ← agent.ledger.load id
      reuse_run fresh id request goal existing

    unfoldable pub run : Fresh → GuardedPaymentGoal → Exec M AgentRun
    run fresh goal = do
      request ← lift (request_hash goal)
      id ← lift (run_id goal)
      run_claimed fresh id request goal

    unfoldable pub inspect : String → Exec M AgentRun
    inspect id = do
      stored ← agent.ledger.load id
      r ← require stored (decision_not_found "Agent run was not found")
      lift (validate_run agent.production r)
      pure r
