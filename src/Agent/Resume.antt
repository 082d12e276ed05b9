-- ===== src/Agent/Resume.antt =====
-- `resume` of agent.py: what a human signal does to a stored run; and `FinalizationResult.to_dict` of
-- models.py, which becomes an artifact of the run.
use proofops_memoryguard.Base.{
  ℕ, String, Bool, true, false, Option, none, some, [], ◌∷◌, ◌==◌, ◌||◌, concat, if◌then◌else◌, put,
  get,
}
use proofops_memoryguard.Errors
use proofops_memoryguard.Errors.{
  Error, Result, ok, err, value_error, finalization, error_name, outside,
}
use proofops_memoryguard.Exec.{Exec, pure, raise, lift, attempt, ◌>>=◌, ◌>>◌}
use proofops_memoryguard.Python.Number.{Datetime}
use proofops_memoryguard.Python.Value.{
  Value, null, bool, int, str, dict, fields, strings, field?, value_eq, truthy,
}
use proofops_memoryguard.Python.Runtime.{Runtime}
use proofops_memoryguard.Models.{
  AnchorPlan, AnchorVerification, FinalizationResult, AnchorState, failed, verdict_value,
  anchor_state_value,
}
use proofops_memoryguard.Ports.{AnchorPort}
use proofops_memoryguard.Guard.Finalize as Finalizing
use proofops_memoryguard.Guard.Finalize.{is_verified, is_pending}
use proofops_memoryguard.Agent.Models.{
  AgentState, block_and_escalate, halt_action_unavailable, degraded_safe_only, block_and_redecide,
  cancelled, ToolPhase, AgentRun,
}
use proofops_memoryguard.Agent.Validate.{prepare_tool, verify_tool}
use proofops_memoryguard.Agent.Run.{Trace, add_event}
use proofops_memoryguard.Agent.Claimed.{Agent, inspect}

-- a field that is absent is written as null
abbrev or_null : {A : Type 0} → (A → Value) → Option A → Value
or_null f none = null
or_null f (some a) = f a

unfoldable pub plan_value : AnchorPlan → Value
plan_value p = dict (
    fields (
      ("chain_id", int p.chain_id)
      ∷ ("network", str p.network)
      ∷ ("contract", str p.contract)
      ∷ ("to", str p.to)
      ∷ ("data", str p.calldata)
      ∷ ("value", str p.value)
      ∷ ("proof_root", str p.proof_root)
      ∷ []))

unfoldable pub verification_value : AnchorVerification → Value
verification_value v = dict (
    fields (
      ("state", str (anchor_state_value v.state))
      ∷ ("tx_hash", or_null str v.tx_hash)
      ∷ ("chain_id", or_null int v.chain_id)
      ∷ ("contract", or_null str v.contract)
      ∷ ("block_number", or_null int v.block_number)
      ∷ ("reason_codes", strings v.reason_codes)
      ∷ []))

unfoldable pub result_value : FinalizationResult → Value
result_value r = dict (
    fields (
      ("decision_id", str r.decision_id)
      ∷ ("verdict", str (verdict_value r.verdict))
      ∷ ("state", str (anchor_state_value r.state))
      ∷ ("proof_root", str r.proof_root)
      ∷ ("executable", bool r.executable)
      ∷ ("anchor_plan", or_null plan_value r.anchor_plan)
      ∷ ("anchor_verification", or_null verification_value r.anchor_verification)
      ∷ ("reason_codes", strings r.reason_codes)
      ∷ []))

-- `AgentHumanSignal`
pub record AgentHumanSignal : Type 0 where
  pub kind : String
  pub confirmation_tx_hash : Option String

-- What a call reads from the clock: for each event, for the guard and for the run.
pub record Fresh : Type 0 where
  pub clock : ℕ → Datetime
  pub finalized_at : Datetime
  pub now : Datetime

-- the states of a run that does not go on
unfoldable pub is_stopped : AgentState → Bool
is_stopped cancelled = true
is_stopped halt_action_unavailable = true
is_stopped degraded_safe_only = true
is_stopped block_and_redecide = true
is_stopped _ = false

-- the states that a cancellation leaves as they are
unfoldable pub stays_on_cancel : AgentState → Bool
stays_on_cancel block_and_escalate = true
stays_on_cancel halt_action_unavailable = true
stays_on_cancel degraded_safe_only = true
stays_on_cancel block_and_redecide = true
stays_on_cancel cancelled = true
stays_on_cancel _ = false

-- `verification.get("tx_hash")` of the artifact of a verification
abbrev no_get : Error
no_get = outside "AttributeError" "object has no attribute 'get'"

abbrev tx_in : Option Value → Result (Option Value)
tx_in none = ok none
tx_in (some (dict d)) = ok (field? "tx_hash" d)
tx_in (some v) = if truthy v then err no_get else ok none

unfoldable pub verified_tx : Option Value → Result (Option Value)
verified_tx none = ok none
verified_tx (some (dict d)) = tx_in (field? "anchor_verification" d)
verified_tx (some v) = err no_get

abbrev pub is_tx : String → Option Value → Bool
is_tx tx none = false
is_tx tx (some v) = value_eq v (str tx)

-- the phase of the last event of a finalization
abbrev pub prepared_phase : AnchorState → ToolPhase
prepared_phase failed = ToolPhase.failed
prepared_phase _ = ToolPhase.succeeded

abbrev pub verified_phase : AnchorState → ToolPhase
verified_phase s = if is_pending s || is_verified s then ToolPhase.succeeded else ToolPhase.failed

-- the run after a finalization, with its artifact
unfoldable pub anchored : Fresh → AgentRun → String → AnchorState → Value → Trace → AgentRun
anchored fresh r tool state artifact trace = record r {
  tool_trace = trace;
  anchor_state = state;
  artifacts = put tool artifact r.artifacts;
  updated_at = fresh.now;
  executable = false;
}

unfoldable pub failure_value : AgentRun → Value
failure_value r = dict (
    fields (
      ("decision_id", str r.decision.decision_id)
      ∷ ("state", str "failed")
      ∷ ("proof_root", str r.decision.proof_root)
      ∷ ("reason_codes", strings ("decision_requires_fresh_recall" ∷ []))
      ∷ ("executable", bool false)
      ∷ []))

module _ ⦃runtime : Runtime⦄ {M : Type 0} (agent : Agent M) (anchor : AnchorPort) where
  abbrev save : AgentRun → Exec M AgentRun
  save r = agent.ledger.save r >> pure r

  -- the two events that open a call, behind the events of the run
  unfoldable pub open_call : Fresh → AgentRun → String → String → Value → Result Trace
  open_call fresh r tool reason payload =
      Errors.◌>>=◌
        (add_event fresh.clock r.tool_trace tool ToolPhase.considered reason payload none)
        λ t. add_event fresh.clock t tool ToolPhase.called reason payload none

  abbrev pub run_payload : AgentRun → Value
  run_payload r = dict (fields (("run_id", str r.run_id) ∷ []))

  abbrev pub decision_payload : AgentRun → Value
  decision_payload r = dict (fields (("decision_id", str r.decision.decision_id) ∷ []))

  abbrev pub tx_payload : AgentRun → String → Value
  tx_payload r tx =
      dict (fields (("decision_id", str r.decision.decision_id) ∷ ("tx_hash", str tx) ∷ []))

  unfoldable pub cancel_trace : Fresh → AgentRun → Result Trace
  cancel_trace fresh r =
      Errors.◌>>=◌ (open_call fresh r "agent.cancel" "human_cancel_signal" (run_payload r)) λ t.
        add_event fresh.clock t "agent.cancel" ToolPhase.succeeded "run_cancelled" (run_payload r)
          (some (run_payload r))

  unfoldable pub cancel : Fresh → AgentRun → Exec M AgentRun
  cancel fresh r = do
    t ← lift (cancel_trace fresh r)
    save (record r { state = cancelled; tool_trace = t; updated_at = fresh.now })

  -- the last event of a finalization
  unfoldable pub close_call :
      Fresh → Trace → String → ToolPhase → Value → FinalizationResult → Result Trace
  close_call fresh t tool phase payload result =
      add_event fresh.clock t tool phase (concat "anchor_" (anchor_state_value result.state))
        payload (some (result_value result))

  unfoldable pub prepare_anchor : Fresh → AgentRun → Exec M AgentRun
  prepare_anchor fresh r = do
    t ← lift (open_call fresh r prepare_tool "human_request" (decision_payload r))
    result ←
        Finalizing.finalize agent.memory agent.guard anchor r.decision.decision_id none
          fresh.finalized_at
    t' ←
        lift (
          close_call fresh t prepare_tool (prepared_phase result.state) (decision_payload r) result)
    save (anchored fresh r prepare_tool result.state (result_value result) t')

  unfoldable pub failed_trace : Fresh → AgentRun → Value → Trace → Result Trace
  failed_trace fresh r payload t =
      add_event fresh.clock t verify_tool ToolPhase.failed
        "decision_requires_recall_FinalizationError" payload (some (failure_value r))

  -- after the guard has answered a transaction; only a `FinalizationError` is caught
  unfoldable pub verified_run :
      Fresh → AgentRun → Value → Trace → Result FinalizationResult → Exec M AgentRun
  verified_run fresh r payload t (ok result) = do
    t' ← lift (close_call fresh t verify_tool (verified_phase result.state) payload result)
    save (anchored fresh r verify_tool result.state (result_value result) t')
  verified_run fresh r payload t (err (finalization why)) = do
    t' ← lift (failed_trace fresh r payload t)
    save (record (anchored fresh r verify_tool failed (failure_value r) t') {
      state = block_and_redecide;
    })
  verified_run fresh r payload t (err e) = raise e

  unfoldable pub verify_anchor : Fresh → AgentRun → String → Exec M AgentRun
  verify_anchor fresh r tx = do
    t ← lift (open_call fresh r verify_tool "human_wallet_signal" (tx_payload r tx))
    answer ← attempt (
        Finalizing.finalize agent.memory agent.guard anchor r.decision.decision_id (some tx)
          fresh.finalized_at)
    verified_run fresh r (tx_payload r tx) t answer

  -- a run that is verified already
  unfoldable pub confirm_verified : AgentRun → String → Exec M AgentRun
  confirm_verified r tx = do
    stored ← lift (verified_tx (get verify_tool r.artifacts))
    if is_tx tx stored
        then pure r
        else raise (value_error "Agent run is already anchored by a different transaction")

  unfoldable pub observe_transaction : Fresh → AgentRun → Option String → Exec M AgentRun
  observe_transaction fresh r none =
      raise
        (value_error "resume accepts only cancel, prepare_anchor, or anchor_transaction_observed")
  observe_transaction fresh r (some tx) =
      if tx == ""
      then raise
          (value_error "resume accepts only cancel, prepare_anchor, or anchor_transaction_observed")
      else if is_verified r.anchor_state
      then confirm_verified r tx
      else verify_anchor fresh r tx

  unfoldable pub on_signal : Fresh → AgentRun → AgentHumanSignal → Exec M AgentRun
  on_signal fresh r signal =
      if signal.kind == "cancel"
      then (if stays_on_cancel r.state then pure r else cancel fresh r)
      else if is_stopped r.state
      then raise (value_error "this Agent run cannot continue")
      else if signal.kind == "prepare_anchor"
      then prepare_anchor fresh r
      else if signal.kind == "anchor_transaction_observed"
      then observe_transaction fresh r signal.confirmation_tx_hash
      else raise
          (value_error "resume accepts only cancel, prepare_anchor, or anchor_transaction_observed")

  -- `resume` and `_resume_claimed`
  unfoldable pub resume : Fresh → String → AgentHumanSignal → Exec M AgentRun
  resume fresh id signal = do r ← inspect agent id; on_signal fresh r signal
