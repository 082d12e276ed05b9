-- ===== src/Agent/Tests.antt =====
-- The agent run on a concrete goal, and its theorems at that run.
use Prim.Native.String.{slice}
use proofops_memoryguard.Base.{
  inl, true, false, Option, none, some, [], ◌∷◌, ◌≡◌, ◌≢◌, refl, concat, IsIn, length,
  if◌then◌else◌, ◌==◌,
}
use proofops_memoryguard.Errors.{Result, ok, err, outside}
use proofops_memoryguard.Canonical.{zero_hash}
use proofops_memoryguard.Python.Value.{Value, bool, str, dict, fields}
use proofops_memoryguard.Python.Text.{is_lower_hex}
use proofops_memoryguard.Python.Runtime.{Runtime}
use proofops_memoryguard.Models.{DecisionDraft, ready, deny}
use proofops_memoryguard.Proof.Decision.{IsBound}
use proofops_memoryguard.Memory.{InMemory, new_memory, in_memory}
use proofops_memoryguard.Guard.Observe.{observe}
use proofops_memoryguard.Base.{String}
use proofops_memoryguard.Errors.{value_error}
use proofops_memoryguard.Samples
use proofops_memoryguard.Samples.{
  running, baseline, revocation, intent, guard, observing, deciding, noon, value_of, no_draft,
}
use proofops_memoryguard.Agent.Models.{
  AgentState, await_finalize, block_and_escalate, degraded_safe_only, ToolEvent, AgentRun,
  ModelPlan,
}
use proofops_memoryguard.Agent.Authority.{
  review_tool, brief_tool, authorization, fallback_plan, operator_copy, request_value, request_hash,
  stored_request_hash, action_value, goal_fingerprint, decision_fingerprint, run_id_of, run_id,
  stored_run_id, model_context,
}
use proofops_memoryguard.Agent.Check.{
  in_sequence, is_hash, is_call, check_event, check_events, is_valid_state, is_trace_bound,
  check_receipt, check_model_receipt, check_current_schema, check_schema,
}
use proofops_memoryguard.Agent.Validate.{
  check_action_id, check_action_trace, check_artifact, check_artifacts, check_proof_artifact,
  check_anchor, check_identity, check_authority, check_actions, check_copy, validate_run,
}
use proofops_memoryguard.Agent.Run.{
  Fresh, hash_output, add_event, degrade, add_receipt, add_plan, planned, suppress_all, call_action,
}
use proofops_memoryguard.Agent.Claimed.{
  Agent, choice, action_failed, receive, carry_out, run_tools, built_run, keep_run, act_on, run_new,
  reuse_run, run_claimed, run, inspect,
}
use proofops_memoryguard.Ports.{AnchorPort}
use proofops_memoryguard.Agent.Resume
use proofops_memoryguard.Agent.Resumed.{resume-inert, resume-final}
use proofops_memoryguard.Exec.{Exec}
use proofops_memoryguard.Guard.Decide as Deciding
use proofops_memoryguard.Agent.Denied.{with_review, act_on-never_reviews}
use proofops_memoryguard.Agent.Authorized.{
  validate_run-IsAuthorized, IsAuthorized, run-reviews_ready,
}

-- a digest with the form of one
instance abbrev hex_runtime : Runtime
hex_runtime = record Samples.demo_runtime { sha256 = λ t. zero_hash }

abbrev receipt : DecisionDraft → Value
receipt d = dict (
    fields (
      ("action_id", str (concat "act_" (slice zero_hash 0 20)))
      ∷ ("decision_id", str d.decision_id)
      ∷ ("executable", bool false)
      ∷ []))

abbrev plan : ModelPlan
plan = record {
  explanation = "pay";
  operator_steps = [];
  requested_tools = brief_tool ∷ "wallet.send" ∷ [];
  model_receipt = none;
}

abbrev agent : Agent InMemory
agent = record {
  memory = in_memory;
  guard = guard;
  model = record { production_kind = "stub"; plan = λ context tools m. (ok plan, m) };
  ledger = record { save = λ r m. (ok tt, m); load = λ id m. (ok none, m) };
  actions = record {
    prepare_review = λ d m. (ok (receipt d), m);
    create_escalation = λ d m. (ok (receipt d), m);
    prepare_evidence_brief = λ d m. (ok (receipt d), m);
  };
  runtime_instance_id = "instance-1";
  production = false;
}

-- the same agent without a model
abbrev alone : Agent InMemory
alone = record agent {
  model = record {
    production_kind = "stub";
    plan = λ context tools m. (err (outside "Timeout" ""), m);
  };
}

abbrev fresh : Fresh
fresh = record { deciding = deciding; clock = λ n. noon; now = noon }

abbrev approved : InMemory
approved = (observe in_memory baseline observing new_memory).1

abbrev revoked : InMemory
revoked = (observe in_memory revocation observing approved).1

unfoldable running_agent : Unit {0}
unfolding running is_lower_hex authorization fallback_plan operator_copy request_value request_hash
    stored_request_hash action_value goal_fingerprint decision_fingerprint run_id_of run_id
    stored_run_id model_context in_sequence is_hash check_event check_events is_valid_state
    is_trace_bound check_receipt check_model_receipt check_current_schema check_schema
    check_action_id check_action_trace check_artifact check_artifacts check_proof_artifact
    check_anchor check_identity check_authority check_actions check_copy validate_run hash_output
    add_event degrade add_receipt add_plan planned suppress_all call_action choice action_failed
    receive carry_out run_tools built_run keep_run act_on run_new reuse_run run_claimed run inspect
    Resume.plan_value Resume.verification_value Resume.result_value Resume.is_stopped
    Resume.stays_on_cancel Resume.verified_tx Resume.anchored Resume.failure_value Resume.open_call
    Resume.cancel_trace Resume.cancel Resume.close_call Resume.prepare_anchor Resume.failed_trace
    Resume.verified_run Resume.verify_anchor Resume.confirm_verified Resume.observe_transaction
    Resume.on_signal Resume.resume
running_agent = tt

abbrev state_of : Result AgentRun → Option AgentState
state_of (ok r) = some r.state
state_of (err e) = none

approved_awaits :
    state_of (run agent fresh (record { intent = intent }) approved).0 ≡ some await_finalize
unfolding running_agent
approved_awaits = refl

revoked_is_blocked :
    state_of (run agent fresh (record { intent = intent }) revoked).0 ≡ some block_and_escalate
unfolding running_agent
revoked_is_blocked = refl

alone_is_degraded :
    state_of (run alone fresh (record { intent = intent }) revoked).0 ≡ some degraded_safe_only
unfolding running_agent
alone_is_degraded = refl

abbrev no_run : AgentRun
no_run =
    built_run agent fresh "" "" "" no_draft (authorization deny)
      (record { plan = plan; degraded = false; trace = [] })
      (record { artifacts = []; failed = false; trace = [] })

abbrev approved_run : AgentRun
approved_run = value_of (run agent fresh (record { intent = intent }) approved).0 no_run

-- The review was called, the brief was asked for, and the unknown tool was not called.
approved_events : length approved_run.tool_trace ≡ 15
unfolding running_agent
approved_events = refl

validate_run-IsAuthorized_example : IsAuthorized approved_run
unfolding running_agent
validate_run-IsAuthorized_example = validate_run-IsAuthorized false approved_run refl

run-reviews_ready_example :
    (approved_run.executable ≡ false)
    × IsBound approved_run.decision
    × ((e : ToolEvent)
        → IsIn e approved_run.tool_trace
        → e.tool ≡ review_tool
        → is_call e ≡ true
        → approved_run.decision.verdict ≡ ready)
unfolding running_agent
run-reviews_ready_example =
    run-reviews_ready agent fresh (record { intent = intent }) approved approved_run refl

abbrev denied : DecisionDraft
denied = value_of (Deciding.decide in_memory guard intent deciding revoked).0 no_draft

denied_never_ready : denied.verdict ≢ ready
unfolding running_agent
denied_never_ready h = cc

abbrev failing_review : DecisionDraft → Exec InMemory Value
failing_review d m = (err (outside "RuntimeError" "review was called"), m)

act_on-never_reviews_example :
    act_on
      (record agent { actions = with_review failing_review agent.actions })
      fresh
      "run"
      "request"
      "fingerprint"
      denied
      []
    ≡ act_on agent fresh "run" "request" "fingerprint" denied []
act_on-never_reviews_example =
    act_on-never_reviews agent failing_review fresh "run" "request" "fingerprint" denied []
      denied_never_ready

abbrev unanchored : AnchorPort
unanchored = record { plan = λ d. ok none; verify = λ d tx. err (outside "Timeout" "") }

-- An agent whose ledger has the run, on a memory that has its decision.
abbrev resuming : Agent InMemory
resuming = record agent {
  ledger = record { save = λ r m. (ok tt, m); load = λ id m. (ok (some approved_run), m) };
}

abbrev decided : InMemory
decided = (run agent fresh (record { intent = intent }) approved).1

abbrev signal : String → Resume.AgentHumanSignal
signal kind = record { kind = kind; confirmation_tx_hash = none }

abbrev resumed_at : Resume.Fresh
resumed_at = record { clock = λ n. noon; finalized_at = noon; now = noon }

abbrev prepared_run : AgentRun
prepared_run =
    value_of
      (Resume.resume resuming unanchored resumed_at "run" (signal "prepare_anchor") decided).0
      no_run

resume-inert_example : (prepared_run.executable ≡ false) × IsBound prepared_run.decision
unfolding running_agent
resume-inert_example =
    resume-inert resuming unanchored resumed_at "run" (signal "prepare_anchor") decided prepared_run
      refl

abbrev cancelled_run : AgentRun
cancelled_run =
    value_of (Resume.resume resuming unanchored resumed_at "run" (signal "cancel") decided).0 no_run

-- the agent after the cancellation was stored
abbrev after_cancel : Agent InMemory
after_cancel = record agent {
  ledger = record { save = λ r m. (ok tt, m); load = λ id m. (ok (some cancelled_run), m) };
}

resume-final_example :
    Resume.resume after_cancel unanchored resumed_at "run" (signal "prepare_anchor") decided ≡ (
      if "prepare_anchor" == "cancel"
          then ok cancelled_run
          else err (value_error "this Agent run cannot continue"),
      (inspect after_cancel "run" decided).1,
    )
unfolding running_agent
resume-final_example =
    resume-final after_cancel unanchored resumed_at "run" (signal "prepare_anchor") decided
      cancelled_run refl (inl refl)
