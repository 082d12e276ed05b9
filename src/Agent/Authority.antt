-- ===== src/Agent/Authority.antt =====
-- The parts of agent.py that are computed from a goal or a decision alone: identities, what a verdict
-- allows, what the model is told and what the operator reads.
use Prim.Native.String.{slice}
use proofops_memoryguard.Base.{String, Bool, none, List, [], ◌∷◌, concat, if◌then◌else◌}
use proofops_memoryguard.Errors.{Result, ok, ◌>>=◌}
use proofops_memoryguard.Python.Value.{Value, bool, int, float, str, dict, fields, strings}
use proofops_memoryguard.Python.Runtime.{Runtime}
use proofops_memoryguard.Canonical.{domain_hash, subject_ref}
use proofops_memoryguard.Models.{
  PaymentIntent, DecisionDraft, ready, deny, mode_value, verdict_value, Verdict,
}
use proofops_memoryguard.Agent.Models.{
  AgentState, await_finalize, block_and_escalate, await_human_review, halt_action_unavailable,
  GuardedPaymentGoal, ModelPlan, state_value,
}

abbrev pub review_tool : String
review_tool = "human_review.prepare"

abbrev pub escalation_tool : String
escalation_tool = "operator_escalation.create"

abbrev pub brief_tool : String
brief_tool = "causal_evidence_brief.prepare"

-- `_REGISTERED_TOOLS`
abbrev pub registered_tools : List String
registered_tools = review_tool ∷ escalation_tool ∷ brief_tool ∷ []

-- The state, the allowed tools and the mandatory one.
pub record Authorization : Type 0 where
  pub state : AgentState
  pub allowed : List String
  pub mandatory : String

-- `_authorization`
unfoldable pub authorization : Verdict → Authorization
authorization ready = record {
  state = await_finalize;
  allowed = review_tool ∷ brief_tool ∷ [];
  mandatory = review_tool;
}
authorization deny = record {
  state = block_and_escalate;
  allowed = escalation_tool ∷ brief_tool ∷ [];
  mandatory = escalation_tool;
}
authorization _ = record {
  state = await_human_review;
  allowed = escalation_tool ∷ brief_tool ∷ [];
  mandatory = escalation_tool;
}

-- `_fallback_plan`
unfoldable pub fallback_plan : ModelPlan
fallback_plan = record {
  explanation =
      "The external planning model was unavailable. MemoryGuard's verdict remains authoritative, and only the deterministic non-payment safety step was retained.";
  operator_steps = "Review the authoritative reason codes and causal memory IDs." ∷ [];
  requested_tools = [];
  model_receipt = none;
}

abbrev halted_copy : String
halted_copy =
    "The safe-action Adapter was unavailable, so the Agent stopped without claiming that a review or escalation artifact was created."

abbrev finalize_copy : String
finalize_copy =
    "MemoryGuard recalled a matching trusted baseline. The Agent prepared a non-executable review card and did not gain payment authority."

abbrev blocked_copy : String
blocked_copy =
    "MemoryGuard recalled a dispute or revocation. The Agent suppressed review preparation and created a non-executable escalation case."

abbrev review_copy : String
review_copy =
    "MemoryGuard did not grant an automated path. The Agent created a non-executable operator review case."

abbrev explained : AgentState → String × List String
explained halt_action_unavailable =
    (halted_copy, "Restore the Sibyl safety-action Adapter and start a new Agent run." ∷ [])
explained await_finalize =
    (finalize_copy, "Review the causal memory and proof before any external action." ∷ [])
explained block_and_escalate =
    (blocked_copy, "Investigate the causal memory IDs; do not perform the requested action." ∷ [])
explained _ = (review_copy, "Obtain new trusted evidence and start a new Agent run." ∷ [])

-- `_operator_copy`
unfoldable pub operator_copy : AgentState → Bool → String × List String
operator_copy state planning_degraded =
    let (explanation, steps) = explained state in
    (
      if planning_degraded
          then concat explanation " The external planning model was unavailable."
          else explanation,
      steps,
    )

module _ ⦃runtime : Runtime⦄ where
  open runtime use {lower}

  unfoldable pub request_value : String → PaymentIntent → Value
  request_value ref intent = dict (
      fields (
        ("subject_ref", str ref)
        ∷ ("session_id", str intent.session_id)
        ∷ ("chain_id", int intent.chain_id)
        ∷ ("target", str (lower intent.target))
        ∷ ("method", str intent.method)
        ∷ ("amount_usd", float intent.amount_usd)
        ∷ ("evidence_mode", str (mode_value intent.evidence_mode))
        ∷ ("idempotency_key", str intent.idempotency_key)
        ∷ []))

  -- `_request_hash`
  unfoldable pub request_hash : GuardedPaymentGoal → Result String
  request_hash goal = do
    ref ← subject_ref goal.intent.subject_id
    domain_hash "agent-request" (request_value ref goal.intent)

  -- `_stored_request_hash`
  unfoldable pub stored_request_hash : DecisionDraft → Result String
  stored_request_hash d = domain_hash "agent-request" (request_value d.subject_ref d.intent)

  unfoldable pub action_value : String → PaymentIntent → Value
  action_value ref intent = dict (
      fields (
        ("subject_ref", str ref)
        ∷ ("chain_id", int intent.chain_id)
        ∷ ("target", str (lower intent.target))
        ∷ ("method", str intent.method)
        ∷ ("amount_usd", float intent.amount_usd)
        ∷ ("evidence_mode", str (mode_value intent.evidence_mode))
        ∷ []))

  -- `_action_fingerprint` of a goal, and of a decision
  unfoldable pub goal_fingerprint : GuardedPaymentGoal → Result String
  goal_fingerprint goal = do
    ref ← subject_ref goal.intent.subject_id
    domain_hash "agent-action" (action_value ref goal.intent)

  unfoldable pub decision_fingerprint : DecisionDraft → Result String
  decision_fingerprint d = domain_hash "agent-action" (action_value d.intent.subject_id d.intent)

  unfoldable pub run_id_of : String → String → Result String
  run_id_of ref key = do
    digest ←
        domain_hash "agent-run" (dict (fields (("subject_ref", str ref) ∷ ("key", str key) ∷ [])))
    ok (concat "run_" (slice digest 0 20))

  -- `_run_id`
  unfoldable pub run_id : GuardedPaymentGoal → Result String
  run_id goal = do
    ref ← subject_ref goal.intent.subject_id
    run_id_of ref goal.intent.idempotency_key

  -- `_stored_run_id`
  unfoldable pub stored_run_id : DecisionDraft → Result String
  stored_run_id d = run_id_of d.subject_ref d.intent.idempotency_key

  -- `_model_context`
  unfoldable pub model_context : DecisionDraft → AgentState → Result Value
  model_context d state = do
    target_hash ← domain_hash "agent-model-target" (str d.intent.target)
    ok (
        dict (
          fields (
            ("state", str (state_value state))
            ∷ ("verdict", str (verdict_value d.verdict))
            ∷ ("reason_codes", strings d.reason_codes)
            ∷ ("causal_memory_ids", strings d.causal_memory_ids)
            ∷ ("cross_session", bool d.cross_session)
            ∷ ("chain_id", int d.intent.chain_id)
            ∷ ("target_hash", str target_hash)
            ∷ ("method", str d.intent.method)
            ∷ ("amount_usd", float d.intent.amount_usd)
            ∷ ("evidence_mode", str (mode_value d.intent.evidence_mode))
            ∷ [])))
