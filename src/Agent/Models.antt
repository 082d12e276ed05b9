-- ===== src/Agent/Models.antt =====
-- src/proofops_memoryguard/agent_models.py: the states, events and runs of the agent.
use proofops_memoryguard.Base.{String, Bool, true, false, Option, List, Dict}
use proofops_memoryguard.Python.Number.{ℤ, Datetime}
use proofops_memoryguard.Python.Value.{Value}
use proofops_memoryguard.Models.{PaymentIntent, DecisionDraft, AnchorState}

pub data AgentState : Type 0 where
  await_finalize block_and_escalate await_human_review halt_memory_unavailable : AgentState
  block_and_redecide halt_action_unavailable degraded_safe_only cancelled : AgentState
  anchor_verified : AgentState

pub data ToolPhase : Type 0 where
  considered called succeeded failed suppressed : ToolPhase

pub record GuardedPaymentGoal : Type 0 where
  pub intent : PaymentIntent

pub record ModelPlan : Type 0 where
  pub explanation : String
  pub operator_steps : List String
  pub requested_tools : List String
  pub model_receipt : Option (Dict Value)

pub record ToolEvent : Type 0 where
  pub sequence : ℤ
  pub tool : String
  pub phase : ToolPhase
  pub reason_code : String
  pub input_hash : String
  pub output_hash : Option String
  pub occurred_at : Datetime

pub record AgentRun : Type 0 where
  pub run_id : String
  pub request_hash : String
  pub runtime_instance_id : String
  pub state : AgentState
  pub decision : DecisionDraft
  pub action_fingerprint : String
  pub explanation : String
  pub operator_steps : List String
  pub planning_degraded : Bool
  pub model_kind : String
  pub model_receipt : Option (Dict Value)
  pub model_requested_safe_tools : List String
  pub tool_trace : List ToolEvent
  pub artifacts : Dict Value
  pub anchor_state : AnchorState
  pub executable : Bool
  pub created_at : Datetime
  pub updated_at : Datetime
  pub schema_version : String

-- `state.value`
abbrev pub state_value : AgentState → String
state_value await_finalize = "await_finalize"
state_value block_and_escalate = "block_and_escalate"
state_value await_human_review = "await_human_review"
state_value halt_memory_unavailable = "halt_memory_unavailable"
state_value block_and_redecide = "block_and_redecide"
state_value halt_action_unavailable = "halt_action_unavailable"
state_value degraded_safe_only = "degraded_safe_only"
state_value cancelled = "cancelled"
state_value anchor_verified = "anchor_verified"

-- `==` on the members of an enumeration
abbrev pub state_eq : AgentState → AgentState → Bool
state_eq await_finalize await_finalize = true
state_eq block_and_escalate block_and_escalate = true
state_eq await_human_review await_human_review = true
state_eq halt_memory_unavailable halt_memory_unavailable = true
state_eq block_and_redecide block_and_redecide = true
state_eq halt_action_unavailable halt_action_unavailable = true
state_eq degraded_safe_only degraded_safe_only = true
state_eq cancelled cancelled = true
state_eq anchor_verified anchor_verified = true
state_eq _ _ = false

abbrev pub is_called : ToolPhase → Bool
is_called called = true
is_called _ = false

abbrev pub is_succeeded : ToolPhase → Bool
is_succeeded succeeded = true
is_succeeded _ = false

abbrev pub is_failed : ToolPhase → Bool
is_failed failed = true
is_failed _ = false

abbrev pub is_suppressed : ToolPhase → Bool
is_suppressed suppressed = true
is_suppressed _ = false
