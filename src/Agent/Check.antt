-- ===== src/Agent/Check.antt =====
-- `MemoryGuardAgent._validate_run` of agent.py, part by part in the order of the source.
use proofops_memoryguard.Base.{
  ℕ, zero, suc, ◌+◌, String, Bool, true, false, Option, none, some, List, [], ◌∷◌, ◌==◌, ◌&&◌, ◌||◌,
  not, if◌then◌else◌, contains, filter_by, all_by, get, keys, Dict, eqb, length,
}
use proofops_memoryguard.Errors.{Result, ok, err, memory_integrity, raise_if, ◌>>=◌, ◌>>◌}
use proofops_memoryguard.Python.Number.{ℤ, pos, negsuc, eqb_ℤ}
use proofops_memoryguard.Python.Text.{codes, is_lower_hex}
use proofops_memoryguard.Python.Value.{Value, bool, str, dict, fields, strings, value_eq}
use proofops_memoryguard.Python.Runtime.{Runtime}
use proofops_memoryguard.Canonical.{domain_hash}
use proofops_memoryguard.Agent.Models.{
  AgentState, halt_action_unavailable, degraded_safe_only, block_and_redecide, block_and_escalate,
  cancelled, state_eq, ToolEvent, AgentRun, is_called, is_succeeded, is_failed, is_suppressed,
}
use proofops_memoryguard.Agent.Authority.{
  brief_tool, registered_tools, Authorization, model_context,
}

-- `[event.sequence for event in trace] == list(range(n, ...))`
unfoldable pub in_sequence : ℕ → List ToolEvent → Bool
in_sequence n [] = true
in_sequence n (e ∷ es) = eqb_ℤ e.sequence (pos n) && in_sequence (suc n) es

-- `sequence + 1`
abbrev next : ℤ → ℤ
next (pos n) = pos (n + 1)
next (negsuc zero) = pos 0
next (negsuc (suc n)) = negsuc n

-- 64 lowercase hexadecimal digits
unfoldable pub is_hash : String → Bool
is_hash s = eqb (length (codes s)) 64 && all_by is_lower_hex (codes s)

abbrev pub known_tools : List String
known_tools =
    "memoryguard.decide" ∷ "model.plan" ∷ "model.receipt" ∷ "agent.cancel" ∷ "proof_anchor.prepare"
    ∷ "proof_anchor.verify" ∷ registered_tools

abbrev optional_hash : Option String → Bool
optional_hash none = true
optional_hash (some h) = is_hash h

-- `phase in {CALLED, SUCCEEDED}`
abbrev pub is_call : ToolEvent → Bool
is_call e = is_called e.phase || is_succeeded e.phase

-- `value is True`, `value is not False` for what a dictionary holds under a key
abbrev holds_true : String → Dict Value → Bool
holds_true key d = elim (get key d) [ some (bool true) ↦ true | _ ↦ false ]

abbrev holds_false : String → Dict Value → Bool
holds_false key d = elim (get key d) [ some (bool false) ↦ true | _ ↦ false ]

-- `d.get(key) == text`
abbrev pub holds_text : String → String → Option Value → Bool
holds_text key text none = false
holds_text key text (some v) = value_eq v (str text)

-- `output_hash == expected`
abbrev pub has_output : String → ToolEvent → Bool
has_output expected e = elim e.output_hash [ none ↦ false | some h ↦ h == expected ]

-- the tests of the loop over the trace
abbrev pub has_hashes : ToolEvent → Bool
has_hashes e = is_hash e.input_hash && optional_hash e.output_hash

abbrev pub is_unknown : ToolEvent → Bool
is_unknown e =
    not (contains e.tool known_tools)
    && not (is_suppressed e.phase && e.reason_code == "tool_not_registered")

abbrev pub is_forbidden : List String → ToolEvent → Bool
is_forbidden allowed e =
    contains e.tool registered_tools && is_call e && not (contains e.tool allowed)

-- the body of the loop over the trace
unfoldable pub check_event : AgentRun → List String → ToolEvent → Result (Unit {0})
check_event run allowed e = do
  raise_if (not (has_hashes e)) (memory_integrity "Agent run trace hash is invalid")
  raise_if (is_unknown e) (memory_integrity "Agent run trace contains an executable unknown tool")
  raise_if (is_forbidden allowed e) (memory_integrity "Agent run called a verdict-forbidden tool")
  raise_if
      (contains e.tool registered_tools
        && is_call e
        && e.tool == brief_tool
        && not (contains e.tool run.model_requested_safe_tools))
      (memory_integrity "Agent run called an unrequested optional tool")
  raise_if
      ((e.tool == "proof_anchor.prepare" || e.tool == "proof_anchor.verify")
        && (is_called e.phase || is_succeeded e.phase || is_failed e.phase)
        && not (contains e.tool (keys run.artifacts)))
      (memory_integrity "Agent run anchor trace has no artifact")

unfoldable pub check_events : AgentRun → List String → List ToolEvent → Result (Unit {0})
check_events run allowed [] = ok tt
check_events run allowed (e ∷ es) = do check_event run allowed e; check_events run allowed es

-- `state in valid_states`
unfoldable pub is_valid_state : AgentState → AgentState → Bool
is_valid_state base state =
    state_eq state base
    || state_eq state halt_action_unavailable
    || state_eq state degraded_safe_only
    || state_eq state block_and_redecide
    || (not (state_eq base block_and_escalate) && state_eq state cancelled)

-- `not isinstance(receipt.get(key), str) or not receipt[key]`, negated
abbrev holds_some_text : Dict Value → String → Bool
holds_some_text d key = elim (get key d) [ some (str s) ↦ not (s == "") | _ ↦ false ]

abbrev required_strings : List String
required_strings =
    "backend" ∷ "configured_model" ∷ "resolved_model" ∷ "generation_id" ∷ "completion_sha256"
    ∷ "model_context_hash" ∷ "completed_at" ∷ []

-- `str(receipt["completion_sha256"])`, once it is known to be a text
abbrev text_at : String → Dict Value → String
text_at key d = elim (get key d) [ some (str s) ↦ s | _ ↦ "" ]

-- whether the one receipt event follows the one successful plan event and carries the two hashes
unfoldable pub is_trace_bound : String → String → List ToolEvent → List ToolEvent → Bool
is_trace_bound input_hash output_hash (r ∷ []) (p ∷ []) =
    is_succeeded r.phase
    && r.reason_code == "non_secret_provider_receipt"
    && r.input_hash == input_hash
    && has_output output_hash r
    && eqb_ℤ r.sequence (next p.sequence)
is_trace_bound input_hash output_hash _ _ = false

abbrev is_empty_trace : List ToolEvent → Bool
is_empty_trace [] = true
is_empty_trace (e ∷ es) = false

abbrev receipt_events : AgentRun → List ToolEvent
receipt_events run = filter_by (λ e. e.tool == "model.receipt") run.tool_trace

abbrev plan_events : AgentRun → List ToolEvent
plan_events run = filter_by (λ e. e.tool == "model.plan" && is_succeeded e.phase) run.tool_trace

module _ ⦃runtime : Runtime⦄ where
  -- the block `if run.model_receipt is not None` of schema 1.1
  unfoldable pub check_receipt : AgentRun → Authorization → Dict Value → Result (Unit {0})
  check_receipt run auth receipt = do
    raise_if (not (all_by (holds_some_text receipt) required_strings))
        (memory_integrity "Agent run model receipt is incomplete")
    raise_if (not (is_hash (text_at "completion_sha256" receipt)))
        (memory_integrity "Agent run model receipt hash is invalid")
    raise_if
        (not (
          holds_text "backend" run.model_kind (get "backend" receipt)
          && holds_true "live_call_verified" receipt
          && holds_true "structured_output_validated" receipt
          && holds_false "production_reliability_claimed" receipt))
        (memory_integrity "Agent run model receipt boundary is invalid")
    context ← model_context run.decision auth.state
    context_hash ←
        domain_hash "agent-model-context"
          (dict (fields (("context", context) ∷ ("allowed_tools", strings auth.allowed) ∷ [])))
    raise_if (not (holds_text "model_context_hash" context_hash (get "model_context_hash" receipt)))
        (memory_integrity "Agent run model receipt context is invalid")
    receipt_hash ← domain_hash "agent-tool-output:model.receipt" (dict (fields receipt))
    input_hash ←
        domain_hash "agent-tool-input:model.receipt" (
          dict
            (fields (("run_id", str run.run_id) ∷ ("model_context_hash", str context_hash) ∷ [])))
    raise_if (not (is_trace_bound input_hash receipt_hash (receipt_events run) (plan_events run)))
        (memory_integrity "Agent run model receipt is not trace-bound")

  abbrev has_receipt : Option (Dict Value) → Bool
  has_receipt none = false
  has_receipt (some r) = true

  unfoldable pub check_model_receipt :
      Bool → AgentRun → Authorization → Option (Dict Value) → Result (Unit {0})
  check_model_receipt production run auth (some receipt) = check_receipt run auth receipt
  check_model_receipt production run auth none = do
    raise_if (not (is_empty_trace (receipt_events run)))
        (memory_integrity "Agent run has a receipt trace without a receipt")
    raise_if (production && not run.planning_degraded)
        (memory_integrity "production Agent run is missing its model receipt")

  unfoldable pub check_current_schema : Bool → AgentRun → Authorization → Result (Unit {0})
  check_current_schema production run auth = do
    raise_if (run.planning_degraded && has_receipt run.model_receipt)
        (memory_integrity "degraded Agent run contains a model receipt")
    check_model_receipt production run auth run.model_receipt

  unfoldable pub check_schema : Bool → AgentRun → Authorization → Result (Unit {0})
  check_schema production run auth =
      if run.schema_version == "1.1"
      then check_current_schema production run auth
      else if run.schema_version == "1.0"
      then raise_if (has_receipt run.model_receipt || not (is_empty_trace (receipt_events run)))
          (memory_integrity "legacy Agent run contains a model receipt")
      else err (memory_integrity "Agent run schema version is unsupported")
