-- ===== src/Agent/Validate.antt =====
-- The rest of `_validate_run` of agent.py: the artifacts of a run, and the whole check.
use Prim.Native.String.{slice}
use proofops_memoryguard.Base.{
  String, Bool, true, false, Option, none, some, [], ◌∷◌, ◌==◌, ◌&&◌, ◌||◌, not, concat,
  if◌then◌else◌, contains, any_by, all_by, get, keys, Dict,
}
use proofops_memoryguard.Errors.{Result, ok, err, memory_integrity, raise_if, ◌>>=◌, ◌>>◌}
use proofops_memoryguard.Python.Value.{Value, bool, str, dict, Fields, field?, value_eq, truthy}
use proofops_memoryguard.Python.Runtime.{Runtime}
use proofops_memoryguard.Canonical.{domain_hash}
use proofops_memoryguard.Models.{DecisionDraft, AnchorState, anchor_state_value, not_configured}
use proofops_memoryguard.Proof.{validate_decision}
use proofops_memoryguard.Guard.Observe.{texts_eq}
use proofops_memoryguard.Agent.Models.{
  halt_action_unavailable, state_eq, AgentRun, is_succeeded, is_failed,
}
use proofops_memoryguard.Agent.Authority.{
  review_tool, escalation_tool, brief_tool, registered_tools, Authorization, authorization,
  operator_copy, decision_fingerprint, stored_run_id, stored_request_hash,
}
use proofops_memoryguard.Agent.Check.{
  in_sequence, is_valid_state, check_events, check_schema, holds_text, has_output,
}

abbrev pub prepare_tool : String
prepare_tool = "proof_anchor.prepare"

abbrev pub verify_tool : String
verify_tool = "proof_anchor.verify"

-- what is hashed into the identifier of a registered tool's action
abbrev action_tag : String → Option String
action_tag name =
    if name == review_tool
    then some "review-action"
    else if name == escalation_tool
    then some "escalation-action"
    else if name == brief_tool
    then some "evidence-brief-action"
    else none

-- `value.get("executable") is not False`, negated
abbrev is_false : Option Value → Bool
is_false (some (bool false)) = true
is_false _ = false

-- `artifact_decision and artifact_decision != decision_id`
abbrev names_other : String → Option Value → Bool
names_other id none = false
names_other id (some v) = truthy v && not (value_eq v (str id))

abbrev is_not_configured : AnchorState → Bool
is_not_configured not_configured = true
is_not_configured _ = false

module _ ⦃runtime : Runtime⦄ where
  unfoldable pub check_action_id : DecisionDraft → Fields → Option String → Result (Unit {0})
  check_action_id d artifact none = ok tt
  check_action_id d artifact (some tag) = do
    digest ← domain_hash tag (str d.decision_id)
    raise_if
        (not (
          holds_text "action_id" (concat "act_" (slice digest 0 20)) (field? "action_id" artifact)))
        (memory_integrity "Agent run safety action receipt is invalid")

  unfoldable pub check_action_trace : AgentRun → String → Fields → Result (Unit {0})
  check_action_trace run name artifact = do
    expected ← domain_hash (concat "agent-tool-output:" name) (dict artifact)
    raise_if
        (not (
          any_by (λ e. e.tool == name && is_succeeded e.phase && has_output expected e)
            run.tool_trace))
        (memory_integrity "Agent run safety action trace is invalid")

  -- the body of the loop over the artifacts
  unfoldable pub check_artifact : AgentRun → String → Value → Result (Unit {0})
  check_artifact run name (dict artifact) = do
    raise_if (names_other run.decision.decision_id (field? "decision_id" artifact))
        (memory_integrity "Agent run artifact references another decision")
    raise_if (not (is_false (field? "executable" artifact)))
        (memory_integrity "Agent run artifact gained execution authority")
    check_action_id run.decision artifact (action_tag name)
    if contains name registered_tools then check_action_trace run name artifact else ok tt
  check_artifact run name v = err (memory_integrity "Agent run artifact is invalid")

  unfoldable pub check_artifacts : AgentRun → Dict Value → Result (Unit {0})
  check_artifacts run [] = ok tt
  check_artifacts run ((name, v) ∷ rest) = do check_artifact run name v; check_artifacts run rest

  unfoldable pub check_proof_artifact : AgentRun → Fields → Result (Unit {0})
  check_proof_artifact run artifact = do
    raise_if
        (not (holds_text "state" (anchor_state_value run.anchor_state) (field? "state" artifact)))
        (memory_integrity "Agent run anchor state does not match its artifact")
    raise_if (not (holds_text "proof_root" run.decision.proof_root (field? "proof_root" artifact)))
        (memory_integrity "Agent run anchor proof root is invalid")
    let tool = if contains verify_tool (keys run.artifacts) then verify_tool else prepare_tool
    expected ← domain_hash (concat "agent-tool-output:" tool) (dict artifact)
    raise_if
        (not (
          any_by
            (λ e.
              e.tool == tool
              && (is_succeeded e.phase || is_failed e.phase)
              && has_output expected e)
            run.tool_trace))
        (memory_integrity "Agent run anchor trace is invalid")

  -- `artifacts.get(verify) or artifacts.get(prepare)`; the loop before has seen that both are
  -- dictionaries
  abbrev proof_artifact : Dict Value → Option Value
  proof_artifact artifacts = elim (get verify_tool artifacts) [
    | none ↦ get prepare_tool artifacts
    | some v ↦ if truthy v then some v else get prepare_tool artifacts
  ]

  unfoldable pub check_anchor : AgentRun → Option Value → Result (Unit {0})
  check_anchor run (some (dict artifact)) =
      if truthy (dict artifact)
      then check_proof_artifact run artifact
      else raise_if (not (is_not_configured run.anchor_state))
          (memory_integrity "Agent run anchor state has no artifact")
  check_anchor run v =
      raise_if (not (is_not_configured run.anchor_state))
        (memory_integrity "Agent run anchor state has no artifact")

  -- the checks of the run's own fields, before those of its trace
  unfoldable pub check_identity : Bool → AgentRun → Result (Unit {0})
  check_identity production run = do
    validate_decision run.decision
    id ← stored_run_id run.decision
    request ← stored_request_hash run.decision
    raise_if (not (run.run_id == id && run.request_hash == request))
        (memory_integrity "Agent run identity does not match its request")
    fingerprint ← decision_fingerprint run.decision
    raise_if (run.executable || not (run.action_fingerprint == fingerprint))
        (memory_integrity "Agent run action boundary is invalid")
    raise_if (not (in_sequence 1 run.tool_trace))
        (memory_integrity "Agent run tool trace sequence is invalid")
    raise_if (production && not (run.model_kind == "remote_structured_model"))
        (memory_integrity "production Agent run did not use the remote model")

  unfoldable pub check_authority : AgentRun → Authorization → Result (Unit {0})
  check_authority run auth = do
    raise_if (not (is_valid_state auth.state run.state))
        (memory_integrity "Agent run state does not match its decision")
    raise_if (not (all_by (λ tool. contains tool auth.allowed) run.model_requested_safe_tools))
        (memory_integrity "Agent run contains an unauthorized model tool")
    check_events run auth.allowed run.tool_trace

  unfoldable pub check_actions : AgentRun → Authorization → Result (Unit {0})
  check_actions run auth = do
    raise_if
        (not (
          all_by (λ name. contains name (verify_tool ∷ prepare_tool ∷ registered_tools))
            (keys run.artifacts)))
        (memory_integrity "Agent run contains an unknown artifact")
    raise_if
        (not (state_eq run.state halt_action_unavailable)
          && not (contains auth.mandatory (keys run.artifacts)))
        (memory_integrity "Agent run is missing its mandatory safety artifact")
    raise_if
        (contains brief_tool (keys run.artifacts)
          && not (contains brief_tool run.model_requested_safe_tools))
        (memory_integrity "Agent run brief was not requested by the model")
    check_artifacts run run.artifacts
    check_anchor run (proof_artifact run.artifacts)

  unfoldable pub check_copy : AgentRun → Authorization → Result (Unit {0})
  check_copy run auth =
      let state =
        if state_eq run.state halt_action_unavailable
        then halt_action_unavailable
        else auth.state in
      let copy = operator_copy state run.planning_degraded in
      raise_if (not (run.explanation == copy.0 && texts_eq run.operator_steps copy.1))
        (memory_integrity "Agent operator copy was modified")

  -- `_validate_run`
  unfoldable pub validate_run : Bool → AgentRun → Result (Unit {0})
  validate_run production run = do
    check_identity production run
    check_authority run (authorization run.decision.verdict)
    check_schema production run (authorization run.decision.verdict)
    check_actions run (authorization run.decision.verdict)
    check_copy run (authorization run.decision.verdict)
