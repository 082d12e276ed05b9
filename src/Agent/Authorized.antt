-- ===== src/Agent/Authorized.antt =====
-- What the agent may do under a verdict: what a checked run says, and what a run calls.
use proofops_memoryguard.Base.{
  String, Bool, true, false, Option, none, some, List, [], ◌∷◌, ◌≡◌, refl, sym, ap, ◌∙◌, inl, inr,
  ◌==◌, ◌&&◌, ◌||◌, not, IsIn, contains, all_by, concat, arith, subst,
}
use proofops_memoryguard.Errors.{
  Result, ok, raise_if, memory_conflict, bind_inversion, raise_if_inversion, ok-injective,
}
use proofops_memoryguard.Exec.{lift, attempt, exec_inversion, Returns, Returns-bind}
use proofops_memoryguard.Python.Runtime.{Runtime}
use proofops_memoryguard.Models.{
  DecisionDraft, Verdict, ready, deny, needs_human, memory_unavailable, verdict_value,
}
use proofops_memoryguard.Proof.{validate_decision}
use proofops_memoryguard.Proof.Decision.{IsBound, validate_decision-IsBound}
use proofops_memoryguard.Agent.Models.{ToolPhase, ToolEvent, AgentRun, GuardedPaymentGoal}
use proofops_memoryguard.Agent.Authority.{
  review_tool, registered_tools, authorization, stored_run_id, stored_request_hash,
  decision_fingerprint, goal_fingerprint, model_context, request_hash, run_id,
}
use proofops_memoryguard.Agent.Check.{
  check_event, check_events, is_call, has_hashes, is_unknown, is_forbidden, is_valid_state,
}
use proofops_memoryguard.Agent.Validate.{check_identity, check_authority, validate_run}
use proofops_memoryguard.Agent.Run.{Fresh, Trace, add_event, planned, suppress_all, unknown_tools}
use proofops_memoryguard.Guard.Decide as Deciding
use proofops_memoryguard.Python.Value.{Value, str, dict, fields}
use proofops_memoryguard.Agent.Claimed.{
  Agent, keep_run, run_tools, built_run, act_on, run_new, reuse_run, run_claimed, run,
}

-- No event of the trace says that a registered tool was called that the verdict does not allow.
abbrev pub Obeys : List String → List ToolEvent → Type 0
Obeys allowed trace =
    (e : ToolEvent)
    → IsIn e trace
    → contains e.tool registered_tools ≡ true
    → is_call e ≡ true
    → contains e.tool allowed ≡ true

check_event-allowed :
    (r : AgentRun) (allowed : List String) (e : ToolEvent)
    → check_event r allowed e ≡ ok tt
    → contains e.tool registered_tools ≡ true
    → is_call e ≡ true
    → contains e.tool allowed ≡ true
unfolding check_event
check_event-allowed r allowed e h known call =
    let (_, h1) = raise_if_inversion (not (has_hashes e)) _ _ h in
    let (_, h2) = raise_if_inversion (is_unknown e) _ _ h1 in
    let (fine, _) = raise_if_inversion (is_forbidden allowed e) _ _ h2 in
    ground (arith, fine, known, call)

check_events-Obeys :
    (r : AgentRun) (allowed : List String) (trace : List ToolEvent)
    → check_events r allowed trace ≡ ok tt
    → Obeys allowed trace
unfolding check_events
check_events-Obeys r allowed [] h e i known call = absurd i
check_events-Obeys r allowed (x ∷ xs) h e (inl p) known call =
    let (_, first, _) = bind_inversion (check_event r allowed x) _ h in
    rw p (
      check_event-allowed r allowed x first
        (ap (λ (y : ToolEvent). contains y.tool registered_tools) (sym p) ∙ known)
        (ap (λ (y : ToolEvent). is_call y) (sym p) ∙ call))
check_events-Obeys r allowed (x ∷ xs) h e (inr i) known call =
    let (_, first, rest) = bind_inversion (check_event r allowed x) _ h in
    check_events-Obeys r allowed xs rest e i known call

module _ ⦃runtime : Runtime⦄ where
  -- What a run that passed the check is known to be.
  pub record IsAuthorized (r : AgentRun) : Type 0 where
    pub inert : r.executable ≡ false
    pub bound : IsBound r.decision
    pub obeys : Obeys (authorization r.decision.verdict).allowed r.tool_trace

  check_identity-parts :
      (production : Bool) (r : AgentRun)
      → check_identity production r ≡ ok tt
      → (r.executable ≡ false) × IsBound r.decision
  unfolding check_identity
  check_identity-parts production r h =
      let (_, bound, h1) = bind_inversion (validate_decision r.decision) _ h in
      let (id, _, h2) = bind_inversion (stored_run_id r.decision) _ h1 in
      let (request, _, h3) = bind_inversion (stored_request_hash r.decision) _ h2 in
      let (_, h4) = raise_if_inversion (not (r.run_id == id && r.request_hash == request)) _ _ h3 in
      let (fingerprint, _, h5) = bind_inversion (decision_fingerprint r.decision) _ h4 in
      let (inert, _) =
        raise_if_inversion (r.executable || not (r.action_fingerprint == fingerprint)) _ _ h5 in
      (ground (arith, inert), (validate_decision-IsBound r.decision).0 bound)

  -- A run that passes the check carries no right to execute, stands on a bound decision, and records
  -- no call of a tool that its verdict forbids.
  pub validate_run-IsAuthorized :
      (production : Bool) (r : AgentRun) → validate_run production r ≡ ok tt → IsAuthorized r
  unfolding validate_run check_authority
  validate_run-IsAuthorized production r h =
      let (_, identity, h1) = bind_inversion (check_identity production r) _ h in
      let (_, authority, _) =
        bind_inversion (check_authority r (authorization r.decision.verdict)) _ h1 in
      let allowed = (authorization r.decision.verdict).allowed in
      let (_, a1) =
        raise_if_inversion (not (is_valid_state (authorization r.decision.verdict).state r.state)) _
          _ authority in
      let (_, a2) =
        raise_if_inversion
          (not (all_by (λ tool. contains tool allowed) r.model_requested_safe_tools)) _ _ a1 in
      let (inert, bound) = check_identity-parts production r identity in
      record { inert = inert; bound = bound; obeys = check_events-Obeys r _ r.tool_trace a2 }

  module _ {M : Type 0} (agent : Agent M) where
    keep_run-IsAuthorized :
        (r r' : AgentRun) (m : M) → (keep_run agent r m).0 ≡ ok r' → IsAuthorized r'
    unfolding keep_run
    keep_run-IsAuthorized r r' m h =
        let (_, valid, h1) = exec_inversion (lift (validate_run agent.production r)) _ m h in
        let (_, _, h2) = exec_inversion (agent.ledger.save r) _ m h1 in
        subst IsAuthorized (ok-injective h2) (validate_run-IsAuthorized agent.production r valid)

    keep_run-Returns : (r : AgentRun) → Returns IsAuthorized (keep_run agent r)
    keep_run-Returns r = record { at = λ m h. keep_run-IsAuthorized r _ m h }

    act_on-Returns :
        (fresh : Fresh) (id request fingerprint : String) (d : DecisionDraft) (trace : Trace)
        → Returns IsAuthorized (act_on agent fresh id request fingerprint d trace)
    unfolding act_on
    act_on-Returns fresh id request fingerprint d trace =
        let auth = authorization d.verdict in
        Returns-bind (lift (model_context d auth.state)) _ λ context.
          Returns-bind
            (lift (
              add_event fresh.clock trace "model.plan" ToolPhase.considered "bounded_planning"
                context none))
            _
            λ t1.
              Returns-bind
                (lift (
                  add_event fresh.clock t1 "model.plan" ToolPhase.called "bounded_planning" context
                    none))
                _
                λ t2. Returns-bind (attempt (agent.model.plan context auth.allowed)) _ λ answer.
                  Returns-bind (lift (planned fresh.clock id context t2 answer)) _ λ plan.
                    Returns-bind
                      (lift (
                        suppress_all fresh.clock d.decision_id
                          (unknown_tools plan.plan.requested_tools) plan.trace))
                      _
                      λ t3.
                        Returns-bind
                          (run_tools agent.actions fresh.clock d auth plan.plan.requested_tools
                            registered_tools
                            (record { artifacts = []; failed = false; trace = t3 }))
                          _
                          λ p.
                            keep_run-Returns
                              (built_run agent fresh id request fingerprint d auth plan p)

    run_new-Returns :
        (fresh : Fresh) (id request : String) (goal : GuardedPaymentGoal)
        → Returns IsAuthorized (run_new agent fresh id request goal)
    unfolding run_new
    run_new-Returns fresh id request goal =
        Returns-bind (lift (goal_fingerprint goal)) _ λ fingerprint.
          Returns-bind (lift (traced fingerprint [] ToolPhase.considered)) _ λ t1.
            Returns-bind (lift (traced fingerprint t1 ToolPhase.called)) _ λ t2.
              Returns-bind (Deciding.decide agent.memory agent.guard goal.intent fresh.deciding) _
                λ d.
                  Returns-bind
                    (lift (
                      add_event fresh.clock t2 "memoryguard.decide" ToolPhase.succeeded
                        (concat "verdict_" (verdict_value d.verdict)) (payload fingerprint)
                        (some (
                          dict (
                            fields (
                              ("decision_id", str d.decision_id)
                              ∷ ("proof_root", str d.proof_root)
                              ∷ []))))))
                    _ λ t3. act_on-Returns fresh id request fingerprint d t3
      where
        payload : String → Value
        payload fingerprint = dict (fields (("action_fingerprint", str fingerprint) ∷ []))

        traced : String → Trace → ToolPhase → Result Trace
        traced fingerprint trace phase =
            add_event fresh.clock trace "memoryguard.decide" phase "mandatory_authority"
              (payload fingerprint) none

    -- a stored run is returned only when it passes the check
    reuse_run-Returns :
        (fresh : Fresh) (id request : String) (goal : GuardedPaymentGoal) (found : Option AgentRun)
        → Returns IsAuthorized (reuse_run agent fresh id request goal found)
    unfolding reuse_run
    reuse_run-Returns fresh id request goal none = run_new-Returns fresh id request goal
    reuse_run-Returns fresh id request goal (some r) = record {
      at = λ m h.
          let (_, valid, k) = exec_inversion (lift (validate_run agent.production r)) _ m h in
          let (_, _, same) =
            exec_inversion
              (lift (
                raise_if (not (r.request_hash == request))
                  (memory_conflict "Agent idempotency key was reused for a different request")))
              _ m k in
          subst IsAuthorized (ok-injective same)
            (validate_run-IsAuthorized agent.production r valid);
    }

    run-Returns :
        (fresh : Fresh) (goal : GuardedPaymentGoal) → Returns IsAuthorized (run agent fresh goal)
    unfolding run run_claimed
    run-Returns fresh goal = Returns-bind (lift (request_hash goal)) _ λ request.
        Returns-bind (lift (run_id goal)) _ λ id.
          Returns-bind (agent.ledger.load id) _
            λ found. reuse_run-Returns fresh id request goal found

    only_review : (v : Verdict) → contains review_tool (authorization v).allowed ≡ true → v ≡ ready
    unfolding authorization contains
    only_review ready h = refl
    only_review deny h = cc
    only_review needs_human h = cc
    only_review memory_unavailable h = cc

    -- Whatever the model, the ledger and the actions answer, a run that the agent returns, new or
    -- stored, is not executable and stands on a bound decision, and its trace has a call of the review
    -- tool only if the verdict is READY.
    pub run-reviews_ready :
        (fresh : Fresh) (goal : GuardedPaymentGoal) (m : M) (r : AgentRun)
        → (run agent fresh goal m).0 ≡ ok r
        → (r.executable ≡ false)
          × IsBound r.decision
          × ((e : ToolEvent)
              → IsIn e r.tool_trace
              → e.tool ≡ review_tool
              → is_call e ≡ true
              → r.decision.verdict ≡ ready)
    unfolding contains
    run-reviews_ready fresh goal m r h =
        let v = (run-Returns fresh goal).at m h in
        (
          v.inert,
          v.bound,
          λ e i named call. only_review r.decision.verdict (
              subst (λ t. contains t (authorization r.decision.verdict).allowed ≡ true) named
                (v.obeys e i (ap (λ t. contains t registered_tools) named) call)),
        )
