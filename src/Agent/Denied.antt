-- ===== src/Agent/Denied.antt =====
-- Without READY, no review is prepared.
use proofops_memoryguard.Base.{
  ℕ, String, false, none, List, [], ◌∷◌, ◌≡◌, ◌≢◌, refl, ap, ◌∙◌, ◌==◌, contains, Bool-cases, inl,
  inr, eq_iff,
}
use mathlib.Core.Path.{fun_ext}
use proofops_memoryguard.Exec.{Exec, lift, attempt, ◌>>=◌}
use proofops_memoryguard.Python.Number.{Datetime}
use proofops_memoryguard.Python.Value.{Value}
use proofops_memoryguard.Python.Runtime.{Runtime}
use proofops_memoryguard.Models.{
  DecisionDraft, Verdict, ready, deny, needs_human, memory_unavailable,
}
use proofops_memoryguard.Agent.Models.{ToolPhase}
use proofops_memoryguard.Agent.Authority.{
  review_tool, registered_tools, authorization, model_context,
}
use proofops_memoryguard.Agent.Run.{
  SafetyActions, Fresh, Trace, Progress, call_action, add_event, planned, suppress_all,
  unknown_tools,
}
use proofops_memoryguard.Agent.Claimed.{
  Agent, Choice, forbidden, unrequested, calls, choice, carry_out, run_tools, act_on, built_run,
  keep_run, tool_input,
}

-- The same actions, but for the one that prepares a review.
abbrev pub with_review :
    {M : Type 0} → (DecisionDraft → Exec M Value) → SafetyActions M → SafetyActions M
with_review review actions = record actions { prepare_review = review }

not_allowed : (v : Verdict) → v ≢ ready → contains review_tool (authorization v).allowed ≡ false
unfolding authorization contains
not_allowed ready h = absurd (h refl)
not_allowed deny h = refl
not_allowed needs_human h = refl
not_allowed memory_unavailable h = refl

review_forbidden :
    (v : Verdict) (requested : List String)
    → v ≢ ready
    → choice (authorization v) requested review_tool ≡ forbidden
unfolding choice
review_forbidden v requested h = rw (not_allowed v h) refl

-- Calls that go on alike are alike.
bind_same :
    {M A B : Type 0} (act : Exec M A) (f g : A → Exec M B)
    → ((a : A) → f a ≡ g a)
    → (act >>= f) ≡ (act >>= g)
bind_same act f g h = ap (λ k. act >>= k) (fun_ext h)

module _ ⦃runtime : Runtime⦄ {M : Type 0} where
  other_tool :
      (actions : SafetyActions M) (review : DecisionDraft → Exec M Value) (tool : String)
      (d : DecisionDraft)
      → tool == review_tool ≡ false
      → call_action (with_review review actions) tool d ≡ call_action actions tool d
  unfolding call_action
  other_tool actions review tool d h = rw h refl

  carry_out-with_review :
      (actions : SafetyActions M) (review : DecisionDraft → Exec M Value) (clock : ℕ → Datetime)
      (d : DecisionDraft) (requested : List String) (tool : String) (p : Progress) (trace : Trace)
      → d.verdict ≢ ready
      → carry_out
          (with_review review actions)
          clock
          d
          tool
          p
          trace
          (choice (authorization d.verdict) requested tool)
        ≡ carry_out actions clock d tool p trace (choice (authorization d.verdict) requested tool)
  unfolding carry_out
  carry_out-with_review actions review clock d requested tool p trace h =
      elim (Bool-cases (tool == review_tool)) [
        | inl e ↦ rw ((eq_iff tool review_tool).0 e, review_forbidden d.verdict requested h) refl
        | inr e ↦ other (choice (authorization d.verdict) requested tool) e
      ]
    where
      other :
          (c : Choice)
          → tool == review_tool ≡ false
          → carry_out (with_review review actions) clock d tool p trace c
            ≡ carry_out actions clock d tool p trace c
      other forbidden e = refl
      other unrequested e = refl
      other (calls reason) e = rw (other_tool actions review tool d e) refl

  run_tools-with_review :
      (actions : SafetyActions M) (review : DecisionDraft → Exec M Value) (clock : ℕ → Datetime)
      (d : DecisionDraft) (requested tools : List String) (p : Progress)
      → d.verdict ≢ ready
      → run_tools (with_review review actions) clock d (authorization d.verdict) requested tools p
        ≡ run_tools actions clock d (authorization d.verdict) requested tools p
  unfolding run_tools
  run_tools-with_review actions review clock d requested [] p h = refl
  run_tools-with_review actions review clock d requested (tool ∷ rest) p h =
      bind_same
        (lift (
          add_event clock p.trace tool ToolPhase.considered "closed_tool_registry" (tool_input d)
            none))
        _ _
        λ t.
          ap
            (λ act. act >>= λ p'.
              run_tools (with_review review actions) clock d (authorization d.verdict) requested
                rest p')
            (carry_out-with_review actions review clock d requested tool p t h)
          ∙ bind_same
              (carry_out actions clock d tool p t (choice (authorization d.verdict) requested tool))
              _ _ λ p'. run_tools-with_review actions review clock d requested rest p' h

  -- If the verdict of a decision is not READY, the run around it is the same whatever the action that
  -- prepares a review would do: it is never called.
  pub act_on-never_reviews :
      (agent : Agent M) (review : DecisionDraft → Exec M Value) (fresh : Fresh)
      (id request fingerprint : String) (d : DecisionDraft) (trace : Trace)
      → d.verdict ≢ ready
      → act_on
          (record agent { actions = with_review review agent.actions })
          fresh
          id
          request
          fingerprint
          d
          trace
        ≡ act_on agent fresh id request fingerprint d trace
  unfolding act_on built_run keep_run
  act_on-never_reviews agent review fresh id request fingerprint d trace h =
      let auth = authorization d.verdict in
      bind_same (lift (model_context d auth.state)) _ _ λ context.
        bind_same
          (lift (
            add_event fresh.clock trace "model.plan" ToolPhase.considered "bounded_planning" context
              none))
          _ _
          λ t1.
            bind_same
              (lift (
                add_event fresh.clock t1 "model.plan" ToolPhase.called "bounded_planning" context
                  none))
              _ _
              λ t2. bind_same (attempt (agent.model.plan context auth.allowed)) _ _ λ answer.
                bind_same (lift (planned fresh.clock id context t2 answer)) _ _ λ plan.
                  bind_same
                    (lift (
                      suppress_all fresh.clock d.decision_id
                        (unknown_tools plan.plan.requested_tools) plan.trace))
                    _ _
                    λ t3.
                      ap
                        (λ act. act >>= λ p.
                          keep_run agent
                            (built_run agent fresh id request fingerprint d auth plan p))
                        (run_tools-with_review agent.actions review fresh.clock d
                          plan.plan.requested_tools registered_tools
                          (record { artifacts = []; failed = false; trace = t3 }) h)
