-- ===== src/Agent/Resumed.antt =====
-- What a human signal can and cannot do to a run.
use proofops_memoryguard.Base.{
  String, Bool, true, false, Option, none, some, ◌≡◌, refl, sym, ◌==◌, if◌then◌else◌, Bool-cases,
  inl, inr, subst, get, ◌⊎◌, ◌∙◌, ap,
}
use proofops_memoryguard.Errors.{
  Error, Result, ok, err, value_error, finalization, decision_not_found, ok-injective,
}
use proofops_memoryguard.Exec.{
  pure, raise, lift, attempt, ◌>>=◌, exec_inversion, Returns, Returns-bind, and_then,
}
use proofops_memoryguard.Python.Value.{Value}
use proofops_memoryguard.Python.Runtime.{Runtime}
use proofops_memoryguard.Models.{FinalizationResult, failed}
use proofops_memoryguard.Ports.{AnchorPort}
use proofops_memoryguard.Proof.Decision.{IsBound}
use proofops_memoryguard.Guard.Finalize as Finalizing
use proofops_memoryguard.Guard.Finalize.{require, is_verified}
use proofops_memoryguard.Agent.Models.{
  AgentState, block_and_redecide, halt_action_unavailable, degraded_safe_only, cancelled, AgentRun,
}
use proofops_memoryguard.Agent.Validate.{validate_run, prepare_tool, verify_tool}
use proofops_memoryguard.Agent.Run.{Trace}
use proofops_memoryguard.Agent.Claimed.{Agent, inspect}
use proofops_memoryguard.Agent.Authorized.{IsAuthorized, validate_run-IsAuthorized}
use proofops_memoryguard.Agent.Resume.{
  AgentHumanSignal, Fresh, is_stopped, stays_on_cancel, cancel, prepare_anchor, verified_run,
  verify_anchor, confirm_verified, is_tx, observe_transaction, on_signal, resume, anchored,
  open_call, close_call, cancel_trace, failed_trace, decision_payload, tx_payload, prepared_phase,
  verified_phase, verified_tx, result_value, failure_value,
}

-- the states in which a run is final
abbrev pub IsFinal : AgentState → Type 0
IsFinal s =
    (s ≡ cancelled)
    ⊎ (s ≡ halt_action_unavailable)
    ⊎ (s ≡ degraded_safe_only)
    ⊎ (s ≡ block_and_redecide)

IsFinal-is_stopped :
    (s : AgentState) → IsFinal s → (is_stopped s ≡ true) × (stays_on_cancel s ≡ true)
unfolding is_stopped stays_on_cancel
IsFinal-is_stopped s (inl e) = rw e (refl, refl)
IsFinal-is_stopped s (inr (inl e)) = rw e (refl, refl)
IsFinal-is_stopped s (inr (inr (inl e))) = rw e (refl, refl)
IsFinal-is_stopped s (inr (inr (inr e))) = rw e (refl, refl)

module _ ⦃runtime : Runtime⦄ {M : Type 0} (agent : Agent M) (anchor : AnchorPort) where
  on_signal-final :
      (fresh : Fresh) (r : AgentRun) (signal : AgentHumanSignal) (m : M)
      → IsFinal r.state
      → on_signal agent anchor fresh r signal m ≡ (
        if signal.kind == "cancel"
            then ok r
            else err (value_error "this Agent run cannot continue"),
        m,
      )
  unfolding on_signal
  on_signal-final fresh r signal m h =
      let (stopped, stays) = IsFinal-is_stopped r.state h in
      elim (Bool-cases (signal.kind == "cancel")) [
        | inl e ↦ rw (e, stays) refl
        | inr e ↦ rw (e, stopped) refl
      ]

  -- A stored run that passes its checks and that is cancelled, halted because the action is unavailable,
  -- degraded to safe steps or blocked until a new decision is final: `resume` returns it as it is to a
  -- cancellation and raises on any other signal, and leaves the memory as reading the run left it.
  pub resume-final :
      (fresh : Fresh) (id : String) (signal : AgentHumanSignal) (m : M) (r : AgentRun)
      → (inspect agent id m).0 ≡ ok r
      → IsFinal r.state
      → resume agent anchor fresh id signal m ≡ (
        if signal.kind == "cancel"
            then ok r
            else err (value_error "this Agent run cannot continue"),
        (inspect agent id m).1,
      )
  unfolding resume
  resume-final fresh id signal m r found h =
      ap (λ x. and_then (λ b. on_signal agent anchor fresh b signal) x (inspect agent id m).1) found
      ∙ on_signal-final fresh r signal (inspect agent id m).1 h

  -- not executable, and on the decision of the run before
  abbrev Follows : AgentRun → AgentRun → Type 0
  Follows r r' = (r'.executable ≡ false) × (r'.decision ≡ r.decision)

  saved-Returns :
      (r r' : AgentRun) → Follows r r' → Returns (Follows r) (agent.ledger.save r' >>= λ _. pure r')
  saved-Returns r r' f = record {
    at = λ m h.
        let (_, _, k) = exec_inversion (agent.ledger.save r') (λ _. pure r') m h in
        subst (Follows r) (ok-injective k) f;
  }

  pure-Returns : (r r' : AgentRun) → Follows r r' → Returns {M = M} (Follows r) (pure r')
  pure-Returns r r' f = record { at = λ m h. subst (Follows r) (ok-injective h) f }

  raise-Returns : (r : AgentRun) (e : Error) → Returns {M = M} (Follows r) (raise e)
  raise-Returns r e = record { at = λ m h. cc }

  cancel-Returns :
      (fresh : Fresh) (r : AgentRun)
      → r.executable ≡ false
      → Returns (Follows r) (cancel agent anchor fresh r)
  unfolding cancel
  cancel-Returns fresh r inert =
      Returns-bind (lift (cancel_trace agent anchor fresh r)) _ λ t. saved-Returns r _ (inert, refl)

  prepare_anchor-Returns :
      (fresh : Fresh) (r : AgentRun) → Returns (Follows r) (prepare_anchor agent anchor fresh r)
  unfolding prepare_anchor anchored
  prepare_anchor-Returns fresh r =
      Returns-bind
        (lift (
          open_call agent anchor fresh r prepare_tool "human_request"
            (decision_payload agent anchor r)))
        _
        λ t.
          Returns-bind
            (Finalizing.finalize agent.memory agent.guard anchor r.decision.decision_id none
              fresh.finalized_at)
            _
            λ result.
              Returns-bind
                (lift (
                  close_call agent anchor fresh t prepare_tool (prepared_phase result.state)
                    (decision_payload agent anchor r) result))
                _
                λ t'.
                  saved-Returns r
                    (anchored fresh r prepare_tool result.state (result_value result) t')
                    (refl, refl)

  verified_run-Returns :
      (fresh : Fresh) (r : AgentRun) (payload : Value) (t : Trace)
      (answer : Result FinalizationResult)
      → Returns (Follows r) (verified_run agent anchor fresh r payload t answer)
  unfolding verified_run anchored
  verified_run-Returns fresh r payload t (ok result) =
      Returns-bind
        (lift (
          close_call agent anchor fresh t verify_tool (verified_phase result.state) payload result))
        _
        λ t'.
          saved-Returns r (anchored fresh r verify_tool result.state (result_value result) t')
            (refl, refl)
  verified_run-Returns fresh r payload t (err (finalization why)) =
      Returns-bind (lift (failed_trace agent anchor fresh r payload t)) _ λ t'.
        saved-Returns r
          (record (anchored fresh r verify_tool failed (failure_value r) t') {
            state = block_and_redecide;
          })
          (refl, refl)
  verified_run-Returns fresh r payload t (err e) = raise-Returns r e

  verify_anchor-Returns :
      (fresh : Fresh) (r : AgentRun) (tx : String)
      → Returns (Follows r) (verify_anchor agent anchor fresh r tx)
  unfolding verify_anchor
  verify_anchor-Returns fresh r tx =
      Returns-bind
        (lift (
          open_call agent anchor fresh r verify_tool "human_wallet_signal"
            (tx_payload agent anchor r tx)))
        _
        λ t.
          Returns-bind
            (attempt (
              Finalizing.finalize agent.memory agent.guard anchor r.decision.decision_id (some tx)
                fresh.finalized_at))
            _ λ answer. verified_run-Returns fresh r (tx_payload agent anchor r tx) t answer

  confirm_verified-Returns :
      (r : AgentRun) (tx : String)
      → r.executable ≡ false
      → Returns (Follows r) (confirm_verified agent anchor r tx)
  unfolding confirm_verified
  confirm_verified-Returns r tx inert =
      Returns-bind (lift (verified_tx (get verify_tool r.artifacts))) _
        λ stored. either (is_tx tx stored)
    where
      either :
          (same : Bool)
          → Returns {M = M} (Follows r) (
              if same
              then pure r
              else raise (value_error "Agent run is already anchored by a different transaction"))
      either true = pure-Returns r r (inert, refl)
      either false = raise-Returns r _

  observe_transaction-Returns :
      (fresh : Fresh) (r : AgentRun) (tx : Option String)
      → r.executable ≡ false
      → Returns (Follows r) (observe_transaction agent anchor fresh r tx)
  unfolding observe_transaction
  observe_transaction-Returns fresh r none inert = raise-Returns r _
  observe_transaction-Returns fresh r (some tx) inert = elim (Bool-cases (tx == "")) [
    | inl e ↦ rw e (raise-Returns r _)
    | inr e ↦ elim (Bool-cases (is_verified r.anchor_state)) [
      | inl v ↦ rw (e, v) (confirm_verified-Returns r tx inert)
      | inr v ↦ rw (e, v) (verify_anchor-Returns fresh r tx)
    ]
  ]

  on_signal-Returns :
      (fresh : Fresh) (r : AgentRun) (signal : AgentHumanSignal)
      → r.executable ≡ false
      → Returns (Follows r) (on_signal agent anchor fresh r signal)
  unfolding on_signal
  on_signal-Returns fresh r signal inert =
      branch (signal.kind == "cancel") (stays_on_cancel r.state) (is_stopped r.state)
        (signal.kind == "prepare_anchor") (signal.kind == "anchor_transaction_observed")
    where
      branch :
          (cancels stays stopped prepares observes : Bool)
          → Returns (Follows r) (
              if cancels
              then (if stays then pure r else cancel agent anchor fresh r)
              else if stopped
              then raise (value_error "this Agent run cannot continue")
              else if prepares
              then prepare_anchor agent anchor fresh r
              else if observes
              then observe_transaction agent anchor fresh r signal.confirmation_tx_hash
              else raise (
                  value_error
                    "resume accepts only cancel, prepare_anchor, or anchor_transaction_observed"))
      branch true true stopped prepares observes = pure-Returns r r (inert, refl)
      branch true false stopped prepares observes = cancel-Returns fresh r inert
      branch false stays true prepares observes = raise-Returns r _
      branch false stays false true observes = prepare_anchor-Returns fresh r
      branch false stays false false true =
          observe_transaction-Returns fresh r signal.confirmation_tx_hash inert
      branch false stays false false false = raise-Returns r _

  inspect-Returns : (id : String) → Returns IsAuthorized (inspect agent id)
  unfolding inspect
  inspect-Returns id = Returns-bind (agent.ledger.load id) _ λ stored.
      Returns-bind (require stored (decision_not_found "Agent run was not found")) _ λ r. record {
        at = λ m h.
            let (_, valid, k) = exec_inversion (lift (validate_run agent.production r)) _ m h in
            subst IsAuthorized (ok-injective k)
              (validate_run-IsAuthorized agent.production r valid);
      }

  -- Whatever the signal, the guard and the ports answer, a run that `resume` returns is not
  -- executable and stands on a bound decision.
  pub resume-inert :
      (fresh : Fresh) (id : String) (signal : AgentHumanSignal) (m : M) (r : AgentRun)
      → (resume agent anchor fresh id signal m).0 ≡ ok r
      → (r.executable ≡ false) × IsBound r.decision
  unfolding resume
  resume-inert fresh id signal m r h =
      let (before, found, k) =
        exec_inversion (inspect agent id) (λ b. on_signal agent anchor fresh b signal) m h in
      let v = (inspect-Returns id).at m found in
      let (inert, same) =
        (on_signal-Returns fresh before signal v.inert).at (inspect agent id m).1 k in
      (inert, subst IsBound (sym same) v.bound)
