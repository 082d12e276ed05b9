-- ===== src/Guard/Finalize.antt =====
-- `MemoryGuard.finalize` and `inspect_finalization`.
pub mod Results
use proofops_memoryguard.Base.{
  ℕ, String, Bool, true, false, Option, none, some, List, [], ◌∷◌, ◌++◌, ◌&&◌, ◌||◌, ◌==◌, not, eqb,
  leb, if◌then◌else◌,
}
use proofops_memoryguard.Errors.{
  Result, ok, err, Error, decision_not_found, finalization, memory_integrity, raise_if,
}
use proofops_memoryguard.Exec.{Exec, pure, raise, lift, ◌>>=◌, ◌>>◌}
use proofops_memoryguard.Python.Number.{Datetime}
use proofops_memoryguard.Python.Runtime.{Runtime}
use proofops_memoryguard.Models.{
  SubjectMemory, DecisionDraft, FinalizationResult, AnchorPlan, AnchorVerification, AnchorState,
  not_configured, local_finalized, confirmation_required, pending, verified, failed, Verdict, ready,
  verdict_eq,
}
use proofops_memoryguard.Policy.Classify.{has_text}
use proofops_memoryguard.Proof.{validate_subject, validate_decision}
use proofops_memoryguard.Ports.{MemoryPort, AnchorPort}
use proofops_memoryguard.Guard.{Guard}
use proofops_memoryguard.Guard.Checks.{validate_machine_identifier}

-- `or_raise` of an optional entry of the store
abbrev pub require : {A M : Type 0} → Option A → Error → Exec M A
require none e = raise e
require (some a) e = pure a

unfoldable pub memory_unchanged : DecisionDraft → SubjectMemory → Bool
memory_unchanged d current =
    eqb current.version d.memory_version && current.memory_root == d.memory_root

-- `existing.decision_id != decision.decision_id or ...`, negated
unfoldable pub matches_decision : FinalizationResult → DecisionDraft → Bool
matches_decision r d =
    r.decision_id == d.decision_id && verdict_eq r.verdict d.verdict && r.proof_root == d.proof_root

-- `state in {VERIFIED, LOCAL_FINALIZED, FAILED}`
unfoldable pub is_terminal : AnchorState → Bool
is_terminal verified = true
is_terminal local_finalized = true
is_terminal failed = true
is_terminal _ = false

abbrev pub is_verified : AnchorState → Bool
is_verified verified = true
is_verified _ = false

abbrev pub is_pending : AnchorState → Bool
is_pending pending = true
is_pending _ = false

abbrev tx_of : Option AnchorVerification → Option String
tx_of none = none
tx_of (some v) = v.tx_hash

abbrev pub same_text : Option String → Option String → Bool
same_text none none = true
same_text (some a) (some b) = a == b
same_text _ _ = false

abbrev has_verification : Option AnchorVerification → Bool
has_verification none = false
has_verification (some v) = true

-- What is done about a stored result: it is returned, refused, or the call goes on.
pub data Reuse : Type 0 where
  return_it : Reuse
  refuse : String → Reuse
  go_on : Reuse

unfoldable pub reuse : FinalizationResult → Option String → Reuse
reuse existing tx =
    if is_terminal existing.state
    then (if is_verified existing.state
          && has_text tx
          && not (same_text tx (tx_of existing.anchor_verification))
        then refuse "decision is already verified with a different transaction"
        else return_it)
    else if is_pending existing.state
        && has_text tx
        && has_verification existing.anchor_verification
        && not (same_text tx (tx_of existing.anchor_verification))
    then refuse "pending finalization is bound to a different transaction"
    else if not (has_text tx)
    then return_it
    else go_on

-- the result of a verification; `executable` is computed, reported and taken back
unfoldable pub verified_result : DecisionDraft → AnchorVerification → FinalizationResult
verified_result d v =
    let executable = verdict_eq d.verdict ready && is_verified v.state in
    record {
      decision_id = d.decision_id;
      verdict = d.verdict;
      state = v.state;
      proof_root = d.proof_root;
      executable = if executable then false else executable;
      anchor_plan = none;
      anchor_verification = some v;
      reason_codes =
          if executable
          then v.reason_codes ++ "execution_adapter_not_implemented" ∷ []
          else v.reason_codes;
    }

abbrev result_in : DecisionDraft → AnchorState → List String → FinalizationResult
result_in d state reasons = record {
  decision_id = d.decision_id;
  verdict = d.verdict;
  state = state;
  proof_root = d.proof_root;
  executable = false;
  anchor_plan = none;
  anchor_verification = none;
  reason_codes = reasons;
}

unfoldable pub planned_result : DecisionDraft → Option AnchorPlan → FinalizationResult
planned_result d (some plan) =
    record (result_in d confirmation_required ("user_wallet_confirmation_required" ∷ [])) {
      anchor_plan = some plan;
    }
planned_result d none =
    if verdict_eq d.verdict ready
    then result_in d failed ("base_anchor_required_before_ready_can_finalize" ∷ [])
    else result_in d local_finalized
        ("deny_or_review_finalized_locally" ∷ "base_anchor_not_configured" ∷ [])

module _ ⦃runtime : Runtime⦄ {M : Type 0} (port : MemoryPort M) where
  unfoldable pub save_result : FinalizationResult → Exec M FinalizationResult
  save_result r = do port.save_finalization r; pure r

  -- `if verification.state in {PENDING, VERIFIED}: save`
  unfoldable pub keep_verified : FinalizationResult → Exec M FinalizationResult
  keep_verified r = if is_pending r.state || is_verified r.state then save_result r else pure r

  unfoldable pub finalize_new :
      AnchorPort → DecisionDraft → Option String → Exec M FinalizationResult
  finalize_new anchor d (some tx) =
      if tx == ""
      then (do plan ← lift (anchor.plan d); save_result (planned_result d plan))
      else do v ← lift (anchor.verify d tx); keep_verified (verified_result d v)
  finalize_new anchor d none = do plan ← lift (anchor.plan d); save_result (planned_result d plan)

  unfoldable pub reuse_or_go_on :
      AnchorPort
      → DecisionDraft
      → Option String
      → FinalizationResult
      → Reuse
      → Exec M FinalizationResult
  reuse_or_go_on anchor d tx existing return_it = pure existing
  reuse_or_go_on anchor d tx existing (refuse why) = raise (finalization why)
  reuse_or_go_on anchor d tx existing go_on = finalize_new anchor d tx

  unfoldable pub finalize_checked :
      AnchorPort
      → DecisionDraft
      → Option String
      → Option FinalizationResult
      → Exec M FinalizationResult
  finalize_checked anchor d tx none = finalize_new anchor d tx
  finalize_checked anchor d tx (some existing) = do
    lift (
        raise_if (not (matches_decision existing d))
          (memory_integrity "stored finalization does not match decision proof"))
    reuse_or_go_on anchor d tx existing (reuse existing tx)

  -- the block `if decision.verdict == READY`
  unfoldable pub check_memory : DecisionDraft → Exec M (Unit {0})
  check_memory d = do
    found ← port.load_subject d.subject_ref
    current ← require found (finalization "decision subject memory is no longer available")
    lift (validate_subject current)
    lift (
        raise_if (not (memory_unchanged d current)) (
          finalization
            "subject memory changed after READY draft; decide again before finalization"))

  unfoldable pub check_ready : DecisionDraft → Exec M (Unit {0})
  check_ready d = if verdict_eq d.verdict ready then check_memory d else pure tt

  unfoldable pub finalize_decision :
      Guard
      → AnchorPort
      → DecisionDraft
      → String
      → Option String
      → Datetime
      → Exec M FinalizationResult
  finalize_decision g anchor d decision_id tx now = do
    lift (validate_decision d)
    lift (
        raise_if (leb d.expires_at.instant now.instant)
          (finalization "decision draft expired; decide again"))
    lift (
        raise_if (not (d.policy_hash == g.policy_hash))
          (finalization "decision policy changed; decide again before finalization"))
    check_ready d
    existing ← port.load_finalization decision_id
    finalize_checked anchor d tx existing

  unfoldable pub finalize :
      Guard → AnchorPort → String → Option String → Datetime → Exec M FinalizationResult
  finalize g anchor decision_id tx now = do
    lift (validate_machine_identifier "decision_id" decision_id)
    found ← port.load_decision decision_id
    d ← require found (decision_not_found "decision was not found")
    finalize_decision g anchor d decision_id tx now

  unfoldable pub inspect_finalization : String → Exec M FinalizationResult
  inspect_finalization decision_id = do
    lift (validate_machine_identifier "decision_id" decision_id)
    found ← port.load_decision decision_id
    d ← require found (decision_not_found "decision was not found")
    lift (validate_decision d)
    stored ← port.load_finalization decision_id
    r ← require stored (decision_not_found "decision has not been finalized")
    lift (
        raise_if (not (matches_decision r d))
          (memory_integrity "stored finalization does not match decision proof"))
    pure r
