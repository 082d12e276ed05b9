-- ===== src/Proof.antt =====
-- src/proofops_memoryguard/proof.py: the payloads that are hashed, and the checks of a subject's
-- hash chain and of a decision's proof root.
pub mod Content
pub mod Chain
pub mod Decision
pub mod Tests
use proofops_memoryguard.Base.{
  ℕ, String, Bool, true, false, Option, none, some, List, [], ◌∷◌, ◌==◌, not, Dict, eqb, length,
}
use proofops_memoryguard.Errors.{Result, ok, err, memory_integrity, ◌>>=◌, ◌>>◌, raise_if}
use proofops_memoryguard.Canonical.{zero_hash, domain_hash}
use proofops_memoryguard.Python.Number.{ℤ, pos}
use proofops_memoryguard.Python.Value.{
  Value, null, bool, int, float, str, dict, fields, strings, optional_str,
}
use proofops_memoryguard.Python.Runtime.{Runtime}
use proofops_memoryguard.Models.{
  StoredObservation, SubjectMemory, PaymentIntent, DecisionDraft, kind_value, mode_value,
  status_value, verdict_value,
}

module _ ⦃runtime : Runtime⦄ where
  open runtime use {lower, isoformat}

  unfoldable pub observation_hash_payload : StoredObservation → Value
  observation_hash_payload item = dict (
      fields (
        ("observation_id", str item.observation_id)
        ∷ ("subject_ref", str item.subject_ref)
        ∷ ("session_id", str item.session_id)
        ∷ ("kind", str (kind_value item.kind))
        ∷ ("source_id", str item.source_id)
        ∷ ("evidence_mode", str (mode_value item.evidence_mode))
        ∷ ("status", str (status_value item.status))
        ∷ ("accepted_facts", dict (fields item.accepted_facts))
        ∷ ("quarantined_fields", strings item.quarantined_fields)
        ∷ ("reason_codes", strings item.reason_codes)
        ∷ ("raw_text_hash", optional_str item.raw_text_hash)
        ∷ ("idempotency_key", str item.idempotency_key)
        ∷ ("observed_at", str (isoformat item.observed_at))
        ∷ ("previous_hash", str item.previous_hash)
        ∷ []))

  unfoldable pub compute_observation_hash : StoredObservation → Result String
  compute_observation_hash item = domain_hash "observation" (observation_hash_payload item)

  -- the loop of `validate_subject`, which returns the last `previous`
  unfoldable pub check_chain : String → String → List StoredObservation → Result String
  check_chain ref previous [] = ok previous
  check_chain ref previous (item ∷ rest) = do
    raise_if (not (item.subject_ref == ref)) (memory_integrity "cross-subject observation detected")
    raise_if (not (item.previous_hash == previous))
        (memory_integrity "observation hash chain is broken")
    expected ← compute_observation_hash item
    raise_if (not (item.observation_hash == expected))
        (memory_integrity "observation content hash mismatch")
    check_chain ref expected rest

  unfoldable pub validate_subject : SubjectMemory → Result (Unit {0})
  validate_subject subject = do
    raise_if (not (eqb subject.version (length subject.observations)))
        (memory_integrity "memory version does not match observation count")
    previous ← check_chain subject.subject_ref zero_hash subject.observations
    raise_if (not (subject.memory_root == previous))
        (memory_integrity "subject memory root mismatch")

  unfoldable pub intent_hash_payload : PaymentIntent → Value
  intent_hash_payload intent = dict (
      fields (
        ("subject_ref", str intent.subject_id)
        ∷ ("chain_id", int intent.chain_id)
        ∷ ("target", str (lower intent.target))
        ∷ ("method", str intent.method)
        ∷ ("amount_usd", float intent.amount_usd)
        ∷ ("evidence_mode", str (mode_value intent.evidence_mode))
        ∷ []))

  unfoldable pub compute_intent_hash : PaymentIntent → Result String
  compute_intent_hash intent = domain_hash "intent" (intent_hash_payload intent)

  unfoldable pub decision_proof_payload : DecisionDraft → Value
  decision_proof_payload d = dict (
      fields (
        ("decision_id", str d.decision_id)
        ∷ ("subject_ref", str d.subject_ref)
        ∷ ("session_id", str d.session_id)
        ∷ ("verdict", str (verdict_value d.verdict))
        ∷ ("reason_codes", strings d.reason_codes)
        ∷ ("causal_memory_ids", strings d.causal_memory_ids)
        ∷ ("cross_session", bool d.cross_session)
        ∷ ("memory_version", int (pos d.memory_version))
        ∷ ("memory_root", str d.memory_root)
        ∷ ("policy_hash", str d.policy_hash)
        ∷ ("intent_hash", str d.intent_hash)
        ∷ ("nonce", str d.nonce)
        ∷ ("created_at", str (isoformat d.created_at))
        ∷ ("expires_at", str (isoformat d.expires_at))
        ∷ []))

  unfoldable pub compute_decision_proof_root : DecisionDraft → Result String
  compute_decision_proof_root d = domain_hash "decision-proof" (decision_proof_payload d)

  unfoldable pub validate_decision : DecisionDraft → Result (Unit {0})
  validate_decision d = do
    raise_if (not (d.intent.subject_id == d.subject_ref))
        (memory_integrity "decision intent subject does not match subject reference")
    raise_if (not (d.intent.session_id == d.session_id))
        (memory_integrity "decision intent session does not match decision session")
    intent_hash ← compute_intent_hash d.intent
    raise_if (not (intent_hash == d.intent_hash)) (memory_integrity "decision intent hash mismatch")
    proof_root ← compute_decision_proof_root d
    raise_if (not (proof_root == d.proof_root)) (memory_integrity "decision proof root mismatch")
