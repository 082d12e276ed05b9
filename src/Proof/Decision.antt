-- ===== src/Proof/Decision.antt =====
-- What `validate_decision` accepts, and what a decision's proof root binds.
use proofops_memoryguard.Base.{
  String, true, not, ◌≡◌, ap, ◌∙◌, ◌==◌, ◌↔◌, arith, not_ne-eq, eq_iff, eq_refl, Bool-cases, inl,
  inr,
}
use proofops_memoryguard.Errors.{Error, ok, raise_if, bind_inversion, raise_if_inversion}
use proofops_memoryguard.Canonical.{normalize, canonical_json, domain_hash}
use proofops_memoryguard.Python.Number.{is_finite}
use proofops_memoryguard.Python.Value.{fields}
use proofops_memoryguard.Python.Runtime.{Runtime}
use proofops_memoryguard.Models.{DecisionDraft, PaymentIntent}
use proofops_memoryguard.Proof.{
  intent_hash_payload, compute_intent_hash, compute_decision_proof_root, validate_decision,
}

module _ ⦃runtime : Runtime⦄ where
  -- An independent description of a decision that is bound to its intent and its proof.
  pub record IsBound (d : DecisionDraft) : Type 0 where
    pub subject : d.intent.subject_id ≡ d.subject_ref
    pub session : d.intent.session_id ≡ d.session_id
    pub intent : compute_intent_hash d.intent ≡ ok d.intent_hash
    pub proof : compute_decision_proof_root d ≡ ok d.proof_root

  last_check : (a b : String) → (e : Error) → raise_if (not (a == b)) e ≡ ok tt → a ≡ b
  last_check a b e h = ground (arith, eq_iff a b)

  -- The check accepts exactly the decisions that are bound.
  pub validate_decision-IsBound : (d : DecisionDraft) → (validate_decision d ≡ ok tt) ↔ IsBound d
  unfolding validate_decision
  validate_decision-IsBound d = (sound, complete)
    where
      sound : validate_decision d ≡ ok tt → IsBound d
      sound h =
          let (subject, h1) =
            raise_if_inversion (not (d.intent.subject_id == d.subject_ref)) _ _ h in
          let (session, h2) =
            raise_if_inversion (not (d.intent.session_id == d.session_id)) _ _ h1 in
          let (ih, hashed, h3) = bind_inversion (compute_intent_hash d.intent) _ h2 in
          let (same, h4) = raise_if_inversion (not (ih == d.intent_hash)) _ _ h3 in
          let (root, rooted, h5) = bind_inversion (compute_decision_proof_root d) _ h4 in
          record {
            subject = not_ne-eq d.intent.subject_id d.subject_ref subject;
            session = not_ne-eq d.intent.session_id d.session_id session;
            intent = hashed ∙ ap ok (not_ne-eq ih d.intent_hash same);
            proof = rooted ∙ ap ok (last_check root d.proof_root _ h5);
          }

      complete : IsBound d → validate_decision d ≡ ok tt
      complete v = rw (
        (eq_iff d.intent.subject_id d.subject_ref).1 v.subject,
        (eq_iff d.intent.session_id d.session_id).1 v.session,
        v.intent,
        eq_refl d.intent_hash,
        v.proof,
        eq_refl d.proof_root,
      )

  -- An intent whose amount is not a finite number has no hash, so no decision on it is bound.
  pub compute_intent_hash-finite :
      (intent : PaymentIntent) (h : String)
      → compute_intent_hash intent ≡ ok h
      → is_finite intent.amount_usd ≡ true
  unfolding compute_intent_hash intent_hash_payload domain_hash canonical_json normalize fields
  compute_intent_hash-finite intent h e = elim (Bool-cases (is_finite intent.amount_usd)) [
    | inl finite ↦ finite
    | inr infinite ↦ absurd (ground (arith, rw infinite at e))
  ]
