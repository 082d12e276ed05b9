-- ===== src/Guard/Decide/Drafts.antt =====
-- How a call of `decide` ends: refused with the store as it was, or with one saved draft that is
-- bound to the intent, the memory and the policy it was decided on.
use proofops_memoryguard.Base.{
  ℕ, ◌+◌, ◌*◌, ◌<◌, ◌≤◌, String, true, false, ◌≡◌, refl, sym, ap, ◌∙◌, subst, not, arith,
  if◌then◌else◌,
}
use proofops_memoryguard.Errors.{
  Error, Result, ok, err, raise_if_inversion, bind_inversion, raise_if_last, ok-injective,
}
use proofops_memoryguard.Exec.{lift_ends, ◌>>=◌}
use proofops_memoryguard.Canonical.{subject_ref}
use proofops_memoryguard.Python.Number.{
  Float, nan, infinity, neg_infinity, finite, pos, negsuc, units, is_finite, int_as_float, in_units,
  float_le, float_gt, float_zero, million,
}
use proofops_memoryguard.Python.Runtime.{Runtime}
use proofops_memoryguard.Models.{PaymentIntent, SubjectMemory, DecisionDraft}
use proofops_memoryguard.Policy.Decide
use proofops_memoryguard.Policy.Decide.{PolicyDecision}
use proofops_memoryguard.Policy.Facts.{is_method, is_base_chain, is_evm_address}
use proofops_memoryguard.Proof.{
  validate_subject, compute_intent_hash, compute_decision_proof_root, validate_decision,
}
use proofops_memoryguard.Proof.Decision.{
  IsBound, validate_decision-IsBound, compute_intent_hash-finite,
}
use proofops_memoryguard.Ports.{MemoryPort, IsAvailable}
use proofops_memoryguard.Guard.{Guard}
use proofops_memoryguard.Guard.Checks.{
  check_intent, validate_identifier, validate_machine_identifier, default_limits, method_limits,
}
use proofops_memoryguard.Guard.Observe.{or_empty}
use proofops_memoryguard.Guard.Decide.{
  Fresh, add_seconds, safe_intent, draft_of, rooted, save_draft, decide_subject, decide,
}

module _ ⦃runtime : Runtime⦄ where
  -- What a draft says of the memory, the policy and the intent that it was decided on.
  pub record Records (g : Guard) (intent : PaymentIntent) (fresh : Fresh) (s : SubjectMemory)
      (p : PolicyDecision) (d : DecisionDraft) : Type 0 where
    pub verdict : d.verdict ≡ p.verdict
    pub reasons : d.reason_codes ≡ p.reason_codes
    pub causal : d.causal_memory_ids ≡ p.causal_memory_ids
    pub version : d.memory_version ≡ s.version
    pub root : d.memory_root ≡ s.memory_root
    pub policy : d.policy_hash ≡ g.policy_hash
    pub amount : d.intent.amount_usd ≡ intent.amount_usd
    pub expiry : d.expires_at.instant ≡ fresh.created_at.instant + g.decision_ttl * 1000000

  draft_of-Records :
      (g : Guard) (ref : String) (s : SubjectMemory) (intent : PaymentIntent) (p : PolicyDecision)
      (hash root : String) (fresh : Fresh)
      → Records g intent fresh s p
          (rooted (draft_of g ref s intent (safe_intent ref intent) p hash fresh) root)
  unfolding draft_of safe_intent add_seconds
  draft_of-Records g ref s intent p hash root fresh = record {
    verdict = refl;
    reasons = refl;
    causal = refl;
    version = refl;
    root = refl;
    policy = refl;
    amount = refl;
    expiry = refl;
  }

  -- In (0, 1,000,000], as a whole number of units: neither a NaN nor an infinity.
  abbrev pub IsBounded : Float → Type 0
  IsBounded f = (n : ℕ) × (f ≡ finite (pos n)) × (0 < n) × (n ≤ 1000000 * units)

  -- The range test alone lets a NaN pass.
  in_range-IsBounded :
      (f : Float)
      → is_finite f ≡ true
      → (if float_le f float_zero then true else float_gt f million) ≡ false
      → IsBounded f
  unfolding is_finite float_le float_gt million int_as_float in_units
  in_range-IsBounded nan h r = absurd (cc h)
  in_range-IsBounded infinity h r = absurd (cc h)
  in_range-IsBounded neg_infinity h r = absurd (cc h)
  in_range-IsBounded (finite (negsuc n)) h r = absurd (ground arith)
  in_range-IsBounded (finite (pos n)) h r = (n, refl, ground arith, ground arith)

  check_intent-in_range :
      (intent : PaymentIntent)
      → check_intent intent ≡ ok tt
      → (if float_le intent.amount_usd float_zero then true else float_gt intent.amount_usd million)
        ≡ false
  unfolding check_intent
  check_intent-in_range intent h =
      let (_, _, h1) =
        bind_inversion (validate_identifier default_limits "subject_id" intent.subject_id) _ h in
      let (_, _, h2) =
        bind_inversion (validate_machine_identifier "session_id" intent.session_id) _ h1 in
      let (_, _, h3) =
        bind_inversion (validate_machine_identifier "idempotency_key" intent.idempotency_key) _
          h2 in
      let (_, _, h4) =
        bind_inversion (validate_identifier method_limits "method" intent.method) _ h3 in
      let (_, h5) = raise_if_inversion (not (is_method intent.method)) _ _ h4 in
      let (_, h6) = raise_if_inversion (not (is_base_chain intent.chain_id)) _ _ h5 in
      let (_, h7) = raise_if_inversion (not (is_evm_address intent.target)) _ _ h6 in
      raise_if_last _ _ h7

  module _ {M : Type 0} {port : MemoryPort M} (a : IsAvailable port) where
    pub data Outcome (m : M) (g : Guard) (intent : PaymentIntent) (fresh : Fresh)
        (out : Result DecisionDraft × M) : Type 0 where
      refused : (e : Error) → out ≡ (err e, m) → Outcome m g intent fresh out
      drafted :
          (ref : String) (s : SubjectMemory) (p : PolicyDecision) (d : DecisionDraft)
          → check_intent intent ≡ ok tt
          → subject_ref intent.subject_id ≡ ok ref
          → s ≡ or_empty ref fresh.opened_at (a.subject m ref)
          → Decide.decide intent s.observations fresh.decided_at ≡ ok p
          → Records g intent fresh s p d
          → IsBound d
          → out ≡ (ok d, (port.save_decision d m).1)
          → Outcome m g intent fresh out

    save_draft_lem :
        (d : DecisionDraft) (m : M)
        → validate_decision d ≡ ok tt
        → save_draft port d m ≡ (ok d, (port.save_decision d m).1)
    unfolding save_draft
    save_draft_lem d m v = rw (v, a.save_decision_lem d m)

    save_draft-Outcome :
        (m : M) (g : Guard) (intent : PaymentIntent) (fresh : Fresh) (ref : String)
        (s : SubjectMemory) (p : PolicyDecision) (d : DecisionDraft)
        → check_intent intent ≡ ok tt
        → subject_ref intent.subject_id ≡ ok ref
        → s ≡ or_empty ref fresh.opened_at (a.subject m ref)
        → Decide.decide intent s.observations fresh.decided_at ≡ ok p
        → Records g intent fresh s p d
        → Outcome m g intent fresh (save_draft port d m)
    unfolding save_draft
    save_draft-Outcome m g intent fresh ref s p d checked named opened policy r =
        lift_ends (Outcome m g intent fresh) (validate_decision d) _ m (λ e _. refused e refl)
          λ _ v.
            drafted ref s p d checked named opened policy r ((validate_decision-IsBound d).0 v)
              (rw (a.save_decision_lem d m))

    -- From any memory, a call of `decide` raises and changes nothing, or saves one bound draft with
    -- the policy's verdict on the stored observations, the version and root it was decided on, and an
    -- expiry one lifetime after its creation.
    pub decide-Outcome :
        (m : M) (g : Guard) (intent : PaymentIntent) (fresh : Fresh)
        → Outcome m g intent fresh (decide port g intent fresh m)
    unfolding decide decide_subject
    decide-Outcome m g intent fresh =
        lift_ends Q (check_intent intent) _ m (λ e _. refused e refl)
          λ _ checked.
            lift_ends Q (subject_ref intent.subject_id) _ m (λ e _. refused e refl)
              λ ref named. loaded checked ref named
      where
        Q : Result DecisionDraft × M → Type 0
        Q = Outcome m g intent fresh

        loaded :
            check_intent intent ≡ ok tt
            → (ref : String) → subject_ref intent.subject_id ≡ ok ref
            → Q (
                (port.load_subject ref >>= λ found.
                decide_subject port g ref (or_empty ref fresh.opened_at found) intent fresh)
                  m)
        loaded checked ref named =
            let s = or_empty ref fresh.opened_at (a.subject m ref) in
            let safe = safe_intent ref intent in
            rw (a.load_subject_lem ref m) (
              lift_ends Q (validate_subject s) _ m (λ e _. refused e refl)
                λ _ _.
                  lift_ends Q (Decide.decide intent s.observations fresh.decided_at) _ m
                    (λ e _. refused e refl)
                    λ p policy.
                      lift_ends Q (compute_intent_hash safe) _ m (λ e _. refused e refl)
                        λ hash _.
                          lift_ends Q
                            (compute_decision_proof_root
                              (draft_of g ref s intent safe p hash fresh))
                            _ m (λ e _. refused e refl)
                            λ root _.
                              save_draft-Outcome m g intent fresh ref s p _ checked named refl
                                policy (draft_of-Records g ref s intent p hash root fresh))

    -- Whatever the verdict, a draft that `decide` returns has the intent's amount, and it is a finite
    -- number in (0, 1,000,000]: neither a NaN nor an infinity.
    pub decide-IsBounded :
        (m : M) (g : Guard) (intent : PaymentIntent) (fresh : Fresh) (d : DecisionDraft)
        → (decide port g intent fresh m).0 ≡ ok d
        → (d.intent.amount_usd ≡ intent.amount_usd) × IsBounded d.intent.amount_usd
    decide-IsBounded m g intent fresh d h = of (decide-Outcome m g intent fresh)
      where
        of :
            Outcome m g intent fresh (decide port g intent fresh m)
            → (d.intent.amount_usd ≡ intent.amount_usd) × IsBounded d.intent.amount_usd
        of (refused e p) = absurd (cc (h, ap (λ (q : Result DecisionDraft × M). q.0) p))
        of (drafted ref s p d' checked named opened policy r bound q) =
            let same : d' ≡ d =
              ok-injective (sym (ap (λ (q : Result DecisionDraft × M). q.0) q) ∙ h) in
            let finite_one = compute_intent_hash-finite d'.intent d'.intent_hash bound.intent in
            subst
              (λ (x : DecisionDraft).
                (x.intent.amount_usd ≡ intent.amount_usd) × IsBounded x.intent.amount_usd)
              same
              (
                r.amount,
                in_range-IsBounded d'.intent.amount_usd finite_one
                    (rw r.amount (check_intent-in_range intent checked)),
              )
