-- ===== src/Guard/Finalize/Results.antt =====
-- How a call of `finalize` ends: refused with the store as it was, or with a result on a decision
-- that is bound, current and, if READY, decided on the memory as it is now.
use proofops_memoryguard.Base.{
  String, true, false, Option, none, some, ◌≡◌, refl, ◌||◌, ◌==◌, not, ◌<◌, leb, arith, inl, inr,
  ◌⊎◌, Bool-cases, not_ne-eq, eq_iff,
}
use proofops_memoryguard.Errors.{
  Error, Result, ok, err, raise_if, decision_not_found, finalization, memory_integrity,
  raise_if_last,
}
use proofops_memoryguard.Exec.{and_then, lift_ends, ◌>>=◌, ◌>>◌, lift}
use proofops_memoryguard.Python.Number.{Datetime}
use proofops_memoryguard.Python.Runtime.{Runtime}
use proofops_memoryguard.Models.{
  SubjectMemory, DecisionDraft, FinalizationResult, AnchorPlan, AnchorVerification, ready,
  verdict_eq, Verdict,
}
use proofops_memoryguard.Proof.{validate_subject, validate_decision}
use proofops_memoryguard.Proof.Chain.{IsIntact, validate_subject-IsIntact}
use proofops_memoryguard.Proof.Decision.{IsBound, validate_decision-IsBound}
use proofops_memoryguard.Ports.{MemoryPort, AnchorPort, IsAvailable}
use proofops_memoryguard.Guard.{Guard}
use proofops_memoryguard.Guard.Checks.{validate_machine_identifier}
use proofops_memoryguard.Guard.Finalize.{
  require, memory_unchanged, matches_decision, Reuse, return_it, refuse, go_on, reuse, is_pending,
  is_verified, verified_result, planned_result, save_result, keep_verified, finalize_new,
  reuse_or_go_on, finalize_checked, check_memory, check_ready, finalize_decision, finalize,
}

-- A result that is about a decision and grants nothing.
pub record IsInert (d : DecisionDraft) (r : FinalizationResult) : Type 0 where
  pub id : r.decision_id ≡ d.decision_id
  pub verdict : r.verdict ≡ d.verdict
  pub root : r.proof_root ≡ d.proof_root
  pub executable : r.executable ≡ false

pub verified_result-IsInert :
    (d : DecisionDraft) (v : AnchorVerification) → IsInert d (verified_result d v)
unfolding verified_result
verified_result-IsInert d v = record {
  id = refl;
  verdict = refl;
  root = refl;
  executable = ground arith;
}

pub planned_result-IsInert :
    (d : DecisionDraft) (plan : Option AnchorPlan) → IsInert d (planned_result d plan)
unfolding planned_result
planned_result-IsInert d (some plan) = record {
  id = refl;
  verdict = refl;
  root = refl;
  executable = refl;
}
planned_result-IsInert d none = record {
  id = ground arith;
  verdict = ground arith;
  root = ground arith;
  executable = ground arith;
}

module _ ⦃runtime : Runtime⦄ {M : Type 0} {port : MemoryPort M} (a : IsAvailable port) where
  -- The memory of the decision's subject is intact and as the decision says.
  abbrev pub MemoryIs : M → DecisionDraft → Type 0
  MemoryIs m d =
      (s : SubjectMemory) × (a.subject m d.subject_ref ≡ some s)
      × IsIntact s
      × (s.version ≡ d.memory_version)
      × (s.memory_root ≡ d.memory_root)

  -- The gate that a decision passed before it was finalized.
  pub record Passed (m : M) (g : Guard) (now : Datetime) (d : DecisionDraft) : Type 0 where
    pub bound : IsBound d
    pub unexpired : now.instant < d.expires_at.instant
    pub policy : d.policy_hash ≡ g.policy_hash
    pub memory : d.verdict ≡ ready → MemoryIs m d

  -- How the last stage ends, for a decision that passed.
  pub data Ending (m : M) (d : DecisionDraft) (id : String) (out : Result FinalizationResult × M)
      : Type 0 where
    refused : (e : Error) → out ≡ (err e, m) → Ending m d id out
    returned :
        (r : FinalizationResult)
        → a.finalization m id ≡ some r
        → matches_decision r d ≡ true
        → out ≡ (ok r, m)
        → Ending m d id out
    reported : (r : FinalizationResult) → IsInert d r → out ≡ (ok r, m) → Ending m d id out
    saved :
        (r : FinalizationResult)
        → IsInert d r
        → out ≡ (ok r, (port.save_finalization r m).1)
        → Ending m d id out

  save_result-Ending :
      (m : M) (d : DecisionDraft) (id : String) (r : FinalizationResult)
      → IsInert d r
      → Ending m d id (save_result port r m)
  unfolding save_result
  save_result-Ending m d id r i = saved r i (rw (a.save_finalization_lem r m))

  keep_verified-Ending :
      (m : M) (d : DecisionDraft) (id : String) (r : FinalizationResult)
      → IsInert d r
      → Ending m d id (keep_verified port r m)
  unfolding keep_verified
  keep_verified-Ending m d id r i = elim (Bool-cases (is_pending r.state || is_verified r.state)) [
    | inl e ↦ rw e (save_result-Ending m d id r i)
    | inr e ↦ rw e (reported r i refl)
  ]

  plan-Ending :
      (anchor : AnchorPort) (m : M) (d : DecisionDraft) (id : String)
      → Ending m d id
          ((lift (anchor.plan d) >>= λ plan. save_result port (planned_result d plan)) m)
  plan-Ending anchor m d id =
      lift_ends (Ending m d id) (anchor.plan d) _ m (λ e _. refused e refl)
        λ plan _. save_result-Ending m d id _ (planned_result-IsInert d plan)

  finalize_new-Ending :
      (anchor : AnchorPort) (m : M) (d : DecisionDraft) (id : String) (tx : Option String)
      → Ending m d id (finalize_new port anchor d tx m)
  unfolding finalize_new
  finalize_new-Ending anchor m d id none = plan-Ending anchor m d id
  finalize_new-Ending anchor m d id (some tx) = elim (Bool-cases (tx == "")) [
    | inl e ↦ rw e (plan-Ending anchor m d id)
    | inr e ↦ rw e (
        lift_ends (Ending m d id) (anchor.verify d tx) _ m (λ x _. refused x refl)
          λ v _. keep_verified-Ending m d id _ (verified_result-IsInert d v))
  ]

  reuse-Ending :
      (anchor : AnchorPort) (m : M) (d : DecisionDraft) (id : String) (tx : Option String)
      (existing : FinalizationResult) (how : Reuse)
      → a.finalization m id ≡ some existing
      → matches_decision existing d ≡ true
      → Ending m d id (reuse_or_go_on port anchor d tx existing how m)
  unfolding reuse_or_go_on
  reuse-Ending anchor m d id tx existing return_it stored same = returned existing stored same refl
  reuse-Ending anchor m d id tx existing (refuse why) stored same = refused (finalization why) refl
  reuse-Ending anchor m d id tx existing go_on stored same = finalize_new-Ending anchor m d id tx

  finalize_checked-Ending :
      (anchor : AnchorPort) (m : M) (d : DecisionDraft) (id : String) (tx : Option String)
      (found : Option FinalizationResult)
      → a.finalization m id ≡ found
      → Ending m d id (finalize_checked port anchor d tx found m)
  unfolding finalize_checked
  finalize_checked-Ending anchor m d id tx none stored = finalize_new-Ending anchor m d id tx
  finalize_checked-Ending anchor m d id tx (some existing) stored =
      lift_ends (Ending m d id)
        (raise_if (not (matches_decision existing d))
          (memory_integrity "stored finalization does not match decision proof"))
        _ m (λ e _. refused e refl)
        λ _ same.
          reuse-Ending anchor m d id tx existing (reuse existing tx) stored
            (ground (arith, raise_if_last (not (matches_decision existing d)) _ same))

  -- the memory check changes nothing, and passes only when the memory is as the draft says
  data Checked (m : M) (d : DecisionDraft) (out : Result (Unit {0}) × M) : Type 0 where
    fails : (e : Error) → out ≡ (err e, m) → Checked m d out
    passes : (d.verdict ≡ ready → MemoryIs m d) → out ≡ (ok tt, m) → Checked m d out

  memory_unchanged-parts :
      (d : DecisionDraft) (s : SubjectMemory)
      → memory_unchanged d s ≡ true
      → (s.version ≡ d.memory_version) × (s.memory_root ≡ d.memory_root)
  unfolding memory_unchanged
  memory_unchanged-parts d s h =
      (ground (arith, h), ground (arith, h, eq_iff s.memory_root d.memory_root))

  check_memory-Checked : (m : M) (d : DecisionDraft) → Checked m d (check_memory port d m)
  unfolding check_memory
  check_memory-Checked m d =
      rw (a.load_subject_lem d.subject_ref m) (found (a.subject m d.subject_ref) refl)
    where
      found :
          (o : Option SubjectMemory)
          → a.subject m d.subject_ref ≡ o
          → Checked m d (
              (require o (finalization "decision subject memory is no longer available")
                  >>= λ current.
                      lift (validate_subject current)
                      >> lift (
                          raise_if (not (memory_unchanged d current)) (
                            finalization
                              "subject memory changed after READY draft; decide again before finalization")))
                m)
      found none e = fails (finalization "decision subject memory is no longer available") refl
      found (some s) e =
          lift_ends (Checked m d) (validate_subject s) _ m (λ x _. fails x refl)
            λ _ valid. unchanged s e valid (Bool-cases (memory_unchanged d s))
        where
          unchanged :
              (s : SubjectMemory)
              → a.subject m d.subject_ref ≡ some s
              → validate_subject s ≡ ok tt
              → (memory_unchanged d s ≡ true) ⊎ (memory_unchanged d s ≡ false)
              → Checked m d (
                raise_if (not (memory_unchanged d s)) (
                    finalization
                      "subject memory changed after READY draft; decide again before finalization"),
                m,
              )
          unchanged s e valid (inl same) =
              let (version, root) = memory_unchanged-parts d s same in
              passes (λ _. (s, e, (validate_subject-IsIntact s).0 valid, version, root)) (rw same)
          unchanged s e valid (inr changed) =
              fails
                (finalization
                  "subject memory changed after READY draft; decide again before finalization")
                (rw changed)

  not-ready : (v : Verdict) → verdict_eq v ready ≡ false → ¬ (v ≡ ready)
  not-ready v h e = ground arith

  check_ready-Checked : (m : M) (d : DecisionDraft) → Checked m d (check_ready port d m)
  unfolding check_ready
  check_ready-Checked m d = elim (Bool-cases (verdict_eq d.verdict ready)) [
    | inl e ↦ rw e (check_memory-Checked m d)
    | inr e ↦ rw e (passes (λ r. absurd (not-ready d.verdict e r)) refl)
  ]

  pub data Outcome (m : M) (g : Guard) (id : String) (now : Datetime)
      (out : Result FinalizationResult × M) : Type 0 where
    refused : (e : Error) → out ≡ (err e, m) → Outcome m g id now out
    decided :
        (d : DecisionDraft)
        → a.decision m id ≡ some d
        → Passed m g now d
        → Ending m d id out
        → Outcome m g id now out

  after_check :
      (m : M) (g : Guard) (id : String) (now : Datetime) (anchor : AnchorPort) (d : DecisionDraft)
      (tx : Option String)
      → a.decision m id ≡ some d
      → ((d.verdict ≡ ready → MemoryIs m d) → Passed m g now d)
      → (c : Result (Unit {0}) × M) → Checked m d c
      → Outcome m g id now (
          and_then
            (λ _.
              port.load_finalization id >>= λ existing. finalize_checked port anchor d tx existing)
            c.0
            c.1)
  after_check m g id now anchor d tx stored passed c (fails e p) = refused e (rw p)
  after_check m g id now anchor d tx stored passed c (passes memory p) =
      rw (p, a.load_finalization_lem id m)
        (decided d stored (passed memory)
          (finalize_checked-Ending anchor m d id tx (a.finalization m id) refl))

  finalize_decision-Outcome :
      (m : M) (g : Guard) (anchor : AnchorPort) (d : DecisionDraft) (id : String)
      (tx : Option String) (now : Datetime)
      → a.decision m id ≡ some d
      → Outcome m g id now (finalize_decision port g anchor d id tx now m)
  unfolding finalize_decision
  finalize_decision-Outcome m g anchor d id tx now stored =
      lift_ends Q (validate_decision d) _ m (λ e _. refused e refl)
        λ _ valid.
          lift_ends Q
            (raise_if (leb d.expires_at.instant now.instant)
              (finalization "decision draft expired; decide again"))
            _ m (λ e _. refused e refl)
            λ _ fresh.
              lift_ends Q
                (raise_if (not (d.policy_hash == g.policy_hash))
                  (finalization "decision policy changed; decide again before finalization"))
                _ m (λ e _. refused e refl)
                λ _ policy.
                  after_check m g id now anchor d tx stored
                    (λ memory. record {
                      bound = (validate_decision-IsBound d).0 valid;
                      unexpired = ground (arith, raise_if_last _ _ fresh);
                      policy = not_ne-eq _ _ (raise_if_last _ _ policy);
                      memory = memory;
                    })
                    (check_ready port d m) (check_ready-Checked m d)
    where
      Q : Result FinalizationResult × M → Type 0
      Q = Outcome m g id now

  -- From any memory, a call of `finalize` raises and changes nothing, or finalizes a stored decision
  -- that is bound, unexpired, of the current policy and, if READY, on an unchanged intact memory; the
  -- result is the stored one for that decision, or a new one that is not executable.
  pub finalize-Outcome :
      (m : M) (g : Guard) (anchor : AnchorPort) (id : String) (tx : Option String) (now : Datetime)
      → Outcome m g id now (finalize port g anchor id tx now m)
  unfolding finalize
  finalize-Outcome m g anchor id tx now =
      lift_ends (Outcome m g id now) (validate_machine_identifier "decision_id" id) _ m
        (λ e _. refused e refl) λ _ _. rw (a.load_decision_lem id m) (found (a.decision m id) refl)
    where
      found :
          (o : Option DecisionDraft)
          → a.decision m id ≡ o
          → Outcome m g id now (
              (require o (decision_not_found "decision was not found") >>= λ d.
              finalize_decision port g anchor d id tx now)
                m)
      found none e = refused (decision_not_found "decision was not found") refl
      found (some d) e = finalize_decision-Outcome m g anchor d id tx now e
