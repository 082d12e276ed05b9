-- ===== src/Guard/Decide.antt =====
-- `MemoryGuard.decide`: a draft that binds the verdict to the memory, the policy and the intent.
pub mod Drafts
use Prim.Native.String.{slice}
use proofops_memoryguard.Base.{
  ℕ, ◌+◌, ◌*◌, String, Bool, true, false, Option, none, some, List, [], ◌∷◌, ◌&&◌, ◌==◌, not,
  any_by, contains, concat,
}
use proofops_memoryguard.Errors.{Result, ok, err}
use proofops_memoryguard.Exec.{Exec, pure, lift, ◌>>=◌, ◌>>◌}
use proofops_memoryguard.Canonical.{subject_ref}
use proofops_memoryguard.Python.Number.{Datetime}
use proofops_memoryguard.Python.Runtime.{Runtime}
use proofops_memoryguard.Models.{
  StoredObservation, SubjectMemory, PaymentIntent, DecisionDraft, not_configured,
}
use proofops_memoryguard.Policy.Decide
use proofops_memoryguard.Policy.Decide.{PolicyDecision}
use proofops_memoryguard.Proof.{
  validate_subject, compute_intent_hash, compute_decision_proof_root, validate_decision,
}
use proofops_memoryguard.Ports.{MemoryPort}
use proofops_memoryguard.Guard.{Guard}
use proofops_memoryguard.Guard.Checks.{check_intent}
use proofops_memoryguard.Guard.Observe.{or_empty}

-- The clock readings and the fresh identifiers of one call.
pub record Fresh : Type 0 where
  pub hex : String
  pub nonce : String
  pub opened_at : Datetime
  pub decided_at : Datetime
  pub created_at : Datetime

-- `t + timedelta(seconds=n)`
unfoldable pub add_seconds : Datetime → ℕ → Datetime
add_seconds t n = record t { instant = t.instant + n * 1000000 }

unfoldable pub is_cross_session : PaymentIntent → PolicyDecision → List StoredObservation → Bool
is_cross_session intent p = any_by (λ item.
    contains item.observation_id p.causal_memory_ids && not (item.session_id == intent.session_id))

-- `(safe_intent, draft)`: the intent that the draft carries names the subject by its reference
unfoldable pub safe_intent : ⦃runtime : Runtime⦄ → String → PaymentIntent → PaymentIntent
safe_intent ⦃runtime⦄ ref intent = record intent {
  subject_id = ref;
  target = runtime.lower intent.target;
}

unfoldable pub draft_of :
    Guard
    → String
    → SubjectMemory
    → PaymentIntent
    → PaymentIntent
    → PolicyDecision
    → String
    → Fresh
    → DecisionDraft
draft_of g ref subject intent safe p intent_hash fresh = record {
  decision_id = concat "dec_" (slice fresh.hex 0 20);
  subject_ref = ref;
  session_id = intent.session_id;
  verdict = p.verdict;
  reason_codes = p.reason_codes;
  causal_memory_ids = p.causal_memory_ids;
  cross_session = is_cross_session intent p subject.observations;
  memory_version = subject.version;
  memory_root = subject.memory_root;
  policy_hash = g.policy_hash;
  intent = safe;
  intent_hash = intent_hash;
  proof_root = "";
  nonce = fresh.nonce;
  created_at = fresh.created_at;
  expires_at = add_seconds fresh.created_at g.decision_ttl;
  anchor_state = not_configured;
}

abbrev pub rooted : DecisionDraft → String → DecisionDraft
rooted d root = record d { proof_root = root }

module _ ⦃runtime : Runtime⦄ {M : Type 0} (port : MemoryPort M) where
  unfoldable pub save_draft : DecisionDraft → Exec M DecisionDraft
  save_draft d = do lift (validate_decision d); port.save_decision d; pure d

  unfoldable pub decide_subject :
      Guard → String → SubjectMemory → PaymentIntent → Fresh → Exec M DecisionDraft
  decide_subject g ref subject intent fresh = do
    lift (validate_subject subject)
    p ← lift (Decide.decide intent subject.observations fresh.decided_at)
    let safe = safe_intent ref intent
    intent_hash ← lift (compute_intent_hash safe)
    let draft = draft_of g ref subject intent safe p intent_hash fresh
    proof_root ← lift (compute_decision_proof_root draft)
    save_draft (rooted draft proof_root)

  unfoldable pub decide : Guard → PaymentIntent → Fresh → Exec M DecisionDraft
  decide g intent fresh = do
    lift (check_intent intent)
    ref ← lift (subject_ref intent.subject_id)
    found ← port.load_subject ref
    decide_subject g ref (or_empty ref fresh.opened_at found) intent fresh
