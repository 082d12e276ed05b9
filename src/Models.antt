-- ===== src/Models.antt =====
-- src/proofops_memoryguard/models.py: the enumerations and records that the guard passes around.
use proofops_memoryguard.Base.{ℕ, String, Bool, true, false, Option, List, [], Dict, ◌≡◌, refl}
use proofops_memoryguard.Python.Number.{ℤ, Float, Datetime}
use proofops_memoryguard.Python.Value.{Value}
use proofops_memoryguard.Canonical.{zero_hash}

pub data EvidenceMode : Type 0 where
  demo_fixture caller_supplied identity_verified base_testnet base_mainnet : EvidenceMode

pub data ObservationKind : Type 0 where
  baseline_approved dispute_opened target_revoked vendor_note : ObservationKind

pub data ObservationStatus : Type 0 where
  accepted partially_accepted quarantined review_required : ObservationStatus

pub data Verdict : Type 0 where
  ready deny needs_human memory_unavailable : Verdict

pub data AnchorState : Type 0 where
  not_configured local_finalized confirmation_required pending verified failed : AnchorState

-- `mode.value`, and so on
abbrev pub mode_value : EvidenceMode → String
mode_value demo_fixture = "demo_fixture"
mode_value caller_supplied = "caller_supplied"
mode_value identity_verified = "identity_verified"
mode_value base_testnet = "base_testnet"
mode_value base_mainnet = "base_mainnet"

abbrev pub kind_value : ObservationKind → String
kind_value baseline_approved = "baseline_approved"
kind_value dispute_opened = "dispute_opened"
kind_value target_revoked = "target_revoked"
kind_value vendor_note = "vendor_note"

abbrev pub status_value : ObservationStatus → String
status_value accepted = "accepted"
status_value partially_accepted = "partially_accepted"
status_value quarantined = "quarantined"
status_value review_required = "review_required"

abbrev pub verdict_value : Verdict → String
verdict_value ready = "ready"
verdict_value deny = "deny"
verdict_value needs_human = "needs_human"
verdict_value memory_unavailable = "memory_unavailable"

abbrev pub anchor_state_value : AnchorState → String
anchor_state_value not_configured = "not_configured"
anchor_state_value local_finalized = "local_finalized"
anchor_state_value confirmation_required = "confirmation_required"
anchor_state_value pending = "pending"
anchor_state_value verified = "verified"
anchor_state_value failed = "failed"

-- `==` on the members of an enumeration
abbrev pub kind_eq : ObservationKind → ObservationKind → Bool
kind_eq baseline_approved baseline_approved = true
kind_eq dispute_opened dispute_opened = true
kind_eq target_revoked target_revoked = true
kind_eq vendor_note vendor_note = true
kind_eq _ _ = false

abbrev pub mode_eq : EvidenceMode → EvidenceMode → Bool
mode_eq demo_fixture demo_fixture = true
mode_eq caller_supplied caller_supplied = true
mode_eq identity_verified identity_verified = true
mode_eq base_testnet base_testnet = true
mode_eq base_mainnet base_mainnet = true
mode_eq _ _ = false

abbrev pub verdict_eq : Verdict → Verdict → Bool
verdict_eq ready ready = true
verdict_eq deny deny = true
verdict_eq needs_human needs_human = true
verdict_eq memory_unavailable memory_unavailable = true
verdict_eq _ _ = false

pub kind_eq_refl : (k : ObservationKind) → kind_eq k k ≡ true
kind_eq_refl baseline_approved = refl
kind_eq_refl dispute_opened = refl
kind_eq_refl target_revoked = refl
kind_eq_refl vendor_note = refl

pub mode_eq_refl : (m : EvidenceMode) → mode_eq m m ≡ true
mode_eq_refl demo_fixture = refl
mode_eq_refl caller_supplied = refl
mode_eq_refl identity_verified = refl
mode_eq_refl base_testnet = refl
mode_eq_refl base_mainnet = refl

pub verdict_eq_refl : (v : Verdict) → verdict_eq v v ≡ true
verdict_eq_refl ready = refl
verdict_eq_refl deny = refl
verdict_eq_refl needs_human = refl
verdict_eq_refl memory_unavailable = refl

pub record Observation : Type 0 where
  pub subject_id : String
  pub session_id : String
  pub kind : ObservationKind
  pub source_id : String
  pub facts : Dict Value
  pub raw_text : Option String
  pub evidence_mode : EvidenceMode
  pub idempotency_key : String
  pub observed_at : Datetime

pub record StoredObservation : Type 0 where
  pub observation_id : String
  pub subject_ref : String
  pub session_id : String
  pub kind : ObservationKind
  pub source_id : String
  pub evidence_mode : EvidenceMode
  pub status : ObservationStatus
  pub accepted_facts : Dict Value
  pub quarantined_fields : List String
  pub reason_codes : List String
  pub raw_text_hash : Option String
  pub idempotency_key : String
  pub observed_at : Datetime
  pub previous_hash : String
  pub observation_hash : String

pub record SubjectMemory : Type 0 where
  pub subject_ref : String
  pub version : ℕ
  pub memory_root : String
  pub observations : List StoredObservation
  pub updated_at : Datetime

-- `SubjectMemory.empty`, which reads the clock
unfoldable pub empty_subject : String → Datetime → SubjectMemory
empty_subject ref now = record {
  subject_ref = ref;
  version = 0;
  memory_root = zero_hash;
  observations = [];
  updated_at = now;
}

pub record ObservationReceipt : Type 0 where
  pub observation_id : String
  pub status : ObservationStatus
  pub accepted_fields : List String
  pub quarantined_fields : List String
  pub reason_codes : List String
  pub memory_version : ℕ
  pub memory_root : String
  pub evidence_mode : EvidenceMode
  pub observed_at : Datetime

pub record PaymentIntent : Type 0 where
  pub subject_id : String
  pub session_id : String
  pub chain_id : ℤ
  pub target : String
  pub method : String
  pub amount_usd : Float
  pub idempotency_key : String
  pub evidence_mode : EvidenceMode
  pub created_at : Datetime

pub record DecisionDraft : Type 0 where
  pub decision_id : String
  pub subject_ref : String
  pub session_id : String
  pub verdict : Verdict
  pub reason_codes : List String
  pub causal_memory_ids : List String
  pub cross_session : Bool
  pub memory_version : ℕ
  pub memory_root : String
  pub policy_hash : String
  pub intent : PaymentIntent
  pub intent_hash : String
  pub proof_root : String
  pub nonce : String
  pub created_at : Datetime
  pub expires_at : Datetime
  pub anchor_state : AnchorState

pub record AnchorPlan : Type 0 where
  pub chain_id : ℤ
  pub network : String
  pub contract : String
  pub to : String
  pub calldata : String
  pub value : String
  pub proof_root : String

pub record AnchorVerification : Type 0 where
  pub state : AnchorState
  pub tx_hash : Option String
  pub chain_id : Option ℤ
  pub contract : Option String
  pub block_number : Option ℤ
  pub reason_codes : List String

pub record FinalizationResult : Type 0 where
  pub decision_id : String
  pub verdict : Verdict
  pub state : AnchorState
  pub proof_root : String
  pub executable : Bool
  pub anchor_plan : Option AnchorPlan
  pub anchor_verification : Option AnchorVerification
  pub reason_codes : List String
