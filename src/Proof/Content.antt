-- ===== src/Proof/Content.antt =====
-- What the payload of an observation's hash in src/proofops_memoryguard/proof.py says of the observation:
-- everything but the hash, read back from the payload.
use proofops_memoryguard.Base.{
  String, Option, none, some, List, [], ◌∷◌, ◌==◌, Dict, ◌≡◌, refl, sym, ap, ◌∙◌, if◌then◌else◌,
}
use proofops_memoryguard.Python.Value.{
  Value, null, str, list, dict, Items, cons, nil, fields, field?, string_items, optional_str,
  unfields, unfields-fields,
}
use proofops_memoryguard.Python.Runtime.{Runtime}
use proofops_memoryguard.Models.{
  StoredObservation, ObservationKind, baseline_approved, dispute_opened, target_revoked,
  vendor_note, EvidenceMode, demo_fixture, caller_supplied, identity_verified, base_testnet,
  base_mainnet, ObservationStatus, accepted, partially_accepted, quarantined, review_required,
  kind_value, mode_value, status_value,
}
use proofops_memoryguard.Proof.{observation_hash_payload}

-- An observation with the time of observation as it is written in ISO format.
pub record Content : Type 0 where
  pub observation_id : String
  pub subject_ref : String
  pub session_id : String
  pub kind : ObservationKind
  pub source_id : String
  pub evidence_mode : EvidenceMode
  pub status : ObservationStatus
  pub accepted_facts : Dict Value
  pub quarantined_fields : List String
  pub reason_codes : List String
  pub raw_text_hash : Option String
  pub idempotency_key : String
  pub observed_at : String
  pub previous_hash : String
  pub observation_hash : String

read_text : Value → String
read_text (str s) = s
read_text v = ""

read_option : Value → Option String
read_option (str s) = some s
read_option v = none

read_items : Items → List String
read_items nil = []
read_items (cons v vs) = read_text v ∷ read_items vs

read_texts : Value → List String
read_texts (list vs) = read_items vs
read_texts v = []

read_facts : Value → Dict Value
read_facts (dict d) = unfields d
read_facts v = []

read_kind : String → ObservationKind
read_kind s =
    if s == "baseline_approved"
    then baseline_approved
    else if s == "dispute_opened"
    then dispute_opened
    else if s == "target_revoked"
    then target_revoked
    else vendor_note

read_mode : String → EvidenceMode
read_mode s =
    if s == "demo_fixture"
    then demo_fixture
    else if s == "caller_supplied"
    then caller_supplied
    else if s == "identity_verified"
    then identity_verified
    else if s == "base_testnet"
    then base_testnet
    else base_mainnet

read_status : String → ObservationStatus
read_status s =
    if s == "accepted"
    then accepted
    else if s == "partially_accepted"
    then partially_accepted
    else if s == "quarantined"
    then quarantined
    else review_required

read_field : String → Value → Value
read_field k (dict d) = elim (field? k d) [ some v ↦ v | none ↦ null ]
read_field k v = null

read_content : Value → String → Content
read_content v hash = record {
  observation_id = read_text (read_field "observation_id" v);
  subject_ref = read_text (read_field "subject_ref" v);
  session_id = read_text (read_field "session_id" v);
  kind = read_kind (read_text (read_field "kind" v));
  source_id = read_text (read_field "source_id" v);
  evidence_mode = read_mode (read_text (read_field "evidence_mode" v));
  status = read_status (read_text (read_field "status" v));
  accepted_facts = read_facts (read_field "accepted_facts" v);
  quarantined_fields = read_texts (read_field "quarantined_fields" v);
  reason_codes = read_texts (read_field "reason_codes" v);
  raw_text_hash = read_option (read_field "raw_text_hash" v);
  idempotency_key = read_text (read_field "idempotency_key" v);
  observed_at = read_text (read_field "observed_at" v);
  previous_hash = read_text (read_field "previous_hash" v);
  observation_hash = hash;
}

read_items-string_items : (xs : List String) → read_items (string_items xs) ≡ xs
unfolding read_items read_text string_items
read_items-string_items [] = refl
read_items-string_items (x ∷ xs) = ap (λ ys. x ∷ ys) (read_items-string_items xs)

read_option-optional_str : (o : Option String) → read_option (optional_str o) ≡ o
unfolding read_option
read_option-optional_str none = refl
read_option-optional_str (some s) = refl

read_kind-kind_value : (k : ObservationKind) → read_kind (kind_value k) ≡ k
unfolding read_kind
read_kind-kind_value baseline_approved = refl
read_kind-kind_value dispute_opened = refl
read_kind-kind_value target_revoked = refl
read_kind-kind_value vendor_note = refl

read_mode-mode_value : (m : EvidenceMode) → read_mode (mode_value m) ≡ m
unfolding read_mode
read_mode-mode_value demo_fixture = refl
read_mode-mode_value caller_supplied = refl
read_mode-mode_value identity_verified = refl
read_mode-mode_value base_testnet = refl
read_mode-mode_value base_mainnet = refl

read_status-status_value : (s : ObservationStatus) → read_status (status_value s) ≡ s
unfolding read_status
read_status-status_value accepted = refl
read_status-status_value partially_accepted = refl
read_status-status_value quarantined = refl
read_status-status_value review_required = refl

module _ ⦃runtime : Runtime⦄ where
  abbrev pub content : StoredObservation → Content
  content item = record {
    observation_id = item.observation_id;
    subject_ref = item.subject_ref;
    session_id = item.session_id;
    kind = item.kind;
    source_id = item.source_id;
    evidence_mode = item.evidence_mode;
    status = item.status;
    accepted_facts = item.accepted_facts;
    quarantined_fields = item.quarantined_fields;
    reason_codes = item.reason_codes;
    raw_text_hash = item.raw_text_hash;
    idempotency_key = item.idempotency_key;
    observed_at = runtime.isoformat item.observed_at;
    previous_hash = item.previous_hash;
    observation_hash = item.observation_hash;
  }

  read_content-payload :
      (item : StoredObservation)
      → read_content (observation_hash_payload item) item.observation_hash ≡ content item
  unfolding read_content read_field read_text read_texts read_facts observation_hash_payload fields
      field?
  read_content-payload item =
      rw
        (
          read_kind-kind_value item.kind,
          read_mode-mode_value item.evidence_mode,
          read_status-status_value item.status,
          unfields-fields item.accepted_facts,
          read_items-string_items item.quarantined_fields,
          read_items-string_items item.reason_codes,
          read_option-optional_str item.raw_text_hash,
        )
        refl

  -- The payload and the hash leave nothing of an observation open.
  pub content-payload :
      (a b : StoredObservation)
      → observation_hash_payload a ≡ observation_hash_payload b
      → a.observation_hash ≡ b.observation_hash
      → content a ≡ content b
  content-payload a b same hash =
      sym (read_content-payload a)
      ∙ ap (λ v. read_content v a.observation_hash) same
      ∙ ap (read_content (observation_hash_payload b)) hash
      ∙ read_content-payload b
