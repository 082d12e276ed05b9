-- ===== src/Guard/Observe.antt =====
-- `MemoryGuard.observe`: a new observation is appended to its subject's chain, and a repeated one
-- is answered from it.
pub mod Append
use Prim.Native.String.{slice}
use proofops_memoryguard.Base.{
  ℕ, ◌+◌, String, Bool, true, false, Option, none, some, List, [], ◌∷◌, ◌++◌, ◌&&◌, ◌==◌, not, Dict,
  get, keys, sorted_set, eqb, concat, length, if◌then◌else◌, filter_by,
}
use proofops_memoryguard.Errors.{Result, ok, err, memory_conflict}
use proofops_memoryguard.Errors
use proofops_memoryguard.Exec.{Exec, pure, raise, lift, ◌>>=◌, ◌>>◌}
use proofops_memoryguard.Canonical.{zero_hash, domain_hash, text_hash, subject_ref}
use proofops_memoryguard.Python.Number.{Datetime}
use proofops_memoryguard.Python.Value.{Value, str, value_eq}
use proofops_memoryguard.Python.Runtime.{Runtime}
use proofops_memoryguard.Models.{
  Observation, StoredObservation, SubjectMemory, ObservationReceipt, empty_subject, kind_eq,
  mode_eq,
}
use proofops_memoryguard.Policy.Classify.{Classification, classify_observation, has_text}
use proofops_memoryguard.Proof.{compute_observation_hash, validate_subject}
use proofops_memoryguard.Ports.{MemoryPort}
use proofops_memoryguard.Guard.Checks.{check_observation}

-- The clock readings and the hex digits of the fresh identifier of one call.
pub record Fresh : Type 0 where
  pub hex : String
  pub opened_at : Datetime
  pub updated_at : Datetime

-- `next((item for item in items if item.idempotency_key == key), None)`
unfoldable pub find_duplicate : String → List StoredObservation → Option StoredObservation
find_duplicate key [] = none
find_duplicate key (item ∷ rest) =
    if item.idempotency_key == key then some item else find_duplicate key rest

unfoldable pub texts_eq : List String → List String → Bool
texts_eq [] [] = true
texts_eq (x ∷ xs) (y ∷ ys) = x == y && texts_eq xs ys
texts_eq _ _ = false

unfoldable pub optional_eq : Option String → Option String → Bool
optional_eq none none = true
optional_eq (some a) (some b) = a == b
optional_eq _ _ = false

-- every entry of the first dict has an equal one in the second
unfoldable pub entries_eq : Dict Value → Dict Value → Bool
entries_eq [] e = true
entries_eq ((k, v) ∷ d) e =
    elim (get k e) [ none ↦ false | some w ↦ value_eq v w ] && entries_eq d e

-- `==` on dicts
unfoldable pub facts_eq : Dict Value → Dict Value → Bool
facts_eq d e = eqb (length d) (length e) && entries_eq d e

-- `current or SubjectMemory.empty(ref)`
abbrev pub or_empty : String → Datetime → Option SubjectMemory → SubjectMemory
or_empty ref now none = empty_subject ref now
or_empty ref now (some s) = s

-- `_receipt`
unfoldable pub receipt_of : StoredObservation → SubjectMemory → ObservationReceipt
receipt_of item subject = record {
  observation_id = item.observation_id;
  status = item.status;
  accepted_fields = sorted_set (keys item.accepted_facts);
  quarantined_fields = item.quarantined_fields;
  reason_codes = item.reason_codes;
  memory_version = subject.version;
  memory_root = subject.memory_root;
  evidence_mode = item.evidence_mode;
  observed_at = item.observed_at;
}

module _ ⦃runtime : Runtime⦄ where
  -- `text_hash(raw_text) if raw_text else None`
  unfoldable pub raw_text_hash : Option String → Result (Option String)
  raw_text_hash none = ok none
  raw_text_hash (some s) =
      if s == "" then ok none else Errors.◌>>=◌ (text_hash s) (λ h. ok (some h))

  -- `same_request`, from the two hashes of the request
  unfoldable pub same_request :
      StoredObservation → Observation → Classification → String → Option String → Bool
  same_request item o c source raw =
      kind_eq item.kind o.kind
      && item.source_id == source
      && mode_eq item.evidence_mode o.evidence_mode
      && facts_eq item.accepted_facts c.accepted_facts
      && texts_eq item.quarantined_fields c.quarantined_fields
      && texts_eq item.reason_codes c.reason_codes
      && optional_eq item.raw_text_hash raw

  -- the new observation before it is hashed, and the hash put in
  unfoldable pub stored_observation :
      String
      → SubjectMemory
      → Observation
      → Classification
      → String
      → Option String
      → Fresh
      → StoredObservation
  stored_observation ref current o c source raw fresh = record {
    observation_id = concat "obs_" (slice fresh.hex 0 20);
    subject_ref = ref;
    session_id = o.session_id;
    kind = o.kind;
    source_id = source;
    evidence_mode = o.evidence_mode;
    status = c.status;
    accepted_facts = c.accepted_facts;
    quarantined_fields = c.quarantined_fields;
    reason_codes = c.reason_codes;
    raw_text_hash = raw;
    idempotency_key = o.idempotency_key;
    observed_at = o.observed_at;
    previous_hash = if eqb current.version 0 then zero_hash else current.memory_root;
    observation_hash = "";
  }

  abbrev pub hashed : StoredObservation → String → StoredObservation
  hashed item hash = record item { observation_hash = hash }

  unfoldable pub updated_subject :
      String → SubjectMemory → StoredObservation → Datetime → SubjectMemory
  updated_subject ref current stored now = record {
    subject_ref = ref;
    version = current.version + 1;
    memory_root = stored.observation_hash;
    observations = current.observations ++ stored ∷ [];
    updated_at = now;
  }

  module _ {M : Type 0} (port : MemoryPort M) where
    unfoldable pub append_observation :
        String → SubjectMemory → StoredObservation → String → Fresh → Exec M ObservationReceipt
    append_observation ref current item hash fresh = do
      let stored = hashed item hash
      let updated = updated_subject ref current stored fresh.updated_at
      lift (validate_subject updated)
      port.commit_observation current.version updated stored
      pure (receipt_of stored updated)

    unfoldable pub answer_repeat : Bool → ObservationReceipt → Exec M ObservationReceipt
    answer_repeat true receipt = pure receipt
    answer_repeat false receipt =
        raise (memory_conflict "idempotency key was already used for a different observation")

    unfoldable pub replay_or_append :
        String
        → SubjectMemory
        → Observation
        → Classification
        → Fresh
        → Option StoredObservation
        → Exec M ObservationReceipt
    replay_or_append ref current o c fresh (some item) = do
      source ← lift (domain_hash "source" (str o.source_id))
      raw ← lift (raw_text_hash o.raw_text)
      answer_repeat (same_request item o c source raw) (receipt_of item current)
    replay_or_append ref current o c fresh none = do
      source ← lift (domain_hash "source" (str o.source_id))
      raw ← lift (raw_text_hash o.raw_text)
      let item = stored_observation ref current o c source raw fresh
      hash ← lift (compute_observation_hash item)
      append_observation ref current item hash fresh

    unfoldable pub observe_subject :
        String → SubjectMemory → Observation → Fresh → Exec M ObservationReceipt
    observe_subject ref current o fresh = do
      lift (validate_subject current)
      c ← lift (classify_observation o)
      replay_or_append ref current o c fresh (find_duplicate o.idempotency_key current.observations)

    unfoldable pub observe : Observation → Fresh → Exec M ObservationReceipt
    observe o fresh = do
      lift (check_observation o)
      ref ← lift (subject_ref o.subject_id)
      found ← port.load_subject ref
      observe_subject ref (or_empty ref fresh.opened_at found) o fresh
