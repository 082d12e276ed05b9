-- ===== src/Samples.antt =====
-- Concrete inputs for the tests: a runtime whose digest is its text and whose JSON is a plain
-- rendering, one observation of each decisive kind, and an intent on their target.
use proofops_memoryguard.Base.{
  ℕ, ◌*◌, ◌^◌, String, true, false, none, some, List, [], ◌∷◌, concat, if◌then◌else◌, ◌==◌, get,
  put, remove, contains, sorted_set, insert_sorted, filter_by, any_by, all_by, last_one,
}
use proofops_memoryguard.Errors.{Result, ok, err}
use proofops_memoryguard.Canonical.{normalize, canonical_json, domain_hash, text_hash, subject_ref}
use proofops_memoryguard.Python.Number.{
  pos, negsuc, Float, finite, Datetime, units, in_units, int_as_float, float_le, float_gt, float_eq,
  is_finite, million,
}
use proofops_memoryguard.Python.Value.{
  Value, null, bool, int, float, str, time, list, dict, Items, nil, cons, Fields, end, field, items,
  fields, string_items, numeric, numeric_eq, length_fields, field?, value_eq, truthy,
}
use proofops_memoryguard.Python.Text.{
  codes, is_letter, is_digit, is_hex, is_alphanumeric, is_word, is_identifier_part, matches_word,
  matches_address,
}
use proofops_memoryguard.Python.Runtime.{Runtime, str_of, parse_iso}
use proofops_memoryguard.Models.{
  Observation, PaymentIntent, identity_verified, caller_supplied, baseline_approved, target_revoked,
  empty_subject, DecisionDraft, memory_unavailable, not_configured,
}
use proofops_memoryguard.Policy.Facts.{
  is_evm_address, is_machine_id, is_method, allowed_fields, is_base_chain, is_amount, check_amount,
  validate_target, validate_chain_id, validate_method, validate_max_amount, validate_expires_at,
  validate_status, validate_dispute_id, validate_reason_code, validate_fact,
}
use proofops_memoryguard.Policy.Classify.{
  is_trusted, hold, sort_checked, sort_fact, sort_facts, matched_codes, hold_raw_text,
  drop_untrusted, drop_vendor_note, classified_status, classification_of, settle,
  classify_observation,
}
use proofops_memoryguard.Policy.Decide
use proofops_memoryguard.Policy.Decide.{
  is_active_status, is_verified_mode, active_for_mode, observation_ids, fact_equals, fact_text,
  names_target, revokes, disputes, approves, as_float, limit_of, has_expired, covers,
  valid_baselines, revoked_decision, disputed_decision, baseline_decision, decide_active,
  active_items,
}
use proofops_memoryguard.Proof.{
  observation_hash_payload, compute_observation_hash, check_chain, validate_subject,
  intent_hash_payload, compute_intent_hash, decision_proof_payload, compute_decision_proof_root,
  validate_decision,
}
use proofops_memoryguard.Memory.{
  load_subject, commit_observation, save_decision, load_decision, save_finalization,
  load_finalization,
}
use proofops_memoryguard.Guard.{Guard}
use proofops_memoryguard.Guard.Checks.{
  matches_identifier, is_machine_identifier, validate_identifier, validate_machine_identifier,
  check_observation, check_intent,
}
use proofops_memoryguard.Guard.Observe.{
  find_duplicate, texts_eq, optional_eq, entries_eq, facts_eq, receipt_of, raw_text_hash,
  same_request, stored_observation, updated_subject, append_observation, answer_repeat,
  replay_or_append, observe_subject, observe,
}
use proofops_memoryguard.Guard.Observe
use proofops_memoryguard.Guard.Decide as Deciding
use proofops_memoryguard.Guard.Decide.{
  add_seconds, is_cross_session, safe_intent, draft_of, save_draft, decide_subject,
}
use proofops_memoryguard.Guard.Finalize.{
  memory_unchanged, matches_decision, is_terminal, reuse, verified_result, planned_result,
  save_result, keep_verified, finalize_new, reuse_or_go_on, finalize_checked, check_memory,
  check_ready, finalize_decision, finalize, inspect_finalization,
}

abbrev mutual
  render : Value → String
  render null = "null"
  render (bool true) = "true"
  render (bool false) = "false"
  render (int z) = "int"
  render (float f) = "float"
  render (str s) = concat (concat "'" s) "'"
  render (time d) = "time"
  render (list xs) = concat (concat "[" (render_items xs)) "]"
  render (dict d) = concat (concat "{" (render_fields d)) "}"

  render_items : Items → String
  render_items nil = ""
  render_items (cons v vs) = concat (concat (render v) ",") (render_items vs)

  render_fields : Fields → String
  render_fields end = ""
  render_fields (field k v r) =
      concat (concat (concat (concat k ":") (render v)) ",") (render_fields r)

abbrev pub noon : Datetime
noon = record { instant = 1000000; zone = some (pos 0) }

abbrev pub dollars : ℕ → Float
dollars n = finite (pos (n * 2 ^ 1074))

instance abbrev pub demo_runtime : Runtime
demo_runtime = record {
  sha256 = λ t. t;
  dumps = render;
  nfc = λ t. t;
  lower = λ t. t;
  strip = λ t. t;
  z_to_offset = λ t. t;
  from_iso =
      λ t. if t == "later" then some (record { instant = 9000000; zone = some (pos 0) }) else none;
  isoformat = λ d. "later";
  json_time = λ d. "later";
  repr = λ v. "value";
  float_of_str = λ t. none;
  float_of_int = λ z. elim z [ pos n ↦ some (dollars n) | negsuc n ↦ none ];
  re_search = λ p t. false;
}

abbrev pub payee : String
payee = "0xaaaaaaaaaaaaaaaaaaaaaaaaaaaaaaaaaaaaaaaa"

abbrev baseline_facts : List (String × Value)
baseline_facts =
    ("chain_id", int (pos 8453))
    ∷ ("target", str payee)
    ∷ ("method", str "pay")
    ∷ ("max_amount_usd", float (dollars 100))
    ∷ ("note", str "free")
    ∷ []

abbrev pub baseline : Observation
baseline = record {
  subject_id = "vendor-1";
  session_id = "session-1";
  kind = baseline_approved;
  source_id = "registry";
  facts = baseline_facts;
  raw_text = none;
  evidence_mode = identity_verified;
  idempotency_key = "baseline-key";
  observed_at = noon;
}

abbrev pub revocation : Observation
revocation = record {
  subject_id = "vendor-1";
  session_id = "session-1";
  kind = target_revoked;
  source_id = "registry";
  facts = ("target", str payee) ∷ ("reason_code", str "user_revoked") ∷ [];
  raw_text = some "pay now";
  evidence_mode = identity_verified;
  idempotency_key = "revocation-key";
  observed_at = noon;
}

abbrev pub hearsay : Observation
hearsay = record revocation { evidence_mode = caller_supplied }

abbrev pub intent : PaymentIntent
intent = record {
  subject_id = "vendor-1";
  session_id = "session-2";
  chain_id = pos 8453;
  target = payee;
  method = "pay";
  amount_usd = dollars 20;
  idempotency_key = "intent-key";
  evidence_mode = identity_verified;
  created_at = noon;
}

abbrev pub guard : Guard
guard = record { policy_hash = "policy"; decision_ttl = 600 }

abbrev pub observing : Observe.Fresh
observing = record { hex = "00000000000000000001"; opened_at = noon; updated_at = noon }

abbrev pub deciding : Deciding.Fresh
deciding = record {
  hex = "00000000000000000002";
  nonce = "nonce";
  opened_at = noon;
  decided_at = noon;
  created_at = noon;
}

abbrev pub value_of {ℓ} : {A : Type ℓ} → Result A → A → A
value_of (ok a) b = a
value_of (err e) b = b

abbrev pub no_draft : DecisionDraft
no_draft = record {
  decision_id = "";
  subject_ref = "";
  session_id = "";
  verdict = memory_unavailable;
  reason_codes = [];
  causal_memory_ids = [];
  cross_session = false;
  memory_version = 0;
  memory_root = "";
  policy_hash = "";
  intent = intent;
  intent_hash = "";
  proof_root = "";
  nonce = "";
  created_at = noon;
  expires_at = noon;
  anchor_state = not_configured;
}

-- Whoever unfolds this runs the program.
unfoldable pub running : Unit {0}
unfolding get put remove contains insert_sorted sorted_set filter_by any_by all_by last_one
    normalize canonical_json domain_hash text_hash subject_ref units in_units int_as_float float_le
    float_gt float_eq is_finite million items fields string_items numeric numeric_eq length_fields
    field? value_eq truthy codes is_letter is_digit is_hex is_alphanumeric is_word
    is_identifier_part matches_word matches_address str_of parse_iso empty_subject is_evm_address
    is_machine_id is_method allowed_fields is_base_chain is_amount check_amount validate_target
    validate_chain_id validate_method validate_max_amount validate_expires_at validate_status
    validate_dispute_id validate_reason_code validate_fact is_trusted hold sort_checked sort_fact
    sort_facts matched_codes hold_raw_text drop_untrusted drop_vendor_note classified_status
    classification_of settle classify_observation is_active_status is_verified_mode active_for_mode
    observation_ids fact_equals fact_text names_target revokes disputes approves as_float limit_of
    has_expired covers valid_baselines revoked_decision disputed_decision baseline_decision
    decide_active active_items Decide.decide observation_hash_payload compute_observation_hash
    check_chain validate_subject intent_hash_payload compute_intent_hash decision_proof_payload
    compute_decision_proof_root validate_decision load_subject commit_observation save_decision
    load_decision save_finalization load_finalization matches_identifier is_machine_identifier
    validate_identifier validate_machine_identifier check_observation check_intent find_duplicate
    texts_eq optional_eq entries_eq facts_eq receipt_of raw_text_hash same_request
    stored_observation updated_subject append_observation answer_repeat replay_or_append
    observe_subject observe add_seconds is_cross_session safe_intent draft_of save_draft
    decide_subject Deciding.decide memory_unchanged matches_decision is_terminal reuse
    verified_result planned_result save_result keep_verified finalize_new reuse_or_go_on
    finalize_checked check_memory check_ready finalize_decision finalize inspect_finalization
running = tt
