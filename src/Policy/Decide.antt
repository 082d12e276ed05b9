-- ===== src/Policy/Decide.antt =====
-- `decide` of policy.py: revocations first, then open disputes, then baselines that cover the
-- intent. The time of the call is an argument.
pub mod Verdicts
pub mod Tests
use proofops_memoryguard.Base.{
  ℕ, String, Bool, true, false, Option, none, some, List, [], ◌∷◌, ◌&&◌, ◌||◌, ◌==◌, not, Dict, get,
  filter_by, last_one, is_empty, map, if◌then◌else◌, leb,
}
use proofops_memoryguard.Errors.{
  Result, ok, err, value_error, type_error, overflow_error, ◌>>=◌, or_raise,
}
use proofops_memoryguard.Python.Number.{
  ℤ, pos, Float, Datetime, float_le, float_zero, int_as_float, as_utc, is_naive,
}
use proofops_memoryguard.Python.Value.{
  Value, null, bool, int, float, str, time, list, dict, value_eq, truthy,
}
use proofops_memoryguard.Python.Runtime.{Runtime, str_of, parse_iso}
use proofops_memoryguard.Models.{
  StoredObservation, PaymentIntent, EvidenceMode, demo_fixture, caller_supplied, identity_verified,
  base_testnet, base_mainnet, mode_eq, ObservationStatus, accepted, partially_accepted, quarantined,
  review_required, ObservationKind, baseline_approved, dispute_opened, target_revoked, kind_eq,
  Verdict, ready, deny, needs_human,
}
use proofops_memoryguard.Policy.Classify.{is_trusted}

pub record PolicyDecision : Type 0 where
  pub verdict : Verdict
  pub reason_codes : List String
  pub causal_memory_ids : List String

-- `status in {ACCEPTED, PARTIALLY_ACCEPTED}`
unfoldable pub is_active_status : ObservationStatus → Bool
is_active_status accepted = true
is_active_status partially_accepted = true
is_active_status quarantined = false
is_active_status review_required = false

-- `mode in {IDENTITY_VERIFIED, BASE_TESTNET, BASE_MAINNET}`
unfoldable pub is_verified_mode : EvidenceMode → Bool
is_verified_mode demo_fixture = false
is_verified_mode caller_supplied = false
is_verified_mode _ = true

-- `_active_for_mode`
unfoldable pub active_for_mode : StoredObservation → EvidenceMode → Bool
active_for_mode item mode =
    if not (is_active_status item.status)
    then false
    else if mode_eq mode demo_fixture
    then is_trusted item.evidence_mode
    else is_verified_mode item.evidence_mode

unfoldable pub observation_ids : List StoredObservation → List String
observation_ids = map (λ item. item.observation_id)

-- `facts.get(key) == value`
unfoldable pub fact_equals : String → Value → Dict Value → Bool
fact_equals key v facts = elim (get key facts) [ none ↦ false | some w ↦ value_eq w v ]

unfoldable pub revoked_decision : List StoredObservation → PolicyDecision
revoked_decision items = record {
  verdict = deny;
  reason_codes = "target_revoked_in_persistent_memory" ∷ [];
  causal_memory_ids = observation_ids items;
}

unfoldable pub disputed_decision : List StoredObservation → PolicyDecision
disputed_decision items = record {
  verdict = deny;
  reason_codes = "open_dispute_recalled_from_persistent_memory" ∷ [];
  causal_memory_ids = observation_ids items;
}

unfoldable pub baseline_decision : List StoredObservation → PolicyDecision
baseline_decision items =
    if not (is_empty items)
    then record {
      verdict = ready;
      reason_codes = "trusted_baseline_recalled" ∷ "human_confirmation_still_required" ∷ [];
      causal_memory_ids = observation_ids (last_one items);
    }
    else record {
      verdict = needs_human;
      reason_codes = "no_authoritative_memory_for_target" ∷ [];
      causal_memory_ids = [];
    }

module _ ⦃runtime : Runtime⦄ where
  open runtime use {lower, float_of_int, float_of_str}

  -- `str(facts.get(key, default)).lower()`
  unfoldable pub fact_text : String → String → Dict Value → String
  fact_text key default facts = lower (elim (get key facts) [ none ↦ default | some v ↦ str_of v ])

  -- `str(item.accepted_facts.get("target", "")).lower() == target`
  unfoldable pub names_target : PaymentIntent → StoredObservation → Bool
  names_target intent item = fact_text "target" "" item.accepted_facts == lower intent.target

  unfoldable pub revokes : PaymentIntent → StoredObservation → Bool
  revokes intent item = kind_eq item.kind target_revoked && names_target intent item

  unfoldable pub disputes : PaymentIntent → StoredObservation → Bool
  disputes intent item =
      kind_eq item.kind dispute_opened
      && names_target intent item
      && not (fact_text "status" "open" item.accepted_facts == "resolved")

  unfoldable pub approves : PaymentIntent → StoredObservation → Bool
  approves intent item =
      kind_eq item.kind baseline_approved
      && names_target intent item
      && fact_equals "chain_id" (int intent.chain_id) item.accepted_facts
      && fact_equals "method" (str intent.method) item.accepted_facts

  -- `float(value)`
  unfoldable pub as_float : Value → Result Float
  as_float (float f) = ok f
  as_float (int z) = or_raise (float_of_int z) (overflow_error "int too large to convert to float")
  as_float (bool true) = ok (int_as_float (pos 1))
  as_float (bool false) = ok float_zero
  as_float (str s) = or_raise (float_of_str s) (value_error "could not convert string to float")
  as_float v = err (type_error "float() argument must be a string or a real number")

  -- `float(item.accepted_facts.get("max_amount_usd", 0))`
  unfoldable pub limit_of : StoredObservation → Result Float
  limit_of item = elim (get "max_amount_usd" item.accepted_facts) [
    | none ↦ as_float (int (pos 0))
    | some v ↦ as_float v
  ]

  -- Whether `if expires:` holds and the time has come; a naive time is read as one of UTC.
  unfoldable pub has_expired : Datetime → StoredObservation → Result Bool
  has_expired now item = elim (get "expires_at" item.accepted_facts) [
    | none ↦ ok false
    | some v ↦
        if truthy v
        then (do
          parsed ← or_raise (parse_iso (str_of v)) (value_error "Invalid isoformat string")
          ok (leb (if is_naive parsed then as_utc parsed else parsed).instant now.instant))
        else ok false
  ]

  -- the body of the loop over the baselines: whether the item is appended
  unfoldable pub covers : PaymentIntent → Datetime → StoredObservation → Result Bool
  covers intent now item = do
    limit ← limit_of item
    expired ← has_expired now item
    ok (if expired then false else float_le intent.amount_usd limit)

  unfoldable pub valid_baselines :
      PaymentIntent → Datetime → List StoredObservation → Result (List StoredObservation)
  valid_baselines intent now [] = ok []
  valid_baselines intent now (item ∷ rest) = do
    keep ← covers intent now item
    more ← valid_baselines intent now rest
    ok (if keep then item ∷ more else more)

  unfoldable pub decide_active :
      PaymentIntent → Datetime → List StoredObservation → Result PolicyDecision
  decide_active intent now active =
      let revocations = filter_by (revokes intent) active in
      let open_disputes = filter_by (disputes intent) active in
      if not (is_empty revocations)
      then ok (revoked_decision revocations)
      else if not (is_empty open_disputes)
      then ok (disputed_decision open_disputes)
      else do
        valid ← valid_baselines intent now (filter_by (approves intent) active)
        ok (baseline_decision valid)

  unfoldable pub active_items : PaymentIntent → List StoredObservation → List StoredObservation
  active_items intent = filter_by (λ item. active_for_mode item intent.evidence_mode)

  unfoldable pub decide : PaymentIntent → List StoredObservation → Datetime → Result PolicyDecision
  decide intent observations now = decide_active intent now (active_items intent observations)
