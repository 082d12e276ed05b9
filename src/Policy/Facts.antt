-- ===== src/Policy/Facts.antt =====
-- `_validate_fact` of policy.py with the tables that it reads.
use proofops_memoryguard.Base.{
  String, Bool, true, false, Option, none, some, List, [], ◌∷◌, ◌&&◌, ◌||◌, ◌==◌, contains,
  if◌then◌else◌,
}
use proofops_memoryguard.Errors.{Result, ok, overflow_error, ◌>>=◌, or_raise}
use proofops_memoryguard.Python.Number.{
  ℤ, pos, Float, Datetime, is_finite, float_le, float_gt, float_zero, million, is_naive, as_utc,
  eqb_ℤ,
}
use proofops_memoryguard.Python.Value.{Value, int, float, str}
use proofops_memoryguard.Python.Text.{
  codes, is_letter, is_alphanumeric, is_word, is_identifier_part, matches_word, matches_address,
}
use proofops_memoryguard.Python.Runtime.{Runtime, parse_iso}
use proofops_memoryguard.Models.{
  ObservationKind, baseline_approved, dispute_opened, target_revoked, vendor_note, kind_eq,
}

-- `_EVM_ADDRESS.fullmatch`
unfoldable pub is_evm_address : String → Bool
is_evm_address s = matches_address (codes s)

-- `_MACHINE_ID.fullmatch`
unfoldable pub is_machine_id : String → Bool
is_machine_id s = matches_word is_alphanumeric is_identifier_part 2 127 (codes s)

-- `_METHOD.fullmatch`
unfoldable pub is_method : String → Bool
is_method s = matches_word is_letter is_word 0 63 (codes s)

abbrev pub revocation_reasons : List String
revocation_reasons = "user_revoked" ∷ "security_incident" ∷ "compliance_hold" ∷ "manual_block" ∷ []

-- `_ALLOWED_FIELDS[kind]`
unfoldable pub allowed_fields : ObservationKind → List String
allowed_fields baseline_approved =
    "chain_id" ∷ "target" ∷ "method" ∷ "max_amount_usd" ∷ "expires_at" ∷ []
allowed_fields dispute_opened = "target" ∷ "dispute_id" ∷ "status" ∷ []
allowed_fields target_revoked = "target" ∷ "reason_code" ∷ []
allowed_fields vendor_note = []

-- `value in {8453, 84532}`
unfoldable pub is_base_chain : ℤ → Bool
is_base_chain z = eqb_ℤ z (pos 8453) || eqb_ℤ z (pos 84532)

-- `(valid, normalized, reason)`: a valid fact has no reason, an invalid one no value.
pub data FactCheck : Type 0 where
  valid : Value → FactCheck
  invalid : String → FactCheck

-- the range that an amount must lie in
unfoldable pub is_amount : Float → Bool
is_amount a = is_finite a && (if float_le a float_zero || float_gt a million then false else true)

unfoldable pub check_amount : Float → FactCheck
check_amount a = if is_amount a then valid (float a) else invalid "invalid_max_amount"

module _ ⦃runtime : Runtime⦄ where
  open runtime use {lower, isoformat, float_of_int}

  unfoldable pub validate_target : Value → FactCheck
  validate_target (str s) =
      if is_evm_address s then valid (str (lower s)) else invalid "invalid_target"
  validate_target v = invalid "invalid_target"

  unfoldable pub validate_chain_id : Value → FactCheck
  validate_chain_id (int z) = if is_base_chain z then valid (int z) else invalid "invalid_chain_id"
  validate_chain_id v = invalid "invalid_chain_id"

  unfoldable pub validate_method : Value → FactCheck
  validate_method (str s) = if is_method s then valid (str s) else invalid "invalid_method"
  validate_method v = invalid "invalid_method"

  -- `float(value)` of an integer beyond the floats raises OverflowError, which nothing catches.
  unfoldable pub validate_max_amount : Value → Result FactCheck
  validate_max_amount (int z) = do
    amount ← or_raise (float_of_int z) (overflow_error "int too large to convert to float")
    ok (check_amount amount)
  validate_max_amount (float a) = ok (check_amount a)
  validate_max_amount v = ok (invalid "invalid_max_amount")

  abbrev check_expiry : Option Datetime → FactCheck
  check_expiry none = invalid "invalid_expiry"
  check_expiry (some parsed) =
      if is_naive parsed then invalid "invalid_expiry" else valid (str (isoformat (as_utc parsed)))

  unfoldable pub validate_expires_at : Value → FactCheck
  validate_expires_at (str s) = check_expiry (parse_iso s)
  validate_expires_at v = invalid "invalid_expiry"

  unfoldable pub validate_status : ObservationKind → Value → FactCheck
  validate_status kind (str s) =
      if kind_eq kind dispute_opened && s == "open"
      then valid (str "open")
      else invalid "invalid_dispute_status"
  validate_status kind v = invalid "invalid_dispute_status"

  unfoldable pub validate_dispute_id : Value → FactCheck
  validate_dispute_id (str s) =
      if is_machine_id s then valid (str s) else invalid "invalid_dispute_id"
  validate_dispute_id v = invalid "invalid_dispute_id"

  unfoldable pub validate_reason_code : Value → FactCheck
  validate_reason_code (str s) =
      if contains s revocation_reasons then valid (str s) else invalid "invalid_reason_code"
  validate_reason_code v = invalid "invalid_reason_code"

  -- `_validate_fact`
  unfoldable pub validate_fact : ObservationKind → String → Value → Result FactCheck
  validate_fact kind key v =
      if key == "target"
      then ok (validate_target v)
      else if key == "chain_id"
      then ok (validate_chain_id v)
      else if key == "method"
      then ok (validate_method v)
      else if key == "max_amount_usd"
      then validate_max_amount v
      else if key == "expires_at"
      then ok (validate_expires_at v)
      else if key == "status"
      then ok (validate_status kind v)
      else if key == "dispute_id"
      then ok (validate_dispute_id v)
      else if key == "reason_code"
      then ok (validate_reason_code v)
      else ok (invalid "unknown_fact_field")
