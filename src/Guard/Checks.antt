-- ===== src/Guard/Checks.antt =====
-- The validation of identifiers and of whole requests in module.py.
use proofops_memoryguard.Base.{
  ℕ, String, Bool, true, false, Option, none, some, List, [], ◌∷◌, not, ◌&&◌, ltb, leb, length,
  any_by, all_by, concat, if◌then◌else◌,
}
use proofops_memoryguard.Errors.{Result, value_error, ◌>>◌, raise_if}
use proofops_memoryguard.Python.Number.{float_le, float_gt, float_zero, million}
use proofops_memoryguard.Python.Text.{codes, is_alphanumeric, is_identifier_part}
use proofops_memoryguard.Python.Runtime.{Runtime}
use proofops_memoryguard.Models.{Observation, PaymentIntent}
use proofops_memoryguard.Policy.Facts.{is_evm_address, is_method, is_base_chain}
use proofops_memoryguard.Policy.Classify.{has_text}

-- `[minimum, maximum]`, with the text that messages show
pub record Limits : Type 0 where
  pub minimum : ℕ
  pub maximum : ℕ
  pub shown : String

abbrev pub default_limits : Limits
default_limits = record { minimum = 3; maximum = 200; shown = "[3, 200]" }

abbrev pub machine_limits : Limits
machine_limits = record { minimum = 8; maximum = 128; shown = "[8, 128]" }

abbrev pub method_limits : Limits
method_limits = record { minimum = 1; maximum = 120; shown = "[1, 120]" }

-- `_MACHINE_IDENTIFIER.fullmatch`
unfoldable pub matches_identifier : List ℕ → Bool
matches_identifier [] = false
matches_identifier (c ∷ cs) = is_alphanumeric c && all_by is_identifier_part cs

unfoldable pub is_machine_identifier : String → Bool
is_machine_identifier s = matches_identifier (codes s)

module _ ⦃runtime : Runtime⦄ where
  open runtime use {strip}

  -- `_validate_identifier`
  unfoldable pub validate_identifier : Limits → String → String → Result (Unit {0})
  validate_identifier limits name value = do
    let size = length (codes (strip value))
    raise_if (not (leb limits.minimum size && leb size limits.maximum))
        (value_error (concat (concat name " length must be in ") limits.shown))
    raise_if (any_by (λ char. ltb char 32) (codes value))
        (value_error (concat name " cannot contain control characters"))

  -- `_validate_machine_identifier`
  unfoldable pub validate_machine_identifier : String → String → Result (Unit {0})
  validate_machine_identifier name value = do
    validate_identifier machine_limits name value
    raise_if (not (is_machine_identifier value))
        (value_error (concat name " must be a stable machine identifier"))

  abbrev text_length : Option String → ℕ
  text_length none = 0
  text_length (some s) = length (codes s)

  -- the checks at the head of `observe`
  unfoldable pub check_observation : Observation → Result (Unit {0})
  check_observation o = do
    validate_identifier default_limits "subject_id" o.subject_id
    validate_machine_identifier "session_id" o.session_id
    validate_identifier default_limits "source_id" o.source_id
    validate_machine_identifier "idempotency_key" o.idempotency_key
    raise_if (has_text o.raw_text && ltb 10000 (text_length o.raw_text))
        (value_error "raw_text exceeds 10,000 characters")

  -- the checks at the head of `decide`
  unfoldable pub check_intent : PaymentIntent → Result (Unit {0})
  check_intent intent = do
    validate_identifier default_limits "subject_id" intent.subject_id
    validate_machine_identifier "session_id" intent.session_id
    validate_machine_identifier "idempotency_key" intent.idempotency_key
    validate_identifier method_limits "method" intent.method
    raise_if (not (is_method intent.method))
        (value_error "method must be a stable machine identifier")
    raise_if (not (is_base_chain intent.chain_id))
        (value_error "MemoryGuard contest flow only supports Base chain 8453 or 84532")
    raise_if (not (is_evm_address intent.target))
        (value_error "target must be a 20-byte EVM address")
    raise_if
        (if float_le intent.amount_usd float_zero then true else float_gt intent.amount_usd million)
        (value_error "amount_usd must be in (0, 1,000,000]")
