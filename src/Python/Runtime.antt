-- ===== src/Python/Runtime.antt =====
-- The standard library's functions that the program calls and compares results of: SHA-256, JSON
-- text, Unicode, times, conversions and the regular expressions of free text.
use proofops_memoryguard.Base.{String, Bool, Option}
use proofops_memoryguard.Python.Number.{ℤ, Float, Datetime}
use proofops_memoryguard.Python.Value.{Value, str}

pub record Runtime : Type 0 where
  -- `hashlib.sha256(text.encode()).hexdigest()`
  pub sha256 : String → String
  -- `json.dumps(value, ensure_ascii=False, allow_nan=False, sort_keys=True, separators=(",", ":"))`
  pub dumps : Value → String
  -- `unicodedata.normalize("NFC", text)`
  pub nfc : String → String
  pub lower : String → String
  pub strip : String → String
  -- `text.replace("Z", "+00:00")`
  pub z_to_offset : String → String
  -- `datetime.fromisoformat`, which raises ValueError
  pub from_iso : String → Option Datetime
  pub isoformat : Datetime → String
  -- the text of a time in the JSON that pydantic writes
  pub json_time : Datetime → String
  -- `str(value)` of a value that is no text
  pub repr : Value → String
  -- `float(text)`, which raises ValueError
  pub float_of_str : String → Option Float
  -- `float(integer)`, which raises OverflowError
  pub float_of_int : ℤ → Option Float
  -- `re.search(pattern, text)`
  pub re_search : String → String → Bool

module _ ⦃runtime : Runtime⦄ where
  open runtime use {from_iso, z_to_offset}

  -- `str(value)`
  unfoldable pub str_of : Value → String
  str_of (str s) = s
  str_of v = runtime.repr v

  -- `datetime.fromisoformat(text.replace("Z", "+00:00"))`
  unfoldable pub parse_iso : String → Option Datetime
  parse_iso s = from_iso (z_to_offset s)
