-- ===== src/Canonical.antt =====
-- src/proofops_memoryguard/canonical.py: canonical values and the hashes over them. A value that
-- is not canonical makes the hash raise.
use proofops_memoryguard.Base.{String, if◌then◌else◌, concat}
use proofops_memoryguard.Errors.{Result, ok, err, value_error, ◌>>=◌}
use proofops_memoryguard.Python.Number.{is_finite}
use proofops_memoryguard.Python.Value.{
  Value, null, bool, int, float, str, time, list, dict, Items, nil, cons, Fields, end, field,
}
use proofops_memoryguard.Python.Runtime.{Runtime}

abbrev pub domain : String
domain = "proofops-memoryguard/v1"

abbrev pub zero_hash : String
zero_hash = "0000000000000000000000000000000000000000000000000000000000000000"

module _ ⦃runtime : Runtime⦄ where
  open runtime use {sha256, dumps, nfc, lower, strip, isoformat}

  unfoldable mutual
    pub normalize : Value → Result Value
    normalize null = ok null
    normalize (bool b) = ok (bool b)
    normalize (int z) = ok (int z)
    normalize (float f) =
        if is_finite f
        then ok (float f)
        else err (value_error "non-finite numbers are not canonical")
    normalize (str s) = ok (str (nfc s))
    normalize (time d) = ok (str (isoformat d))
    normalize (list xs) = do ys ← normalize_items xs; ok (list ys)
    normalize (dict d) = do e ← normalize_fields d; ok (dict e)

    pub normalize_items : Items → Result Items
    normalize_items nil = ok nil
    normalize_items (cons v vs) = do w ← normalize v; ws ← normalize_items vs; ok (cons w ws)

    pub normalize_fields : Fields → Result Fields
    normalize_fields end = ok end
    normalize_fields (field k v r) = do w ← normalize v; s ← normalize_fields r; ok (field k w s)

  unfoldable pub canonical_json : Value → Result String
  canonical_json v = do w ← normalize v; ok (dumps w)

  unfoldable pub domain_hash : String → Value → Result String
  domain_hash d v = do
    text ← canonical_json v
    ok (sha256 (concat (concat (concat (concat domain ":") d) "\0") text))

  unfoldable pub text_hash : String → Result String
  text_hash s = domain_hash "external-text" (str (nfc s))

  unfoldable pub subject_ref : String → Result String
  subject_ref s = domain_hash "subject" (str (lower (strip s)))
