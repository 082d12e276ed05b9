-- ===== src/Casework/Digest.antt =====
-- `digest`, `scope_key`, `authorize` and `seal` of src/proofops_casework/core.py.
use proofops_memoryguard.Base.{
  String, Bool, true, false, Option, none, some, List, concat, if◌then◌else◌, contains, ◌&&◌, not,
  any_by, ◌≡◌, refl,
}
use proofops_memoryguard.Errors.{
  Result, ok, err, value_error, type_error, casework, raise_if, ◌>>=◌, ◌>>◌,
}
use proofops_memoryguard.Python.Number.{is_finite}
use proofops_memoryguard.Python.Value.{
  Value, float, time, list, dict, Items, nil, cons, Fields, end, field, fields,
}
use proofops_memoryguard.Python.Runtime.{Runtime}
use proofops_memoryguard.Casework.Models.{
  Actor, Role, Scope, Workspace, owner, investigator, reviewer, viewer,
}
use proofops_memoryguard.Casework.Values.{scope_value, state_payload}

-- what `json.dumps` raises on
unfoldable mutual
  pub check_json : Value → Result (Unit {0})
  check_json (float f) =
      if is_finite f
      then ok tt
      else err (value_error "Out of range float values are not JSON compliant")
  check_json (time d) = err (type_error "Object of type datetime is not JSON serializable")
  check_json (list xs) = check_items xs
  check_json (dict d) = check_fields d
  check_json v = ok tt

  pub check_items : Items → Result (Unit {0})
  check_items nil = ok tt
  check_items (cons v vs) = check_json v >> check_items vs

  pub check_fields : Fields → Result (Unit {0})
  check_fields end = ok tt
  check_fields (field k v r) = check_json v >> check_fields r

module _ ⦃runtime : Runtime⦄ where
  open runtime use {sha256, dumps}

  -- the hash once the text is made
  unfoldable pub hash_json : String → Value → String
  hash_json domain v =
      sha256 (concat (concat (concat "memoryguard-casework/v2\0" domain) "\0") (dumps v))

  unfoldable pub digest : String → Value → Result String
  digest domain v = do check_json v; ok (hash_json domain v)

  -- a scope holds only texts and a whole number, so its text is always made
  unfoldable pub scope_key : Scope → String
  scope_key s = hash_json "scope" (scope_value s)

  -- `seal`
  unfoldable pub seal : Workspace → Result Workspace
  seal w = do root ← digest "workspace" (state_payload w); ok (record w { state_root = root })

  -- `scope_key` is the digest of the scope, which never raises.
  pub scope_key-digest : (s : Scope) → digest "scope" (scope_value s) ≡ ok (scope_key s)
  unfolding digest scope_key scope_value check_json fields
  scope_key-digest s = refl

-- `role in roles` for the sets of service.py
abbrev role_eq : Role → Role → Bool
role_eq owner owner = true
role_eq investigator investigator = true
role_eq reviewer reviewer = true
role_eq viewer viewer = true
role_eq _ _ = false

unfoldable pub has_role : Role → List Role → Bool
has_role r = any_by (role_eq r)

-- `subject is not None and subject not in actor.subjects`, negated
abbrev sees : Actor → Option String → Bool
sees a none = true
sees a (some subject) = contains subject a.subjects

unfoldable pub authorize : Actor → List Role → Option String → Result (Unit {0})
authorize a roles subject =
    raise_if (not (has_role a.role roles && sees a subject)) (casework "FORBIDDEN" 403)
