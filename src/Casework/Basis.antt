-- ===== src/Casework/Basis.antt =====
-- `task_basis`, `active_precedents` and `investigation_basis` of src/proofops_casework/core.py, with
-- `evidence_heads` and `evidence_basis` of src/proofops_casework/source_state.py: the memory that a
-- decision or a report rests on, under one hash.
pub mod Closure
use proofops_memoryguard.Base.{
  ℕ, String, Bool, true, false, not, ◌&&◌, ◌||◌, Option, none, some, List, [], ◌∷◌, ◌++◌, map, Dict,
  get, put, remove, keys, contains, filter_by, is_empty, is_some, sort_texts, sort_entries, ◌==◌,
  if◌then◌else◌,
}
use proofops_memoryguard.Errors.{
  Result, ok, err, outside, type_error, casework, or_raise, raise_if, ◌>>=◌, ◌>>◌,
}
use proofops_memoryguard.Python.Value.{
  Value, null, str, list, dict, field, end, strings, optional_str, value_eq,
}
use proofops_memoryguard.Python.Runtime.{Runtime}
use proofops_memoryguard.Casework.Models.{
  Intent, RiskCase, Task, Workspace, task_status_value, case_kind_value, is_resolved,
}
use proofops_memoryguard.Casework.Values.{
  nat, optional_nat, dict_of, plain, intent_value, case_value, baseline_value,
}
use proofops_memoryguard.Casework.Digest.{digest, scope_key}
use proofops_memoryguard.Casework.Ancestors.{ancestors}
use proofops_memoryguard.Casework.Affected.{affected_tasks}

-- `d[key]`
abbrev pub item : {V : Type 0} → String → Dict V → Result V
item key d = or_raise (get key d) (outside "KeyError" key)

-- `d.get(name) == value` of a stored dictionary, where a missing name reads as None
abbrev pub reads : String → Value → Dict Value → Bool
reads name v d = elim (get name d) [ none ↦ value_eq null v | some w ↦ value_eq w v ]

-- `d.get(value)`: a list or a dictionary cannot be looked up, and only a text can be a key
unfoldable pub look_up : {V : Type 0} → Option Value → Dict V → Result (Option V)
look_up (some (str s)) d = ok (get s d)
look_up (some (list xs)) d = err (type_error "unhashable type: 'list'")
look_up (some (dict e)) d = err (type_error "unhashable type: 'dict'")
look_up v d = ok none

-- the entries of some keys
unfoldable pub entries_of :
    {V W : Type 0} → (String → V → Result W) → Dict V → List String → Result (Dict W)
entries_of make d [] = ok []
entries_of make d (key ∷ ks) = do
  v ← item key d
  w ← make key v
  rest ← entries_of make d ks
  ok ((key, w) ∷ rest)

-- the tasks that a task rests on, itself the last
unfoldable pub closure : Workspace → String → Result (Dict Task)
closure w task_id = do ks ← ancestors w.tasks task_id; entries_of (λ key task. ok task) w.tasks ks

-- `value.get("kind") == "CASE_RESOLUTION_PROOF" and value.get("case_id") in body["cases"]`
unfoldable pub is_link : Dict RiskCase → Dict Value → Result Bool
is_link cases value =
    if reads "kind" (str "CASE_RESOLUTION_PROOF") value
    then look_up (get "case_id" value) cases >>= (λ c. ok (is_some c))
    else ok false

-- the entries that a test keeps, where the test may raise
unfoldable pub filter_entries : {V : Type 0} → (V → Result Bool) → Dict V → Result (Dict V)
filter_entries test [] = ok []
filter_entries test ((key, v) ∷ d) = do
  kept ← test v
  rest ← filter_entries test d
  ok (if kept then (key, v) ∷ rest else rest)

-- the entry of a task in the basis of `task_id`: of a parent, its decision and its status as well
unfoldable pub basis_entry : String → String → Task → Value
basis_entry task_id key task =
    let parent = not (key == task_id) in
    plain (
      ("intent", intent_value task.intent)
      ∷ ("depends_on", strings task.depends_on)
      ∷ ("parent_decision", if parent then optional_str task.current_decision_id else null)
      ∷ ("parent_status", if parent then str (task_status_value task.status) else null)
      ∷ [])

module _ ⦃runtime : Runtime⦄ where
  -- `{scope_key(state.tasks[key].intent.scope) for key in closure}`
  unfoldable pub scopes_of : Dict Task → List String
  scopes_of tasks = map (λ e. scope_key e.1.intent.scope) tasks

  abbrev pub in_scopes : List String → String × RiskCase → Bool
  in_scopes scopes e = contains (scope_key e.1.scope) scopes

  unfoldable pub task_basis : Workspace → String → Result String
  task_basis w task_id = do
    tasks ← closure w task_id
    let scopes = scopes_of tasks
    let cases = filter_by (in_scopes scopes) w.cases
    links ← filter_entries (is_link cases) w.artifacts
    digest "task-basis" (
        plain (
          ("tasks", plain (map (λ e. (e.0, basis_entry task_id e.0 e.1)) tasks))
          ∷ ("baselines", dict_of baseline_value (filter_by (λ e. contains e.0 scopes) w.baselines))
          ∷ ("cases", dict_of case_value cases)
          ∷ (if is_empty links then [] else ("resolution_evidence", dict_of plain links) ∷ [])))

  -- a lesson of another case, still resolved as it was, in the scope and of the kind of this one
  unfoldable pub is_precedent : String → RiskCase → Option RiskCase → Dict Value → Bool
  is_precedent case_id current none lesson = false
  is_precedent case_id current (some source) lesson =
      not (source.case_id == case_id)
      && is_resolved source
      && reads "case_version" (nat source.version) lesson
      && reads "resolved_seq" (optional_nat source.resolved_seq) lesson
      && reads "scope_key" (str (scope_key current.scope)) lesson
      && reads "kind" (str (case_kind_value current.kind)) lesson

  unfoldable pub active_precedents : Workspace → String → Result (List String)
  active_precedents w case_id = do
    current ← item case_id w.cases
    found ←
        filter_entries
          (λ lesson.
            look_up (some (elim (get "case_id" lesson) [ none ↦ str "" | some v ↦ v ])) w.cases
            >>= (λ source. ok (is_precedent case_id current source lesson)))
          w.lessons
    ok (sort_texts (keys found))

-- The heads of the case as it is now, under their sources. The ids of sources are texts.
abbrev pub is_head : RiskCase → String → Dict Value → Bool
is_head c case_id head =
    reads "kind" (str "SOURCE_HEAD") head
    && reads "case_id" (str case_id) head
    && reads "case_version" (nat c.version) head

unfoldable pub add_head : Option Value → Dict Value → Dict (Dict Value) → Result (Dict (Dict Value))
add_head (some (str source)) head result =
    raise_if (contains source (keys result)) (casework "SOURCE_CONFLICT" 503)
    >> ok (put source head result)
add_head source head result = err (type_error "the id of a source is a text")

unfoldable pub heads_among :
    RiskCase → String → Dict (Dict Value) → Dict (Dict Value) → Result (Dict (Dict Value))
heads_among c case_id [] result = ok result
heads_among c case_id ((key, head) ∷ artifacts) result = do
  next ← if is_head c case_id head then add_head (get "source_id" head) head result else ok result
  heads_among c case_id artifacts next

unfoldable pub evidence_heads : Workspace → String → Result (Dict (Dict Value))
evidence_heads w case_id = do c ← item case_id w.cases; heads_among c case_id w.artifacts []

unfoldable pub evidence_basis : Workspace → String → Result (Dict (Dict Value))
evidence_basis w case_id = do
  heads ← evidence_heads w case_id
  ok (map (λ e. (e.0, remove "kind" e.1)) (sort_entries heads))

module _ ⦃runtime : Runtime⦄ where
  unfoldable pub investigation_basis : Workspace → String → Result String
  investigation_basis w case_id = do
    c ← item case_id w.cases
    affected ← entries_of (λ key task. task_basis w key) w.tasks (affected_tasks w.tasks c.scope)
    active ← active_precedents w case_id
    precedents ← entries_of (λ key lesson. ok lesson) w.lessons active
    external ← evidence_basis w case_id
    digest "investigation-basis" (
        plain (
          ("case", case_value c)
          ∷ ("affected", dict_of str affected)
          ∷ ("precedents", dict_of plain precedents)
          ∷ (if is_empty external then [] else ("external_evidence", dict_of plain external) ∷ [])))
