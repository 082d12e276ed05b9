-- ===== src/Casework/Service.antt =====
-- `CaseworkService` of src/proofops_casework/service.py: the store, the checks around each command and
-- `_mutate`. A command works on the workspace that the store loads, and nothing is kept but what it saves.
pub mod Commands
pub mod Cases
pub mod Recorded
pub mod Outcome
pub mod Reviewed
pub mod Repeated
pub mod Resolve
use proofops_memoryguard.Base.{
  ℕ, suc, ◌+◌, String, Bool, true, false, not, ◌&&◌, ◌||◌, Option, none, some, List, [], ◌∷◌, ◌++◌,
  Dict, get, put, contains, keys, last_one, is_empty, concat, leb, eqb, ◌==◌, if◌then◌else◌,
  is_some,
}
use proofops_memoryguard.Errors.{
  Error, Result, ok, err, casework, type_error, raise_if, or_raise, ◌>>=◌, ◌>>◌,
}
use proofops_memoryguard.Exec
use proofops_memoryguard.Exec.{Exec, lift, raise}
use proofops_memoryguard.Canonical.{zero_hash}
use proofops_memoryguard.Python.Number.{Datetime}
use proofops_memoryguard.Python.Value.{
  Value, bool, str, list, dict, strings, items, value_eq, unfields,
}
use proofops_memoryguard.Python.Runtime.{Runtime}
use proofops_memoryguard.Casework.Models.{
  Actor, Role, Command, RiskCase, Task, Handoff, Decision, Workspace, new_workspace, role_value,
  is_ready,
}
use proofops_memoryguard.Casework.Values.{nat, plain}
use proofops_memoryguard.Casework.Digest.{digest, seal}
use proofops_memoryguard.Casework.Basis.{item, look_up, reads, task_basis, investigation_basis}
use proofops_memoryguard.Casework.Ruling.{policy_result, is_past}
use proofops_memoryguard.Casework.Integrity.{validate_workspace}

-- The store of workspaces. `lock` takes the lock of a tenant, which may run into its timeout.
pub record WorkspaceStore (M : Type 0) : Type 0 where
  pub lock : String → Exec M (Unit {0})
  pub load : String → Exec M (Option Workspace)
  pub save : String → Workspace → Exec M (Unit {0})

-- What a call reads from outside: the clock and fresh ids.
pub record Fresh : Type 0 where
  pub checked_at : Datetime
  pub decided_at : Datetime
  pub policy_at : Datetime
  pub expiry_at : Datetime
  pub event_at : Datetime
  -- the reading for one task, in a loop over tasks
  pub task_at : String → Datetime
  -- `uuid4().hex` of the id with a prefix
  pub hex : String → String

-- The service without evidence desk, as its constructor leaves it.
pub record Service (M : Type 0) : Type 0 where
  pub store : WorkspaceStore M
  pub actors : Dict Actor
  pub runtime_id : String
  pub process_id : ℕ
  pub build_commit : String

-- `mutate(state, next_seq)`: the state afterwards, and the result
abbrev pub Change : Type 0
Change = Workspace → ℕ → Result (Workspace × Dict Value)

-- an exception leaves the transaction as a `CaseworkError`
abbrev pub as_casework : {A : Type 0} → Result A → Result A
as_casework (ok a) = ok a
as_casework (err (casework code status)) = err (casework code status)
as_casework (err e) = err (casework "MEMORY_BACKEND_UNAVAILABLE" 503)

-- `with self.store.transaction(tenant_id)`
abbrev pub in_transaction : {M A : Type 0} → WorkspaceStore M → String → Exec M A → Exec M A
in_transaction store tenant act m =
    let r = Exec.◌>>◌ (store.lock tenant) act m in (as_casework r.0, r.1)

-- `d | e`
unfoldable pub merge : Dict Value → Dict Value → Dict Value
merge d [] = d
merge d ((k, v) ∷ e) = merge (put k v d) e

-- `_task` and `_case`, for what is found under the id
abbrev pub visible_task : Actor → Option Task → Result Task
visible_task actor none = err (casework "TASK_NOT_FOUND" 404)
visible_task actor (some task) =
    raise_if (not (contains task.intent.scope.subject_id actor.subjects))
      (casework "TASK_NOT_FOUND" 404)
    >> ok task

abbrev pub visible_case : Actor → Option RiskCase → Result RiskCase
visible_case actor none = err (casework "CASE_NOT_FOUND" 404)
visible_case actor (some c) =
    raise_if (not (contains c.scope.subject_id actor.subjects)) (casework "CASE_NOT_FOUND" 404)
    >> ok c

abbrev pub task_of : Workspace → Actor → String → Result Task
task_of w actor id = visible_task actor (get id w.tasks)

abbrev pub case_of : Workspace → Actor → String → Result RiskCase
case_of w actor id = visible_case actor (get id w.cases)

-- `if name in payload: self._task(...)`, for a task or a case
abbrev recheck_named :
    {V : Type 0} → (Option V → Result V) → Dict V → Option Value → Result (Unit {0})
recheck_named visible d none = ok tt
recheck_named visible d (some v) = do found ← look_up (some v) d; seen ← visible found; ok tt

abbrev pub known_handoff : Actor → Option Handoff → Result Handoff
known_handoff actor none = err (casework "HANDOFF_NOT_FOUND" 404)
known_handoff actor (some h) =
    raise_if (not (h.reviewer_id == actor.actor_id)) (casework "HANDOFF_NOT_FOUND" 404) >> ok h

abbrev recheck_handoff : Workspace → Actor → Dict Value → Result (Unit {0})
recheck_handoff w actor payload = do
  id ← item "handoff_id" payload
  found ← look_up (some id) w.handoffs
  h ← known_handoff actor found
  c ← case_of w actor h.case_id
  ok tt

-- the permissions, rechecked before an old response is returned
unfoldable pub recheck : Workspace → Actor → String → Dict Value → Result (Unit {0})
recheck w actor name payload = do
  recheck_named (visible_task actor) w.tasks (get "task_id" payload)
  recheck_named (visible_case actor) w.cases (get "case_id" payload)
  if name == "handoff.accept" then recheck_handoff w actor payload else ok tt

module _ ⦃runtime : Runtime⦄ where
  -- a review that was prepared is only repeated while it could still be prepared
  abbrev pub still_reviewable : Workspace → Fresh → Task → Option Decision → Bool → Result Bool
  still_reviewable w fresh task none current = ok false
  still_reviewable w fresh task (some d) current =
      if not (elim task.current_decision_id [ none ↦ false | some id ↦ id == d.decision_id ])
        || not current
        || is_past d.expires_at fresh.expiry_at
      then ok false
      else task_basis w task.task_id >>= (λ basis. ok (d.basis_hash == basis))

  abbrev pub recheck_review : Workspace → Fresh → Actor → Dict Value → Result (Unit {0})
  recheck_review w fresh actor payload = do
    task_id ← item "task_id" payload
    found ← look_up (some task_id) w.tasks
    task ← visible_task actor found
    decision_id ← item "decision_id" payload
    d ← look_up (some decision_id) w.decisions
    ruling ← policy_result w task.task_id fresh.policy_at false
    fine ← still_reviewable w fresh task d (is_ready ruling.verdict)
    raise_if (not fine) (casework "STALE_OR_BLOCKED_REVIEW" 409)

  abbrev as_dict : Value → Result (Dict Value)
  as_dict (dict d) = ok (unfields d)
  as_dict v = err (type_error "unsupported operand type(s) for |")

  -- the answer to a command that was carried out before
  unfoldable pub replay_of :
      Workspace → Fresh → Actor → String → Dict Value → String → Dict Value → Result (Dict Value)
  replay_of w fresh actor name payload fingerprint previous = do
    hash ← item "request_hash" previous
    raise_if (not (value_eq hash (str fingerprint))) (casework "IDEMPOTENCY_CONFLICT" 409)
    if name == "review.prepare" then recheck_review w fresh actor payload else ok tt
    stored ← item "response" previous
    response ← as_dict stored
    ok (merge response (("replayed", bool true) ∷ ("historical_only", bool true) ∷ []))

  -- the precondition on the state: its revision, or the memory that an investigation rests on
  unfoldable pub precondition : Workspace → Command → Option (String × String) → Result (Unit {0})
  precondition w cmd none =
      raise_if (not (eqb w.revision cmd.expected_revision)) (casework "REVISION_CONFLICT" 409)
  precondition w cmd (some (case_id, expected)) = do
    raise_if (not (contains case_id (keys w.cases))) (casework "STALE_INVESTIGATION" 409)
    basis ← investigation_basis w case_id
    raise_if (not (basis == expected)) (casework "STALE_INVESTIGATION" 409)

  unfoldable pub request_value : Actor → Command → String → Dict Value → Value
  request_value actor cmd name payload = plain (
      ("command", str name)
      ∷ ("actor", str actor.actor_id)
      ∷ ("session", str cmd.session_id)
      ∷ ("payload", plain payload)
      ∷ [])

  abbrev pub last_hash : List (Dict Value) → Result Value
  last_hash [] = ok (str zero_hash)
  last_hash (event ∷ events) = item "event_hash" event

  abbrev pub event_body : Fresh → Actor → String → ℕ → String → String → Value → Dict Value
  event_body fresh actor name seq fingerprint result_hash previous =
      ("seq", nat seq)
      ∷ ("at", str (runtime.isoformat fresh.event_at))
      ∷ ("actor_id", str actor.actor_id)
      ∷ ("role", str (role_value actor.role))
      ∷ ("command", str name)
      ∷ ("request_hash", str fingerprint)
      ∷ ("result_hash", str result_hash)
      ∷ ("previous_hash", previous)
      ∷ []

  abbrev pub response_of : Dict Value → ℕ → String → Dict Value
  response_of result seq event_hash = merge result (
      ("revision", nat seq)
      ∷ ("event_hash", str event_hash)
      ∷ ("executable", bool false)
      ∷ ("replayed", bool false)
      ∷ [])

  abbrev pub kept_state :
      Fresh
      → Actor
      → String
      → String
      → String
      → ℕ
      → Workspace
      → Dict Value
      → String
      → Value
      → String
      → Workspace
  kept_state fresh actor name fingerprint key seq w result result_hash previous event_hash =
      record w {
        revision = seq;
        audit =
            w.audit
            ++ (event_body fresh actor name seq fingerprint result_hash previous
                ++ ("event_hash", str event_hash) ∷ [])
              ∷ [];
        idempotency =
            put key
              (("request_hash", str fingerprint)
                ∷ ("response", plain (response_of result seq event_hash))
                ∷ [])
              w.idempotency;
      }

  -- a changed state with its event and its response, sealed
  unfoldable pub record_change :
      Fresh
      → Actor
      → String
      → String
      → String
      → ℕ
      → Workspace
      → Dict Value
      → Result (Workspace × Dict Value)
  record_change fresh actor name fingerprint key seq w result = do
    result_hash ← digest "command-result" (plain result)
    previous ← last_hash (last_one w.audit)
    event_hash ←
        digest "event" (plain (event_body fresh actor name seq fingerprint result_hash previous))
    sealed ←
        seal
          (kept_state fresh actor name fingerprint key seq w result result_hash previous event_hash)
    ok (sealed, response_of result seq event_hash)

  -- a command that was not carried out before
  unfoldable pub carry_out :
      Fresh
      → Actor
      → Command
      → String
      → Change
      → Bool
      → Option (String × String)
      → String
      → String
      → Workspace
      → Result (Workspace × Dict Value)
  carry_out fresh actor cmd name change bootstrap relevant fingerprint key w = do
    precondition w cmd relevant
    raise_if (bootstrap && not (eqb w.revision 0)) (casework "WORKSPACE_ALREADY_EXISTS" 409)
    raise_if (leb 5000 w.revision) (casework "WORKSPACE_CAPACITY_REACHED" 413)
    changed ← change w (suc w.revision)
    record_change fresh actor name fingerprint key (suc w.revision) changed.0 changed.1

  -- the state to work on: the stored one, or a new one for the first command
  unfoldable pub opened : Actor → Bool → Option Workspace → Result Workspace
  opened actor true none = seal (new_workspace actor.tenant_id)
  opened actor false none = err (casework "MEMORY_WORKSPACE_MISSING" 503)
  opened actor bootstrap (some w) = ok w

  unfoldable pub admitted : Actor → String → Dict Value → Bool → Option Workspace → Result Workspace
  admitted actor name payload bootstrap stored = do
    w ← opened actor bootstrap stored
    validate_workspace w
    raise_if (not (w.tenant_id == actor.tenant_id)) (casework "TENANT_BINDING_FAILED" 503)
    recheck w actor name payload
    ok w

  -- `if previous`: an empty dictionary does not count
  unfoldable pub previous_of : Option (Dict Value) → Option (Dict Value)
  previous_of none = none
  previous_of (some []) = none
  previous_of (some (e ∷ d)) = some (e ∷ d)

module _ ⦃runtime : Runtime⦄ {M : Type 0} where
  -- a replay, or the change and its save
  unfoldable pub serve :
      Service M
      → Fresh
      → Actor
      → Command
      → String
      → Dict Value
      → Change
      → Bool
      → Option (String × String)
      → String
      → String
      → Workspace
      → Option (Dict Value)
      → Exec M (Dict Value)
  serve service fresh actor cmd name payload change bootstrap relevant fingerprint key w
        (some previous) =
      lift (replay_of w fresh actor name payload fingerprint previous)
  serve service fresh actor cmd name payload change bootstrap relevant fingerprint key w none =
      Exec.◌>>=◌ (lift (carry_out fresh actor cmd name change bootstrap relevant fingerprint key w))
        (λ done. Exec.◌>>◌ (service.store.save actor.tenant_id done.0) (lift (ok done.1)))

  -- the body of the transaction
  unfoldable pub transact :
      Service M
      → Fresh
      → Actor
      → Command
      → String
      → Dict Value
      → Change
      → Bool
      → Option (String × String)
      → String
      → String
      → Exec M (Dict Value)
  transact service fresh actor cmd name payload change bootstrap relevant fingerprint key =
      Exec.◌>>=◌ (service.store.load actor.tenant_id) (λ stored.
        Exec.◌>>=◌ (lift (admitted actor name payload bootstrap stored)) (λ w.
          serve service fresh actor cmd name payload change bootstrap relevant fingerprint key w
            (previous_of (get key w.idempotency))))

  -- `_mutate`
  unfoldable pub mutate :
      Service M
      → Fresh
      → Actor
      → Command
      → String
      → Dict Value
      → Change
      → Bool
      → Option (String × String)
      → Exec M (Dict Value)
  mutate service fresh actor cmd name payload change bootstrap relevant =
      Exec.◌>>=◌ (lift (digest "command" (request_value actor cmd name payload))) (λ fingerprint.
        Exec.◌>>=◌
          (lift (digest "idempotency-key" (strings (actor.actor_id ∷ cmd.idempotency_key ∷ []))))
          (λ key. in_transaction service.store actor.tenant_id (
            transact service fresh actor cmd name payload change bootstrap relevant fingerprint
              key)))
