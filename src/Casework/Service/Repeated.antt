-- ===== src/Casework/Service/Repeated.antt =====
-- A command that is sent again.
use proofops_memoryguard.Base.{
  String, Bool, true, false, Option, some, [], ◌∷◌, Dict, get, ◌==◌, eq_refl, ◌≡◌, ◌∙◌, ap,
}
use proofops_memoryguard.Errors.{Result, ok}
use proofops_memoryguard.Exec
use proofops_memoryguard.Exec.{Exec, lift, and_then}
use proofops_memoryguard.Python.Value.{Value, bool, str, strings, value_eq, unfields-fields}
use proofops_memoryguard.Python.Runtime.{Runtime}
use proofops_memoryguard.Casework.Models.{Actor, Command, Workspace}
use proofops_memoryguard.Casework.Values.{plain}
use proofops_memoryguard.Casework.Digest.{digest}
use proofops_memoryguard.Casework.Service.{
  Service, Fresh, Change, as_casework, merge, replay_of, request_value, admitted, previous_of,
  serve, transact, mutate,
}

and_then_ok :
    {M A B : Type 0} (f : A → Exec M B) (r : Result A) (a : A) (m : M)
    → r ≡ ok a
    → and_then f r m ≡ f a m
and_then_ok f r a m h = ap (λ x. and_then f x m) h

-- what a repeated command answers
abbrev pub repeated : Dict Value → Dict Value
repeated response = merge response (("replayed", bool true) ∷ ("historical_only", bool true) ∷ [])

module _ ⦃runtime : Runtime⦄ where
  replay_of-recorded :
      (w : Workspace) (fresh : Fresh) (actor : Actor) (name : String) (payload : Dict Value)
      (fingerprint : String) (response : Dict Value)
      → (name == "review.prepare") ≡ false
      → replay_of w fresh actor name payload fingerprint
          (("request_hash", str fingerprint) ∷ ("response", plain response) ∷ [])
        ≡ ok (repeated response)
  unfolding replay_of get value_eq
  replay_of-recorded w fresh actor name payload fingerprint response other =
      rw (eq_refl fingerprint, other) (ap (λ d. ok (repeated d)) (unfields-fields response))

-- Sent again with the same key, session and payload to a workspace that holds its record and still lets the
-- actor in, a command other than a review's preparation answers with the recorded response, marked as
-- repeated, and saves nothing, whatever its expected revision and its change are.
pub mutate-repeats :
    ⦃runtime : Runtime⦄ {M : Type 0} (service : Service M) (fresh : Fresh) (actor : Actor)
    (cmd : Command) (name : String) (payload : Dict Value) (change : Change) (boot : Bool)
    (relevant : Option (String × String)) (m : M) (w' : Workspace) (key fingerprint : String)
    (response : Dict Value)
    → get key w'.idempotency
      ≡ some (("request_hash", str fingerprint) ∷ ("response", plain response) ∷ [])
    → digest "command" (request_value actor cmd name payload) ≡ ok fingerprint
    → digest "idempotency-key" (strings (actor.actor_id ∷ cmd.idempotency_key ∷ [])) ≡ ok key
    → (name == "review.prepare") ≡ false
    → (service.store.lock actor.tenant_id m).0 ≡ ok tt
    → (service.store.load actor.tenant_id (service.store.lock actor.tenant_id m).1).0 ≡ ok (some w')
    → admitted actor name payload boot (some w') ≡ ok w'
    → mutate service fresh actor cmd name payload change boot relevant m ≡ (
      ok (repeated response),
      (service.store.load actor.tenant_id (service.store.lock actor.tenant_id m).1).1,
    )
unfolding mutate transact serve previous_of
mutate-repeats {M = M} service fresh actor cmd name payload change boot relevant m w' key
      fingerprint response recorded request identity other free found passed =
    and_then_ok _ (digest "command" (request_value actor cmd name payload)) fingerprint m request
    ∙ and_then_ok _ (digest "idempotency-key" (strings (actor.actor_id ∷ cmd.idempotency_key ∷ [])))
        key m identity
    ∙ ap (λ (r : Result (Dict Value) × M). (as_casework r.0, r.1)) inside
  where
    here : M
    here = (service.store.lock actor.tenant_id m).1

    there : M
    there = (service.store.load actor.tenant_id here).1

    answer :
        (o : Option (Dict Value))
        → o ≡ some (("request_hash", str fingerprint) ∷ ("response", plain response) ∷ [])
        → serve service fresh actor cmd name payload change boot relevant fingerprint key w'
            (previous_of o)
            there
          ≡ (ok (repeated response), there)
    answer o e =
        ap
          (λ x.
            serve service fresh actor cmd name payload change boot relevant fingerprint key w'
              (previous_of x) there)
          e
        ∙ ap (λ (r : Result (Dict Value)). (r, there))
            (replay_of-recorded w' fresh actor name payload fingerprint response other)

    inside :
        Exec.◌>>◌
          (service.store.lock actor.tenant_id)
          (transact service fresh actor cmd name payload change boot relevant fingerprint key)
          m
        ≡ (ok (repeated response), there)
    inside =
        and_then_ok _ (service.store.lock actor.tenant_id m).0 tt here free
        ∙ and_then_ok _ (service.store.load actor.tenant_id here).0 (some w') there found
        ∙ and_then_ok _ (admitted actor name payload boot (some w')) w' there passed
        ∙ answer (get key w'.idempotency) recorded
